-- ===== src/ClientPool/Histories.antt =====
-- client/pool.go: connections as they come out of a pool after any history.
use redeo.Base.{ℕ, ◌≡◌, refl, false, Option, none, some, [], inl, inr, Bool-cases, subst}
use redeo.ClientPool.{NetConn, NetPool, Conn, Pool, get_conn, got, put_conn, close_pool, conn_for}
use redeo.Errors.{Error}
use redeo.Monad.{ok_injective, Outcome, ok, err, panic, timeout}
use redeo.Pools.Fresh.{
  Fits, IsFreshReader, IsFreshWriter, AllFit, take_reader-IsFresh, take_writer-IsFresh,
  put_back-AllFit,
}
use redeo.Pools.{Pools, take_writer}

module _ {Src Snk : Type 0} (np : NetPool Src Snk) where
  -- What users of a pool do. Between `Get` and `Put` a connection may be left in any state.
  pub data Step : Pool np → Pool np → Type 0 where
    take :
        (i j : Option ℕ) (p p' : Pool np) (c : Conn Src Snk)
        → get_conn np i j p ≡ ok c p'
        → Step p p'
    fail_to_take :
        (i j : Option ℕ) (p p' : Pool np) (e : Error) → get_conn np i j p ≡ err e p' → Step p p'
    return_conn :
        (c : Conn Src Snk) (p : Pool np) → Fits c.reader → Step p (put_conn np (some c) p).1
    return_other : (p : Pool np) → Step p (put_conn np none p).1
    end_all : (p : Pool np) → Step p (close_pool np p)

  pub data Reach (start : Pool np) : Pool np → Type 0 where
    here : Reach start start
    next : {p q : Pool np} → Reach start p → Step p q → Reach start q

  -- A connection with a reader and a writer of its own, with nothing left in them.
  pub record IsFreshConn (cn : NetConn Src Snk) (c : Conn Src Snk) : Type 0 where
    pub reader : IsFreshReader cn.0 c.reader
    pub writer : IsFreshWriter cn.1 c.writer
    pub not_failed : c.failed ≡ false

  conn_for-IsFresh :
      (i j : Option ℕ) (cn : NetConn Src Snk) (p : Pools Src Snk)
      → AllFit p
      → IsFreshConn cn (conn_for np i j cn p).0 × AllFit (conn_for np i j cn p).1
  unfolding conn_for
  conn_for-IsFresh i j (src, snk) p fit =
      let (fresh_writer, fit') = take_writer-IsFresh j snk p fit in
      let (fresh_reader, fit'') = take_reader-IsFresh i src (take_writer j snk p).1 fit' in
      (record { reader = fresh_reader; writer = fresh_writer; not_failed = refl }, fit'')

  -- What `Get` gives depends on what the pool of connections gives.
  got_cases :
      (i j : Option ℕ) (o : Outcome Error np.Conns (NetConn Src Snk)) (p p' : Pool np)
      (c : Conn Src Snk)
      → AllFit p.recycled
      → got np i j o p ≡ ok c p'
      → (cn : NetConn Src Snk) × (conns : np.Conns) × (o ≡ ok cn conns)
        × IsFreshConn cn c
        × AllFit p'.recycled
  unfolding got
  got_cases i j (ok cn conns) p p' c fit e =
      let (same_conn, same_pool) = ok_injective e in
      let (fresh, fit') = conn_for-IsFresh i j cn p.recycled fit in
      (
        cn,
        conns,
        refl,
        subst (IsFreshConn cn) same_conn fresh,
        subst (λ q. AllFit q.recycled) same_pool fit',
      )
  got_cases i j (err x conns) p p' c fit e = cc
  got_cases i j panic p p' c fit e = cc
  got_cases i j timeout p p' c fit e = cc

  got_err :
      (i j : Option ℕ) (o : Outcome Error np.Conns (NetConn Src Snk)) (p p' : Pool np) (x : Error)
      → AllFit p.recycled
      → got np i j o p ≡ err x p'
      → AllFit p'.recycled
  unfolding got
  got_err i j (ok cn conns) p p' x fit e = cc
  got_err i j (err y conns) p p' x fit e =
      let same : record p { conns = conns } ≡ p' = cc in subst (λ q. AllFit q.recycled) same fit
  got_err i j panic p p' x fit e = cc
  got_err i j timeout p p' x fit e = cc

  Step-AllFit : {p q : Pool np} → Step p q → AllFit p.recycled → AllFit q.recycled
  unfolding get_conn put_conn close_pool
  Step-AllFit (take i j p p' c e) fit =
      let (_, _, _, _, fit') = got_cases i j (np.get p.conns) p p' c fit e in fit'
  Step-AllFit (fail_to_take i j p p' x e) fit = got_err i j (np.get p.conns) p p' x fit e
  Step-AllFit (return_conn c p h) fit = elim (Bool-cases c.failed) [
    | inl failed ↦ rw failed fit
    | inr fine ↦ rw fine (put_back-AllFit c.reader c.writer p.recycled h fit)
  ]
  Step-AllFit (return_other p) fit = fit
  Step-AllFit (end_all p) fit = fit

  Reach-AllFit : {start p : Pool np} → AllFit start.recycled → Reach start p → AllFit p.recycled
  Reach-AllFit fit here = fit
  Reach-AllFit fit (next before step) = Step-AllFit step (Reach-AllFit fit before)

  -- After any history of a pool that began with nothing recycled, a connection that `Get` gives is
  -- one that the pool of connections gave. Its reader is valid and reads that connection with
  -- nothing buffered, its writer writes to that connection with nothing pending, and it is not
  -- marked as failed, whatever was left in the readers and writers that came back.
  pub get_conn-IsFresh :
      (conns : np.Conns) {p p' : Pool np} {c : Conn Src Snk}
      → Reach (record { conns = conns; recycled = record { readers = []; writers = [] } }) p
      → (i j : Option ℕ) → get_conn np i j p ≡ ok c p'
      → (cn : NetConn Src Snk) × (conns' : np.Conns) × (np.get p.conns ≡ ok cn conns')
        × IsFreshConn cn c
  unfolding get_conn AllFit
  get_conn-IsFresh conns {p} {p'} {c} before i j e =
      let (cn, conns', gave, fresh, _) =
        got_cases i j (np.get p.conns) p p' c (Reach-AllFit tt before) e in
      (cn, conns', gave, fresh)
