-- ===== src/Server/Clients.antt =====
-- client.go: the making and the release of the clients that share the pools of the server.
use redeo.Base.{ℕ, suc, ◌+◌, ◌%◌, ◌≡◌, refl, false, Option, none, [], arith}
use redeo.Base.Int.{two64}
use redeo.Info.{ServerInfo}
use redeo.Pools.Fresh.{
  Fits, IsFreshReader, IsFreshWriter, AllFit, take_reader-IsFresh, take_writer-IsFresh,
  put_back-AllFit,
}
use redeo.Pools.{Pools, take_reader, take_writer, put_back}
use redeo.Server.{Session}

-- `clientInc`, `readerPool` and `writerPool`
pub record Globals (Src Snk : Type 0) : Type 0 where
  pub client_inc : ℕ
  pub pools : Pools Src Snk

module _ {Ctx Src Snk : Type 0} where
  -- `newClient` and `reset`, with the items that the pools choose to give
  unfoldable pub new_client :
      Option ℕ
      → Option ℕ
      → Src
      → Snk
      → ServerInfo
      → Globals Src Snk
      → Session Ctx Src Snk × Globals Src Snk
  new_client i j src snk info g =
      let (rd, p) = take_reader i src g.pools in
      let (wr, p') = take_writer j snk p in
      let id = (g.client_inc + 1) % two64 in
      (
        record { id = id; rd = rd; wr = wr; closed = false; cmd = none; scmd = none; info = info },
        record { client_inc = id; pools = p' },
      )

  -- `release`, behind the `Close` of the connection
  unfoldable pub release : Session Ctx Src Snk → Globals Src Snk → Globals Src Snk
  release s g = record g { pools = put_back s.rd s.wr g.pools }

  pub record IsFresh (src : Src) (snk : Snk) (n : ℕ) (s : Session Ctx Src Snk) : Type 0 where
    pub reader : IsFreshReader src s.rd
    pub writer : IsFreshWriter snk s.wr
    pub open_yet : s.closed ≡ false
    pub no_cmd : s.cmd ≡ none
    pub no_scmd : s.scmd ≡ none
    pub numbered : s.id ≡ n % two64

module _ (Ctx : Type 0) {Src Snk : Type 0} where
  -- Clients come and go, `n` having come so far. A client that goes may have left anything in its
  -- reader and its writer; only the array of its reader has a possible length.
  pub data Reach (start : Globals Src Snk) : ℕ → Globals Src Snk → Type 0 where
    here : Reach start 0 start
    come :
        {n : ℕ} {g : Globals Src Snk} (i j : Option ℕ) (src : Src) (snk : Snk) (info : ServerInfo)
        → Reach start n g
        → Reach start (suc n) (new_client {Ctx = Ctx} i j src snk info g).1
    go :
        {n : ℕ} {g : Globals Src Snk} (s : Session Ctx Src Snk)
        → Fits s.rd
        → Reach start n g
        → Reach start n (release s g)

record IsCounted {Src Snk : Type 0} (n : ℕ) (g : Globals Src Snk) : Type 0 where
  fit : AllFit g.pools
  count : g.client_inc ≡ n % two64

next_count : (n k : ℕ) → k ≡ n % two64 → (k + 1) % two64 ≡ suc n % two64
next_count n k e = omega arith

module _ {Ctx Src Snk : Type 0} where
  new_client-IsFresh :
      (i j : Option ℕ) (src : Src) (snk : Snk) (info : ServerInfo) (n : ℕ) (g : Globals Src Snk)
      → IsCounted n g
      → IsFresh src snk (suc n) (new_client {Ctx = Ctx} i j src snk info g).0
        × IsCounted (suc n) (new_client {Ctx = Ctx} i j src snk info g).1
  unfolding new_client
  new_client-IsFresh i j src snk info n g c =
      let (fresh_reader, fit) = take_reader-IsFresh i src g.pools c.fit in
      let (fresh_writer, fit') = take_writer-IsFresh j snk (take_reader i src g.pools).1 fit in
      let e = next_count n g.client_inc c.count in
      (
        record {
          reader = fresh_reader;
          writer = fresh_writer;
          open_yet = refl;
          no_cmd = refl;
          no_scmd = refl;
          numbered = e;
        },
        record { fit = fit'; count = e },
      )

  Reach-IsCounted :
      {start g : Globals Src Snk} {n : ℕ} → IsCounted 0 start → Reach Ctx start n g → IsCounted n g
  unfolding release
  Reach-IsCounted c here = c
  Reach-IsCounted c (come {n} {g} i j src snk info before) =
      (new_client-IsFresh i j src snk info n g (Reach-IsCounted c before)).1
  Reach-IsCounted c (go {n} {g} s h before) =
      let b = Reach-IsCounted c before in
      record { fit = put_back-AllFit s.rd s.wr g.pools h b.fit; count = b.count }

-- the state of the package before the first client
abbrev pub no_globals : {Src Snk : Type 0} → Globals Src Snk
no_globals = record { client_inc = 0; pools = record { readers = []; writers = [] } }

no_globals-IsCounted : {Src Snk : Type 0} → IsCounted {Src = Src} {Snk = Snk} 0 no_globals
unfolding AllFit
no_globals-IsCounted = record { fit = tt; count = refl }

module _ {Ctx Src Snk : Type 0} where
  -- Whatever clients came and went before, and whatever they left in their readers and writers, a
  -- new client gets a valid reader of its own connection with nothing buffered, a writer of its own
  -- connection with nothing pending, no command, and as its id the number of clients up to it
  -- (modulo 2^64), whichever items the pools choose to give.
  pub Reach-IsFresh :
      {g : Globals Src Snk} {n : ℕ}
      → Reach Ctx no_globals n g
      → (i j : Option ℕ) (src : Src) (snk : Snk) (info : ServerInfo)
      → IsFresh src snk (suc n) (new_client {Ctx = Ctx} i j src snk info g).0
  Reach-IsFresh {g} {n} before i j src snk info =
      (new_client-IsFresh i j src snk info n g (Reach-IsCounted no_globals-IsCounted before)).0
