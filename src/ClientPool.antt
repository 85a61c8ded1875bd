-- ===== src/ClientPool.antt =====
-- client/conn.go and client/pool.go: the client side, with the low-level operations of the request
-- writer of resp/request.go. The pool of connections is package github.com/bsm/pool, a parameter.
pub mod Histories
use redeo.Base.{
  ℕ, Bool, true, false, Option, none, some, List, [], ◌∷◌, Bytes, length, if◌then◌else◌,
}
use redeo.Base.Int.{ℤ, pos, negsuc}
use redeo.Errors.{Error, invalid_multi_bulk_length}
use redeo.Io.{Runtime, IoReader, IoWriter}
use redeo.Monad.{Outcome, ok, err, panic, timeout}
use redeo.Pools.{Pools, take_reader, take_writer, put_back, new_reader}
use redeo.Reader.{BufioR, buffered}
use redeo.Writer as Writer
use redeo.Writer.{
  BufioW, W, pending_bytes, append_array_len, append_bulk, flush, copy_bulk, new_writer, reset_to,
  Both,
}

-- `RequestWriter` wraps a `bufioW`, which is what it is here.
module _ {Snk : Type 0} where
  unfoldable pub write_multi_bulk_size : Runtime → ℤ → W Snk (Unit {0})
  write_multi_bulk_size rt (negsuc n) w = err invalid_multi_bulk_length w
  write_multi_bulk_size rt (pos n) w = ok tt (append_array_len rt (pos n) w)

  -- `WriteBulk` and `WriteBulkString`
  abbrev pub write_bulk : Runtime → Bytes → BufioW Snk → BufioW Snk
  write_bulk rt p w = append_bulk rt p w

-- A network connection: what is to be read from it, and what was written to it.
abbrev pub NetConn : Type 0 → Type 0 → Type 0
NetConn Src Snk = Src × Snk

-- `conn`, whose reader and writer hold the two parts of the network connection
pub record Conn (Src Snk : Type 0) : Type 0 where
  pub writer : BufioW Snk
  pub reader : BufioR Src
  pub failed : Bool

-- `pool.Pool` of github.com/bsm/pool, and `Close` of a network connection
pub record NetPool (Src Snk : Type 0) : Type 1 where
  pub Conns : Type 0
  pub get : Conns → Outcome Error Conns (NetConn Src Snk)
  pub put : NetConn Src Snk → Conns → Conns
  pub close_all : Conns → Conns
  pub close : NetConn Src Snk → NetConn Src Snk

module _ {Src Snk : Type 0} where
  abbrev pub net_conn : Conn Src Snk → NetConn Src Snk
  net_conn c = (c.reader.rd, c.writer.out)

  -- `Wrap`
  unfoldable pub wrap : NetConn Src Snk → Conn Src Snk
  wrap (src, snk) = record { writer = new_writer snk; reader = new_reader src; failed = false }

  unfoldable pub mark_failed : Conn Src Snk → Conn Src Snk
  mark_failed c = record c { failed = true }

  unfoldable pub unread_bytes : Conn Src Snk → ℤ
  unread_bytes c = buffered c.reader

  unfoldable pub unflushed_bytes : Conn Src Snk → ℕ
  unflushed_bytes c = pending_bytes c.writer

module _ {Src Snk : Type 0} (np : NetPool Src Snk) where
  open np use {Conns, get, put, close_all, close}

  -- `Close` of a connection
  unfoldable pub close_conn : Conn Src Snk → Conn Src Snk
  close_conn c =
      let (src, snk) = close (net_conn c) in
      record {
        writer = record c.writer { out = snk };
        reader = record c.reader { rd = src };
        failed = true;
      }

  -- `Pool`
  pub record Pool : Type 0 where
    pub conns : Conns
    pub recycled : Pools Src Snk

  -- the rest of `Get`, with `newRequestWriter` and `newResponseReader`
  conn_for : Option ℕ → Option ℕ → NetConn Src Snk → Pools Src Snk → Conn Src Snk × Pools Src Snk
  conn_for i j (src, snk) p =
      let (wr, p') = take_writer j snk p in
      let (rd, p'') = take_reader i src p' in
      (record { writer = wr; reader = rd; failed = false }, p'')

  got :
      Option ℕ
      → Option ℕ
      → Outcome Error Conns (NetConn Src Snk)
      → Pool
      → Outcome Error Pool (Conn Src Snk)
  unfolding conn_for
  got i j (ok cn conns) p =
      let (c, recycled) = conn_for i j cn p.recycled in
      ok c (record { conns = conns; recycled = recycled })
  got i j (err e conns) p = err e (record p { conns = conns })
  got i j panic p = panic
  got i j timeout p = timeout

  -- `Get`, with the items that the pools choose to give
  unfoldable pub get_conn : Option ℕ → Option ℕ → Pool → Outcome Error Pool (Conn Src Snk)
  unfolding got
  get_conn i j p = got i j (get p.conns) p

  -- `Put`; `none` is a `Conn` of another package. The connection behind it may have been closed.
  unfoldable pub put_conn : Option (Conn Src Snk) → Pool → Option (Conn Src Snk) × Pool
  unfolding close_conn
  put_conn none p = (none, p)
  put_conn (some c) p = if c.failed then (some (close_conn c), p) else (
    some c,
    record { conns = put (net_conn c) p.conns; recycled = put_back c.reader c.writer p.recycled },
  )

  -- `Close` of the pool
  unfoldable pub close_pool : Pool → Pool
  close_pool p = record p { conns = close_all p.conns }
