-- ===== src/Io.antt =====
-- The code behind the buffers of package resp: any `io.Reader` and `io.Writer`, taken as parameters,
-- and the helpers of Go's package io that the source calls on them.
pub mod AtLeast
pub mod Memory
pub mod Sink
pub mod Stream
use redeo.Base.{
  ℕ, zero, suc, ◌+◌, ◌-◌, Bool, true, false, ◌&&◌, Option, none, some, [], ◌++◌, Bytes, ltb, leb,
  ◌==◌, if◌then◌else◌, length, take, drop,
}
use redeo.Errors.{Error, eof, unexpected_eof, short_buffer}

-- `max_alloc` is how many bytes a slice that `make` gives can have; `grown n` is how many bytes or elements of spare
-- capacity an `append` leaves that had to move to a new array, for a result of length `n`; `rounds`
-- is the fuel of a loop that reads until it has enough.
pub record Runtime : Type 0 where
  pub max_alloc : ℕ
  pub grown : ℕ → ℕ
  pub rounds : ℕ

-- What `Read(p)` did: the bytes put at the start of `p`, the error, and the source behind it.
pub record Chunk (Src : Type 0) : Type 0 where
  pub bytes : Bytes
  pub error : Option Error
  pub next : Src

-- `read n` is `Read` on a slice of length `n`.
pub record IoReader : Type 1 where
  pub Src : Type 0
  pub read : ℕ → Src → Chunk Src

-- What `Write(p)` did: the count, the error, and the sink behind it.
pub record Wrote (Snk : Type 0) : Type 0 where
  pub count : ℕ
  pub error : Option Error
  pub next : Snk

pub record IoWriter : Type 1 where
  pub Snk : Type 0
  pub write : Bytes → Snk → Wrote Snk

abbrev pub is_eof : Error → Bool
is_eof eof = true
is_eof _ = false

-- the error of `io.ReadAtLeast`, from the bytes read and the error of the last `Read`
pub at_least_error : ℕ → ℕ → Option Error → Option Error
at_least_error least n none = none
at_least_error least n (some e) =
    if leb least n then none else if ltb 0 n && is_eof e then some unexpected_eof else some e

module _ (io : IoReader) where
  open io use {Src, read}

  -- the loop of `io.ReadAtLeast` on a slice of length `room`; `none` is the end of the fuel
  pub read_loop : ℕ → ℕ → ℕ → Bytes → Src → Option (Chunk Src)
  read_loop zero room least got src = none
  read_loop (suc f) room least got src =
      let chunk = read (room - length got) src in
      let more = read_loop f room least (got ++ chunk.bytes) chunk.next in
      if ltb (length got) least
      then (elim chunk.error [
        | none ↦ more
        | some e ↦ some (record { bytes = got ++ chunk.bytes; error = some e; next = chunk.next })
      ])
      else some (record { bytes = got; error = none; next = src })

  read_at_least_of : ℕ → Option (Chunk Src) → Option (Chunk Src)
  read_at_least_of least none = none
  read_at_least_of least (some c) =
      some (record c { error = at_least_error least (length c.bytes) c.error })

  -- `io.ReadAtLeast`
  unfoldable pub read_at_least : ℕ → ℕ → ℕ → Src → Option (Chunk Src)
  unfolding read_at_least_of at_least_error read_loop
  read_at_least fuel room least src =
      if ltb room least
      then some (record { bytes = []; error = some short_buffer; next = src })
      else read_at_least_of least (read_loop fuel room least [] src)

  -- `Read` of an `io.LimitedReader` with `x` bytes left
  unfoldable pub limited_read : ℕ → ℕ → Src → Chunk Src
  limited_read x room src =
      if x == 0
      then record { bytes = []; error = some eof; next = src }
      else read (if ltb x room then x else room) src
