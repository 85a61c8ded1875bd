-- ===== src/BulkReader.antt =====
-- resp/bufio.go: `bulkReader`, which streams one bulk to its caller. It shares the `bufioR` that it was
-- made from, so each operation takes both.
pub mod Count
pub mod Reads
use redeo.Base.{
  ℕ, zero, suc, ◌+◌, ◌-◌, Bool, true, false, Option, none, some, [], Bytes, ltb, leb, ◌==◌,
  if◌then◌else◌, length, take, drop,
}
use redeo.Base.Int.{ℤ, pos, negsuc, add64, sub_ℕ}
use redeo.Errors.{Error, eof}
use redeo.Io.{Runtime, Chunk, IoReader}
use redeo.Monad.{Outcome, ok, err, panic, timeout, return, ◌>>=◌, ◌>>◌, and_then}
use redeo.Reader.{BufioR, R, slice, or_panic}
use redeo.Replies.{read_bulk_len, skip_n}

-- `n` is what is left of the bulk, its CRLF included.
pub record BulkReader : Type 0 where
  pub n : ℤ

-- What `Read(p)` returns: `count` and `error`. `written` is what it put at the start of `p`.
pub record ReadResult : Type 0 where
  pub count : ℤ
  pub error : Option Error
  pub written : Bytes
  pub next : BulkReader

-- The end of `Read`: `b.n -= n`, and `n -= 2 - b.n` where that is positive.
pub finish_read : ℕ → Bytes → Option Error → ReadResult
finish_read left written e =
    let n = length written in
    record {
      count = if ltb (left - n) 2 then sub_ℕ n (2 - (left - n)) else pos n;
      error = e;
      written = written;
      next = record { n = pos (left - n) };
    }

module _ (rt : Runtime) (rd : IoReader) where
  open rd use {Src, read}

  unfoldable pub stream_bulk : R Src BulkReader
  stream_bulk = do sz ← read_bulk_len rt rd; return (record { n = add64 (pos sz) (pos 2) })

  -- past the guard `b.n <= 0`, on a slice of length `room`, already cut to `b.n`
  read_some : ℕ → ℕ → R Src ReadResult
  unfolding finish_read
  read_some left room b =
      let chunk = read room b.rd in
      if b.w == b.r
      then ok (finish_read left chunk.bytes chunk.error) (record b { rd = chunk.next })
      else (do
        unread ← λ s. or_panic (slice s.r s.w s.buf) s
        let copied = take room unread
        λ s. ok (finish_read left copied none) (record s { r = s.r + length copied }))
          b

  at_end : BulkReader → ReadResult
  at_end br = record { count = pos 0; error = some eof; written = []; next = br }

  read_of : BulkReader → ℤ → ℕ → R Src ReadResult
  unfolding at_end read_some
  read_of br (negsuc _) room = return (at_end br)
  read_of br (pos left) room =
      if left == 0
      then return (at_end br)
      else read_some left (if ltb left room then left else room)

  -- `Read(p)` for a slice `p` of length `room`
  unfoldable pub read_bulk_part : BulkReader → ℕ → R Src ReadResult
  unfolding read_of
  read_bulk_part br room = read_of br br.n room

  -- `err := b.skipN(b.n); b.n = 0`
  skip_rest : ℕ → R Src BulkReader
  skip_rest left b = elim (skip_n rt rd (pos left) b) [
    | ok _ b' ↦ ok (record { n = pos 0 }) b'
    | err e b' ↦ err e b'
    | panic ↦ panic
    | timeout ↦ timeout
  ]

  close_of : BulkReader → ℤ → R Src BulkReader
  unfolding skip_rest
  close_of br (negsuc _) = return br
  close_of br (pos left) = if left == 0 then return br else skip_rest left

  -- `Close`: `b.n` is zero afterwards, also where it returns an error.
  unfoldable pub close : BulkReader → R Src BulkReader
  unfolding close_of
  close br = close_of br br.n
