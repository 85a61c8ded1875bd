-- ===== src/Writer.antt =====
-- resp/bufio.go: `bufioW`, the buffered writer of both sides of a connection. Its mutex is not
-- modelled: each operation holds it from its first line to its last, so a history of calls is a
-- sequence of these functions.
pub mod Copy
pub mod Flush
pub mod Output
use redeo.Base.{
  ℕ, zero, suc, ◌+◌, ◌-◌, Bool, true, false, ◌&&◌, ◌||◌, Option, none, some, List, [], ◌∷◌, ◌++◌,
  Bytes, ltb, leb, ◌==◌, if◌then◌else◌, length, take, drop, replicate,
}
use redeo.Base.Int.{ℤ, pos, negsuc, two63}
use redeo.Decimal.{format_int}
use redeo.Errors.{Error, short_write, crlf, bin_ok, bin_zero, bin_one, bin_nil, max_buffer_size}
use redeo.Io.{Runtime, Chunk, Wrote, IoReader, IoWriter, read_at_least, limited_read, is_eof}
use redeo.Monad.{Outcome, ok, err, panic, timeout, and_then}
use redeo.Reader.{put}

-- The array of `buf` goes on behind its length: `spare` is that part, with the bytes that an earlier
-- use left there.
pub record BufioW (Snk : Type 0) : Type 0 where
  pub out : Snk
  pub buf : Bytes
  pub spare : Bytes

abbrev pub W : Type 0 → Type 0 → Type 0
W Snk A = BufioW Snk → Outcome Error (BufioW Snk) A

module _ {Snk : Type 0} where
  -- `Buffered`
  abbrev pub pending_bytes : BufioW Snk → ℕ
  pending_bytes w = length w.buf

  unfoldable pub reset : Bytes → Bytes → Snk → BufioW Snk
  reset buf spare out = record { out = out; buf = []; spare = buf ++ spare }

  -- `Reset`
  unfoldable pub reset_to : Snk → BufioW Snk → BufioW Snk
  unfolding reset
  reset_to out w = reset w.buf w.spare out

  -- `NewResponseWriter` and `NewRequestWriter`
  unfoldable pub new_writer : Snk → BufioW Snk
  unfolding reset
  new_writer out = reset (replicate max_buffer_size 0) [] out

module _ (rt : Runtime) {Snk : Type 0} where
  -- `b.buf = append(b.buf, p...)`
  unfoldable pub append : Bytes → BufioW Snk → BufioW Snk
  append p w =
      if leb (length p) (length w.spare)
      then record w { buf = w.buf ++ p; spare = drop (length p) w.spare }
      else record w { buf = w.buf ++ p; spare = replicate (rt.grown (length w.buf + length p)) 0 }

  unfoldable pub append_size : ℕ → ℤ → BufioW Snk → BufioW Snk
  append_size c n w = append crlf (append (format_int n) (append (c ∷ []) w))

  unfoldable pub append_array_len : ℤ → BufioW Snk → BufioW Snk
  append_array_len n w = append_size b'*' n w

  -- `AppendBulk` and `AppendBulkString`
  unfoldable pub append_bulk : Bytes → BufioW Snk → BufioW Snk
  append_bulk p w = append crlf (append p (append_size b'$' (pos (length p)) w))

  -- `AppendInline` and `AppendInlineString`
  unfoldable pub append_inline : Bytes → BufioW Snk → BufioW Snk
  append_inline p w = append crlf (append p (append (b'+' ∷ []) w))

  unfoldable pub append_error : Bytes → BufioW Snk → BufioW Snk
  append_error msg w = append crlf (append msg (append (b'-' ∷ []) w))

  append_other_int : ℤ → BufioW Snk → BufioW Snk
  append_other_int n w = append crlf (append (format_int n) (append (b':' ∷ []) w))

  unfoldable pub append_int : ℤ → BufioW Snk → BufioW Snk
  unfolding append_other_int
  append_int (pos zero) w = append bin_zero w
  append_int (pos (suc zero)) w = append bin_one w
  append_int (pos (suc (suc n))) w = append_other_int (pos (suc (suc n))) w
  append_int (negsuc n) w = append_other_int (negsuc n) w

  unfoldable pub append_nil : BufioW Snk → BufioW Snk
  append_nil w = append bin_nil w

  unfoldable pub append_ok : BufioW Snk → BufioW Snk
  append_ok w = append bin_ok w

  append_bulks : List Bytes → BufioW Snk → BufioW Snk
  append_bulks [] w = w
  append_bulks (p ∷ ps) w = append_bulks ps (append_bulk p w)

  -- resp/request.go: `WriteCmd` and `WriteCmdString`
  unfoldable pub write_cmd : Bytes → List Bytes → BufioW Snk → BufioW Snk
  unfolding append_bulks
  write_cmd cmd args w =
      append_bulks args (append_bulk cmd (append_array_len (pos (length args + 1)) w))

-- What a call of `Write` leaves: nothing is pending any more, and the array is kept.
abbrev pub emptied : {Snk : Type 0} → Snk → BufioW Snk → BufioW Snk
emptied out w = record { out = out; buf = []; spare = w.buf ++ w.spare }

module _ (wr : IoWriter) where
  open wr use {Snk, write}

  flushed : Wrote Snk → W Snk (Unit {0})
  flushed res w = elim res.error [
    | none ↦ ok tt (emptied res.next w)
    | some e ↦ err e (record w { out = res.next })
  ]

  -- `flush`, and `Flush`
  unfoldable pub flush : W Snk (Unit {0})
  unfolding flushed
  flush w = if length w.buf == 0 then ok tt w else flushed (write w.buf w.out) w

module _ (rt : Runtime) (wr : IoWriter) (rd : IoReader) where
  open wr use {Snk, write}
  open rd use {Src}

  -- The source and the writer of `CopyBulk`.
  abbrev pub Both : Type 0
  Both = Src × BufioW Snk

  -- the array after a `Read` into its front
  read_into : BufioW Snk → Bytes → BufioW Snk
  read_into w p = record w { spare = put w.spare 0 p }

  -- What `io.CopyBuffer` does with a chunk: write it, and go on if nothing went wrong. `Write` gave
  -- the count and the error.
  copied :
      Chunk Src
      → Wrote Snk
      → BufioW Snk
      → Outcome Error Both (Unit {0})
      → Outcome Error Both (Unit {0})
  copied chunk res w more =
      let s : Both = (chunk.next, record w { out = res.next }) in
      let at_end : Outcome Error Both (Unit {0}) = elim chunk.error [
        | none ↦ more
        | some e ↦ if is_eof e then ok tt s else err e s
      ] in
      elim res.error [
        | some e ↦ err e s
        | none ↦ if res.count == length chunk.bytes then at_end else err short_write s
      ]

  -- a chunk with no bytes is not written
  not_copied :
      Chunk Src → BufioW Snk → Outcome Error Both (Unit {0}) → Outcome Error Both (Unit {0})
  not_copied chunk w more = elim chunk.error [
    | none ↦ more
    | some e ↦ if is_eof e then ok tt (chunk.next, w) else err e (chunk.next, w)
  ]

  -- `io.CopyBuffer` from an `io.LimitReader` with `x` bytes left; the buffer is the whole array, which
  -- is `spare` here, since nothing is pending.
  copy_loop : ℕ → ℕ → Both → Outcome Error Both (Unit {0})
  unfolding copied not_copied read_into
  copy_loop zero x s = timeout
  copy_loop (suc f) x (src, w) =
      let chunk = limited_read rd x (length w.spare) src in
      let w' = read_into w chunk.bytes in
      let res = write chunk.bytes w'.out in
      let left = x - length chunk.bytes in
      let after_write = copy_loop f left (chunk.next, record w' { out = res.next }) in
      let after_none = copy_loop f left (chunk.next, w') in
      if ltb 0 (length chunk.bytes)
      then copied chunk res w' after_write
      else not_copied chunk w' after_none

  -- the branch where `n` bytes and a CRLF fit into the array
  copy_fast_of : ℕ → BufioW Snk → Chunk Src → Outcome Error Both (Unit {0})
  copy_fast_of n w chunk =
      let w' = record w {
        buf = w.buf ++ put (take n w.spare) 0 chunk.bytes;
        spare = drop n w.spare;
      } in
      elim chunk.error [
        | none ↦ ok tt (chunk.next, append rt crlf w')
        | some e ↦ err e (chunk.next, w')
      ]

  copy_fast : ℕ → Both → Outcome Error Both (Unit {0})
  unfolding copy_fast_of
  copy_fast n (src, w) =
      if leb n (length w.spare)
      then (elim (read_at_least rd rt.rounds n n src) [
        | none ↦ timeout
        | some chunk ↦ copy_fast_of n w chunk
      ])
      else panic

  -- the branch that flushes and copies past the buffer
  copy_slow : ℕ → Both → Outcome Error Both (Unit {0})
  unfolding copy_loop
  copy_slow n (src, w) = elim (flush wr w) [
    | ok _ w' ↦
        and_then (copy_loop rt.rounds n (src, emptied w'.out w'))
          (λ _ s. ok tt (s.0, append rt crlf s.1))
    | err e w' ↦ err e (src, w')
    | panic ↦ panic
    | timeout ↦ timeout
  ]

  -- `n + 2` wraps at the end of int64; the slice is then out of range.
  copy_of : ℤ → Both → Outcome Error Both (Unit {0})
  unfolding copy_fast copy_slow
  copy_of (pos n) s =
      if leb (n + 2) (length s.1.spare) || leb two63 (n + 2) then copy_fast n s else copy_slow n s
  copy_of (negsuc zero) s = if leb 1 (length s.1.spare) then panic else copy_slow 0 s
  copy_of (negsuc (suc _)) s = panic

  -- `CopyBulk(src, n)`
  unfoldable pub copy_bulk : ℤ → Both → Outcome Error Both (Unit {0})
  unfolding copy_of
  copy_bulk n (src, w) = copy_of n (src, append_size rt b'$' n w)
