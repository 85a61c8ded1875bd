-- ===== src/Replies.antt =====
-- resp/bufio.go: the operations of `bufioR` that read lines, sizes, bulks and replies.
pub mod AtEnd
pub mod Bulk
pub mod BulkStream
pub mod Buffered
pub mod Equal
pub mod Lines
pub mod Cut
pub mod RoundTrip
use redeo.Base.{
  ℕ, zero, suc, ◌+◌, ◌-◌, Bool, true, false, not, ◌&&◌, ◌||◌, Option, none, some, List, [], ◌∷◌,
  ◌++◌, Bytes, codes, ltb, leb, ◌==◌, if◌then◌else◌, length, get_elem?, take, drop,
}
use redeo.Base.Int.{ℤ, pos, negsuc, add64, sub64, lt_one}
use redeo.Errors.{
  Error, eof, inline_request_too_long, not_a_nil_message, invalid_multi_bulk_length,
  invalid_bulk_length, bin_nil,
}
use redeo.Io.{Runtime, Chunk, IoReader, limited_read, is_eof}
use redeo.Line.{parse_int, parse_message, parse_size}
use redeo.Monad.{Outcome, ok, err, panic, timeout, return, fail, ◌>>=◌, ◌>>◌, and_then}
use redeo.Reader.{
  BufioR, R, ResponseType, type_unknown, type_array, type_bulk, type_inline, type_error, type_int,
  type_nil, slice, put, index_byte, buffered, or_panic, of_parsed, of_error, require, fill,
}

-- `bytes.Equal`
unfoldable pub equal : Bytes → Bytes → Bool
equal [] [] = true
equal (x ∷ xs) (y ∷ ys) = x == y && equal xs ys
equal _ _ = false

module _ {Src : Type 0} where
  -- `b.buf[b.r+i]`
  byte_at : ℕ → R Src ℕ
  byte_at i b = or_panic (get_elem? b.buf (b.r + i)) b

  slice_of : ℕ → ℕ → R Src Bytes
  slice_of lo hi b = or_panic (slice lo hi b.buf) b

  -- the search of `PeekLine`, from `start` on
  find_return : ℕ → BufioR Src → Option ℕ
  find_return start b =
      if ltb start b.w then index_byte (take (b.w - start) (drop start b.buf)) b'\r' else none

  advance : ℕ → R Src (Unit {0})
  advance n b = ok tt (record b { r = b.r + n })

  line_at : ℕ → Option ℕ → R Src Bytes
  unfolding slice_of
  line_at start none = fail inline_request_too_long
  line_at start (some index) = slice_of start (start + index + 2)

module _ (rt : Runtime) (rd : IoReader) where
  open rd use {Src, read}

  unfoldable pub peek_byte : R Src ℕ
  unfolding byte_at
  peek_byte = do require rt rd (pos 1); byte_at 0

  -- the `switch` of `PeekType`
  unfoldable pub type_of : ℕ → R Src ResponseType
  unfolding byte_at
  type_of c =
      if c == b'*'
      then return type_array
      else if c == b'$'
      then (do
        require rt rd (pos 2)
        d ← byte_at 1
        return (if d == b'-' then type_nil else type_bulk))
      else if c == b'+'
      then return type_inline
      else if c == b'-'
      then return type_error
      else if c == b':'
      then return type_int
      else return type_unknown

  unfoldable pub peek_type : R Src ResponseType
  unfolding byte_at type_of
  peek_type = do require rt rd (pos 1); c ← byte_at 0; type_of c

  -- `offset + n` wraps; on 64-bit integers a slice with a huge bound is refused at run time.
  unfoldable pub peek_n : ℕ → ℕ → R Src Bytes
  unfolding slice_of
  peek_n offset n = do
    require rt rd (add64 (pos offset) (pos n))
    λ b. slice_of (b.r + offset) (b.r + offset + n) b

  -- The line may have to be read first, by one call of `fill`.
  peek_line_in : ℕ → Option ℕ → R Src Bytes
  unfolding line_at find_return
  peek_line_in offset (some index) b = line_at (b.r + offset) (some index) b
  peek_line_in offset none b =
      (do fill rt rd; λ b. line_at (b.r + offset) (find_return (b.r + offset) b) b) b

  unfoldable pub peek_line : ℕ → R Src Bytes
  unfolding peek_line_in
  peek_line offset b = peek_line_in offset (find_return (b.r + offset) b) b

  unfoldable pub read_line : R Src Bytes
  unfolding advance
  read_line = do line ← peek_line 0; advance (length line); return line

  unfoldable pub read_nil : R Src (Unit {0})
  read_nil = do
    line ← read_line
    if ltb (length line) 3 || not (equal (take 3 line) (take 3 bin_nil))
        then fail not_a_nil_message
        else return tt

  unfoldable pub read_int : R Src ℤ
  read_int = do line ← read_line; of_parsed (parse_int line)

  unfoldable pub read_error : R Src Bytes
  read_error = do line ← read_line; of_parsed (parse_message line b'-')

  unfoldable pub read_inline_string : R Src Bytes
  read_inline_string = do line ← read_line; of_parsed (parse_message line b'+')

  unfoldable pub read_array_len : R Src ℕ
  read_array_len = do line ← read_line; of_parsed (parse_size line b'*' invalid_multi_bulk_length)

  unfoldable pub read_bulk_len : R Src ℕ
  read_bulk_len = do line ← read_line; of_parsed (parse_size line b'$' invalid_bulk_length)

  -- `b.require(int(sz + 2))`, then the next `sz` bytes and the CRLF behind them
  pub read_body : ℕ → R Src Bytes
  unfolding slice_of advance
  read_body sz = do
    require rt rd (add64 (pos sz) (pos 2))
    body ← λ b. slice_of b.r (b.r + sz) b
    advance (sz + 2)
    return body

  -- `ReadBulk(p)`: the bulk appended to `p`
  unfoldable pub read_bulk : Bytes → R Src Bytes
  unfolding read_body
  read_bulk p = do sz ← read_bulk_len; body ← read_body sz; return (p ++ body)

  unfoldable pub read_bulk_string : R Src Bytes
  unfolding read_body
  read_bulk_string = do sz ← read_bulk_len; read_body sz

  -- The loop of `skipN`: `x` bytes are left to discard. Each round reads into the front of `buf`.
  discard : ℕ → ℕ → R Src (Unit {0})
  discard zero x b = timeout
  discard (suc f) x b =
      let chunk = limited_read rd x (length b.buf) b.rd in
      let b' = record b { rd = chunk.next; buf = put b.buf 0 chunk.bytes } in
      let left = x - length chunk.bytes in
      let more = discard f left b' in
      elim chunk.error [
        | none ↦ more
        | some e ↦ if is_eof e then (if left == 0 then ok tt b' else err eof b') else err e b'
      ]

  -- `skipN(sz)`. Where `sz` is negative the source moves `r` below zero, and panics at the next use of
  -- `buf`; this model has no negative index, and panics at once.
  skip_buffered : ℤ → R Src (Unit {0})
  skip_buffered (pos sz) b = ok tt (record b { r = b.r + sz })
  skip_buffered (negsuc n) b = panic

  skip_extra : ℤ → R Src (Unit {0})
  unfolding discard
  skip_extra (pos x) b = discard rt.rounds x (record b { r = 0; w = 0 })
  skip_extra (negsuc _) b = ok tt b

  unfoldable pub skip_n : ℤ → R Src (Unit {0})
  unfolding skip_buffered skip_extra
  skip_n sz b =
      let extra = sub64 sz (buffered b) in
      if lt_one extra then skip_buffered sz b else skip_extra extra b

  unfoldable pub skip_bulk : R Src (Unit {0})
  skip_bulk = do sz ← read_bulk_len; skip_n (add64 (pos sz) (pos 2))
