-- ===== src/Reader.antt =====
-- resp/bufio.go: `bufioR`, the buffered reader of both sides of a connection.
pub mod AtEnd
pub mod Window
pub mod Refill
pub mod Require
pub mod Grow
use redeo.Base.{
  ℕ, zero, suc, ◌+◌, ◌-◌, Bool, true, false, not, ◌&&◌, ◌||◌, Option, none, some, List, [], ◌∷◌,
  ◌++◌, Bytes, codes, ltb, leb, ◌==◌, if◌then◌else◌, length, get_elem?, take, drop, replicate,
}
use redeo.Base.Int.{ℤ, pos, negsuc, add64, sub64, lt_one}
use redeo.Errors.{
  Error, eof, io, inline_request_too_long, not_a_nil_message, invalid_multi_bulk_length,
  invalid_bulk_length, bad_response_type,
}
use redeo.Io.{Runtime, Chunk, IoReader, read_at_least, limited_read, is_eof}
use redeo.Line.{Parsed, value, error, parse_int, parse_message, parse_size}
use redeo.Monad.{Outcome, ok, err, panic, timeout, return, fail, ◌>>=◌, ◌>>◌, and_then}

-- The unread bytes are `buf[r:w]`; `buf` is the whole array, its stale part included, and its
-- capacity is its length. The indices are never negative here: see `skip_n`.
pub record BufioR (Src : Type 0) : Type 0 where
  pub rd : Src
  pub buf : Bytes
  pub r : ℕ
  pub w : ℕ

-- response types, in the order of the source's iota
pub data ResponseType : Type 0 where
  type_unknown type_array type_bulk type_inline type_error type_int type_nil : ResponseType

-- `String`
unfoldable pub response_type_string : ResponseType → Bytes
response_type_string type_array = codes "Array"
response_type_string type_bulk = codes "Bulk"
response_type_string type_inline = codes "Inline"
response_type_string type_error = codes "Error"
response_type_string type_int = codes "Int"
response_type_string type_nil = codes "Nil"
response_type_string type_unknown = codes "Unknown"

-- `a[lo:hi]`, or nothing where Go panics.
unfoldable pub slice : ℕ → ℕ → Bytes → Option Bytes
slice lo hi a = if leb lo hi && leb hi (length a) then some (take (hi - lo) (drop lo a)) else none

-- `copy(a[i:], p)` where it fits
unfoldable pub put : Bytes → ℕ → Bytes → Bytes
put a i p = take i a ++ (p ++ drop (i + length p) a)

-- `bytes.IndexByte`
unfoldable pub index_byte : Bytes → ℕ → Option ℕ
index_byte [] c = none
index_byte (x ∷ xs) c =
    if x == c then some 0 else elim (index_byte xs c) [ none ↦ none | some i ↦ some (suc i) ]

-- An operation on the reader.
abbrev pub R : Type 0 → Type 0 → Type 0
R Src A = BufioR Src → Outcome Error (BufioR Src) A

module _ {Src : Type 0} where
  -- `Buffered`: negative if `r` has run past `w`
  unfoldable pub buffered : BufioR Src → ℤ
  buffered b = sub64 (pos b.w) (pos b.r)

  abbrev pub or_panic : {A : Type 0} → Option A → R Src A
  or_panic none b = panic
  or_panic (some a) b = ok a b

  abbrev pub of_parsed : {A : Type 0} → Parsed A → R Src A
  of_parsed (value a) b = ok a b
  of_parsed (error e) b = err e b

  -- an `error` that is nil or not, behind a change of state
  abbrev pub of_error : Option Error → R Src (Unit {0})
  of_error none b = ok tt b
  of_error (some e) b = err e b

  unfoldable pub compact : R Src (Unit {0})
  compact b =
      if ltb 0 b.r
      then (elim (slice b.r b.w b.buf) [
        | none ↦ panic
        | some unread ↦ ok tt (record b { buf = put b.buf 0 unread; w = b.w - b.r; r = 0 })
      ])
      else ok tt b

  unfoldable pub reset : Bytes → Src → BufioR Src
  reset buf rd = record { rd = rd; buf = buf; r = 0; w = 0 }

  -- `Reset`: the array is kept
  unfoldable pub reset_to : Src → BufioR Src → BufioR Src
  unfolding reset
  reset_to rd b = reset b.buf rd

  unfoldable pub skip : ℕ → BufioR Src → BufioR Src
  unfolding buffered
  skip sz b = if leb (b.r + sz) b.w then record b { r = b.r + sz } else b

-- `n > len(a)` for an int `n`
abbrev exceeds : ℤ → ℕ → Bool
exceeds (pos n) len = ltb len n
exceeds (negsuc n) len = false

abbrev to_nat : ℤ → ℕ
to_nat (pos n) = n
to_nat (negsuc n) = 0

module _ (rt : Runtime) (rd : IoReader) where
  open rd use {Src, read}

  -- a new array of length `n`, if `n` is longer than the old one
  pub grow_buf : ℤ → R Src (Unit {0})
  grow_buf n b =
      if exceeds n (length b.buf)
      then if ltb rt.max_alloc (to_nat n)
        then panic
        else ok tt (record b { buf = take b.w b.buf ++ replicate (to_nat n - b.w) 0 })
      else ok tt b

  -- `n, err := io.ReadAtLeast(b.rd, b.buf[b.w:], extra); b.w += n; return err`
  read_more : ℕ → R Src (Unit {0})
  read_more extra b = elim (read_at_least rd rt.rounds (length b.buf - b.w) extra b.rd) [
    | none ↦ timeout
    | some chunk ↦ of_error chunk.error (record b {
      rd = chunk.next;
      buf = put b.buf b.w chunk.bytes;
      w = b.w + length chunk.bytes;
    })
  ]

  pub grow_and_read : ℕ → R Src (Unit {0})
  grow_and_read extra b = (do grow_buf (add64 (pos b.w) (pos extra)); read_more extra) b

  unfoldable pub require : ℤ → R Src (Unit {0})
  unfolding grow_and_read grow_buf read_more
  require sz b =
      let extra = sub64 sz (buffered b) in
      if lt_one extra then ok tt b else (do compact; grow_and_read (to_nat extra)) b

  -- the second half of `fill`
  read_once : R Src (Unit {0})
  read_once b =
      let chunk = read (length b.buf - b.w) b.rd in
      if ltb b.w (length b.buf)
      then of_error chunk.error (record b {
        rd = chunk.next;
        buf = put b.buf b.w chunk.bytes;
        w = b.w + length chunk.bytes;
      })
      else ok tt b

  unfoldable pub fill : R Src (Unit {0})
  unfolding read_once
  fill = do compact; read_once
