-- ===== src/BulkReader/Count.antt =====
-- resp/bufio.go: `Read` of `bulkReader` where bytes are buffered.
use Prim.Native.Nat.{min}
use redeo.Base.{
  ℕ, ◌-◌, ◌≤◌, ◌<◌, ◌≡◌, refl, ap, ◌∙◌, false, none, some, Bytes, arith, ltb, ◌==◌, if◌then◌else◌,
  length, take, length-take, le→leb,
}
use redeo.Base.Int.{pos, sub_ℕ}
use redeo.BulkReader.{finish_read, read_some, read_of, read_bulk_part}
use redeo.Io.{Runtime, IoReader}
use redeo.Monad.{ok}
use redeo.Reader.Window.{IsValid, window, advanced, length-window}
use redeo.Reader.{BufioR, slice}

slice_unread : {Src : Type 0} (b : BufioR Src) → IsValid b → slice b.r b.w b.buf ≡ some (window b)
unfolding slice
slice_unread b v = rw (le→leb b.r b.w v.r-le-w, le→leb b.w (length b.buf) v.w-le-length)

room_min : (left room : ℕ) → (if ltb left room then left else room) ≡ min left room
room_min left room = ground arith

pub not_zero : (n : ℕ) → 0 < n → (n == 0) ≡ false
not_zero n h = ground arith

count_lem :
    (left n : ℕ)
    → 2 ≤ left
    → n ≤ left
    → (if ltb (left - n) 2 then sub_ℕ n (2 - (left - n)) else pos n) ≡ pos (min n (left - 2))
count_lem left n two h = ground arith

finish_read_two :
    (left : ℕ) (p : Bytes) {n : ℕ}
    → 2 ≤ left
    → length p ≡ n
    → n ≤ left
    → finish_read left p none ≡ record {
      count = pos (min n (left - 2));
      error = none;
      written = p;
      next = record { n = pos (left - n) };
    }
unfolding finish_read
finish_read_two left p {n} two e h = rw e (
    ap (λ c. record { count = c; error = none; written = p; next = record { n = pos (left - n) } })
      (count_lem left n two h))

module _ (rt : Runtime) (rd : IoReader) where
  open rd use {Src}

  -- a `Read` of `room` bytes, with `left` of them to come
  abbrev pub size_of : BufioR Src → ℕ → ℕ → ℕ
  size_of b left room = min (min left room) (length (window b))

  read_some_buffered :
      (b : BufioR Src) (left room : ℕ)
      → IsValid b
      → 0 < length (window b)
      → read_some rt rd left room b
        ≡ ok
            (finish_read left (take room (window b)) none)
            (advanced b (length (take room (window b))))
  unfolding read_some
  read_some_buffered b left room v some_left = rw apart (rw (slice_unread b v) refl)
    where
      apart : (b.w == b.r) ≡ false
      apart = ground (arith, length-window b v)

  -- `Read` where some bytes are buffered, on a slice of length `room`
  pub read_buffered :
      (b : BufioR Src) (left room : ℕ)
      → IsValid b
      → 0 < left
      → 0 < length (window b)
      → read_bulk_part rt rd (record { n = pos left }) room b
        ≡ ok
            (finish_read left (take (min left room) (window b)) none)
            (advanced b (size_of b left room))
  unfolding read_bulk_part read_of
  read_buffered b left room v some_left some_bytes =
      rw (not_zero left some_left, room_min left room)
        (read_some_buffered b left (min left room) v some_bytes
          ∙ ap (λ n. ok (finish_read left (take (min left room) (window b)) none) (advanced b n))
              (length-take (min left room) (window b)))

  -- If a valid reader holds unread bytes and at least the CRLF is left of the bulk, `Read` takes as
  -- many of them as its slice, the rest of the bulk and the buffer allow, returns no error, and its
  -- count is how many of them belong to the body.
  pub read_bulk_part_count :
      (b : BufioR Src) (left room : ℕ)
      → IsValid b
      → 0 < length (window b)
      → 2 ≤ left
      → read_bulk_part rt rd (record { n = pos left }) room b
        ≡ ok
            (record {
              count = pos (min (size_of b left room) (left - 2));
              error = none;
              written = take (min left room) (window b);
              next = record { n = pos (left - size_of b left room) };
            })
            (advanced b (size_of b left room))
  read_bulk_part_count b left room v some_bytes two =
      read_buffered b left room v (omega arith) some_bytes
      ∙ ap (λ r. ok r (advanced b (size_of b left room)))
          (finish_read_two left (take (min left room) (window b)) two
            (length-take (min left room) (window b)) (omega arith))
