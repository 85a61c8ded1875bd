-- ===== src/Replies/Cut.antt =====
-- resp/bufio.go: `ReadLine` on a line whose CR is buffered and whose LF is not, and
-- `ReadBulkString` on a size at the end of the range of int64.
use redeo.Base.{
  ℕ, suc, ◌+◌, ◌-◌, ◌≤◌, ◌<◌, ◌≡◌, refl, ap, sym, ◌∙◌, true, none, some, [], ◌∷◌, ◌++◌, Bytes,
  arith, length, take, drop, length-append, length-take, length-drop, lt→ltb, le→ltb_false, le→leb,
  append-nil,
}
use redeo.Base.Int.{pos, two63, add64, sub64, lt_one}
use redeo.Errors.{crlf}
use redeo.Io.{Runtime, IoReader}
use redeo.Monad.{panic, ok, and_then-ok}
use redeo.Reader.Window.{
  buf_limit, IsValid, window, advanced, buffered-window, length-window, advanced_append-IsValid,
  window-advanced_append,
}
use redeo.Reader.{BufioR, slice, buffered, compact, require}
use redeo.Replies.Bulk.{read_bulk_len_buffered}
use redeo.Replies.Lines.{Lacks, index_byte-append}
use redeo.Replies.{
  find_return, line_at, peek_line, peek_line_in, read_line, read_body, read_bulk_string,
}
use redeo.Wire.{size_text, size_line}

slice_past : (lo hi : ℕ) (a : Bytes) → hi < lo → slice lo hi a ≡ none
unfolding slice
slice_past lo hi a h = ground arith

slice_beyond : (lo hi : ℕ) (a : Bytes) → length a < hi → slice lo hi a ≡ none
unfolding slice
slice_beyond lo hi a h = ground arith

slice-some :
    (lo hi : ℕ) (a : Bytes)
    → lo ≤ hi
    → hi ≤ length a
    → slice lo hi a ≡ some (take (hi - lo) (drop lo a))
unfolding slice
slice-some lo hi a h k = rw (le→leb lo hi h, le→leb hi (length a) k) refl

compact_past : {Src : Type 0} (b : BufioR Src) → b.r ≡ suc b.w → compact b ≡ panic
unfolding compact
compact_past b past =
    rw (lt→ltb 0 b.r (omega (arith, past)))
      (rw (slice_past b.r b.w b.buf (omega (arith, past))) refl)

missing_past :
    {Src : Type 0} (b : BufioR Src) (n : ℕ)
    → b.r ≡ suc b.w
    → b.w ≤ buf_limit
    → n ≤ buf_limit
    → sub64 (pos n) (buffered b) ≡ pos (n + 1)
unfolding buffered sub64
missing_past b n past small limit = ground (arith, past)

wrapped :
    (n : ℕ) → two63 ≤ n + 2 → n < two63 → lt_one (sub64 (add64 (pos n) (pos 2)) (pos 0)) ≡ true
unfolding sub64 add64
wrapped n big small = ground arith

module _ (rt : Runtime) (rd : IoReader) where
  open rd use {Src}

  -- A reader that has run past its end panics when it needs a byte.
  require_past :
      (b : BufioR Src) (n : ℕ)
      → b.r ≡ suc b.w
      → b.w ≤ buf_limit
      → 0 < n
      → n ≤ buf_limit
      → require rt rd (pos n) b ≡ panic
  unfolding require
  require_past b n past small some_needed limit =
      rw (missing_past b n past small limit)
        (rw (le→ltb_false (n + 1) 1 (omega arith)) (rw (compact_past b past) refl))

  -- the line, its CR, and the stale byte behind it
  found : BufioR Src → Bytes → Bytes
  found b line = take (length line + 2) (drop b.r b.buf)

  length-found :
      (b : BufioR Src) (line : Bytes)
      → IsValid b
      → window b ≡ line ++ b'\r' ∷ []
      → b.w < length b.buf
      → length (found b line) ≡ length line + 2
  unfolding found
  length-found b line v e room = omega (
    arith,
    length-take (length line + 2) (drop b.r b.buf),
    length-drop b.r b.buf,
    length-window b v,
    ap length e,
    length-append line (b'\r' ∷ []),
  )

  find_return-cut :
      (b : BufioR Src) (line : Bytes)
      → IsValid b
      → window b ≡ line ++ b'\r' ∷ []
      → Lacks b'\r' line
      → find_return b.r b ≡ some (length line)
  unfolding find_return
  find_return-cut b line v e lacks =
      rw
        (
          lt→ltb b.r b.w
              (omega (arith, length-window b v, ap length e, length-append line (b'\r' ∷ []))),
          e,
        )
        (index_byte-append b'\r' line [] lacks)

  line_at-cut :
      (b : BufioR Src) (line : Bytes)
      → IsValid b
      → window b ≡ line ++ b'\r' ∷ []
      → b.w < length b.buf
      → line_at b.r (some (length line)) b ≡ ok (found b line) b
  unfolding line_at found
  line_at-cut b line v e room = rw sliced refl
    where
      size : b.r + length line + 2 - b.r ≡ length line + 2
      size = omega arith

      sliced : slice b.r (b.r + length line + 2) b.buf ≡ some (found b line)
      sliced =
          slice-some b.r (b.r + length line + 2) b.buf (omega arith)
            (omega (arith, length-window b v, ap length e, length-append line (b'\r' ∷ [])))
          ∙ ap (λ k. some (take k (drop b.r b.buf))) size

  peek_cut :
      (b : BufioR Src) (line : Bytes)
      → IsValid b
      → window b ≡ line ++ b'\r' ∷ []
      → Lacks b'\r' line
      → b.w < length b.buf
      → peek_line rt rd 0 b ≡ ok (found b line) b
  unfolding peek_line peek_line_in
  peek_cut b line v e lacks room =
      ap (λ at. peek_line_in rt rd 0 (find_return at b) b) (omega arith)
      ∙ ap (λ o. peek_line_in rt rd 0 o b) (find_return-cut b line v e lacks)
      ∙ ap (λ at. line_at at (some (length line)) b) (omega arith)
      ∙ line_at-cut b line v e room

  -- If the unread bytes of a valid reader are a line up to its CR and not the LF, and the array has
  -- room behind them, then `ReadLine` succeeds and gives the line, its CR and the stale byte of the
  -- array behind it, the read index is one past the write index, and the next `require` of at least
  -- one byte (up to 2^62) panics.
  pub read_line_cut :
      (b : BufioR Src) (line : Bytes) (n : ℕ)
      → IsValid b
      → window b ≡ line ++ b'\r' ∷ []
      → Lacks b'\r' line
      → b.w < length b.buf
      → 0 < n
      → n ≤ buf_limit
      → (read_line rt rd b
          ≡ ok (take (length line + 2) (drop b.r b.buf)) (advanced b (length line + 2)))
        × (b.r + (length line + 2) ≡ suc b.w)
        × (require rt rd (pos n) (advanced b (length line + 2)) ≡ panic)
  unfolding read_line found
  read_line_cut b line n v e lacks room some_needed limit = (
    and_then-ok _ (peek_cut b line v e lacks room)
        (ap (λ k. ok (found b line) (advanced b k)) (length-found b line v e room)),
    past,
    require_past (advanced b (length line + 2)) n (omega (arith, past))
        (omega (arith, v.w-le-length, v.length-le)) some_needed limit,
  )
    where
      past : b.r + (length line + 2) ≡ suc b.w
      past =
          omega (arith, length-window b v, ap length e, length-append line (b'\r' ∷ []), v.r-le-w)

  require_none :
      (b : BufioR Src) (n : ℕ)
      → IsValid b
      → window b ≡ []
      → two63 ≤ n + 2
      → n < two63
      → require rt rd (add64 (pos n) (pos 2)) b ≡ ok tt b
  unfolding require
  require_none b n v e big small = rw (buffered-window b v, e) (rw (wrapped n big small) refl)

  -- If a valid reader holds the size line of a bulk of 2^63 - 2 or 2^63 - 1 bytes and nothing
  -- behind it, `ReadBulkString` panics.
  pub read_bulk_string_overflow :
      (b : BufioR Src) (n : ℕ)
      → IsValid b
      → window b ≡ size_line b'$' n
      → two63 ≤ n + 2
      → n < two63
      → read_bulk_string rt rd b ≡ panic
  unfolding read_bulk_string read_body
  read_bulk_string_overflow b n v e big small =
      and_then-ok _ (read_bulk_len_buffered rt rd b n [] v (e ∙ regroup) small) (
        and_then-ok _ (require_none b₁ n v₁ none_left big small)
          (rw (slice_beyond b₁.r (b₁.r + n) b₁.buf (omega (arith, v₁.length-le))) refl))
    where
      regroup : size_line b'$' n ≡ size_text b'$' n ++ (crlf ++ [])
      regroup = refl

      split : window b ≡ size_line b'$' n ++ []
      split = e ∙ sym (append-nil (size_line b'$' n))

      b₁ : BufioR Src
      b₁ = advanced b (length (size_line b'$' n))

      v₁ : IsValid b₁
      v₁ = advanced_append-IsValid b (size_line b'$' n) [] v split

      none_left : window b₁ ≡ []
      none_left = window-advanced_append b (size_line b'$' n) [] v split
