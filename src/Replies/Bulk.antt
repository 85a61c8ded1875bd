-- ===== src/Replies/Bulk.antt =====
-- resp/bufio.go: the operations on sizes and bulks, where these are buffered whole.
use redeo.Base.{
  ℕ, ◌+◌, ◌≤◌, ◌<◌, ◌≡◌, refl, ap, sym, ◌∙◌, some, ◌++◌, Bytes, arith, length, take, length-append,
  append_assoc,
}
use mathlib.Core.Path.{ap₂}
use redeo.Base.Int.{pos, two63, add64_pos}
use redeo.Base.Slices.{take-append}
use redeo.Errors.{crlf, invalid_bulk_length, invalid_multi_bulk_length}
use redeo.Io.{Runtime, IoReader}
use redeo.Line.Numbers.{parse_size-format_nat}
use redeo.Monad.{ok, and_then, and_then-ok, and_then-and_then}
use redeo.Reader.Require.{require_buffered, sub64-lt_one}
use redeo.Reader.Window.{
  buf_limit, IsValid, window, buffered-window, advanced, length-window, slice-window,
  advanced_append-IsValid, window-advanced_append,
}
use redeo.Reader.{BufioR, slice, require}
use redeo.Replies.Lines.{read_line_buffered}
use redeo.Replies.{
  read_bulk_len, read_array_len, read_body, read_bulk, read_bulk_string, skip_n, skip_bulk,
}
use redeo.Wire.{size_text, size_line, bulk, bulk-append, length-bulk, size_text-Lacks}

module _ (rt : Runtime) (rd : IoReader) where
  open rd use {Src}

  pub read_bulk_len_buffered :
      (b : BufioR Src) (n : ℕ) (more : Bytes)
      → IsValid b
      → window b ≡ size_text b'$' n ++ (crlf ++ more)
      → n < two63
      → read_bulk_len rt rd b ≡ ok n (advanced b (length (size_line b'$' n)))
  unfolding read_bulk_len
  read_bulk_len_buffered b n more v e h =
      and_then-ok _
        (read_line_buffered rt rd b (size_text b'$' n) more v e
          (size_text-Lacks b'$' n (omega arith)))
        (rw (parse_size-format_nat b'$' n invalid_bulk_length h))

  pub read_array_len_buffered :
      (b : BufioR Src) (n : ℕ) (more : Bytes)
      → IsValid b
      → window b ≡ size_text b'*' n ++ (crlf ++ more)
      → n < two63
      → read_array_len rt rd b ≡ ok n (advanced b (length (size_line b'*' n)))
  unfolding read_array_len
  read_array_len_buffered b n more v e h =
      and_then-ok _
        (read_line_buffered rt rd b (size_text b'*' n) more v e
          (size_text-Lacks b'*' n (omega arith)))
        (rw (parse_size-format_nat b'*' n invalid_multi_bulk_length h))

  -- Once `require` has buffered the body and its CRLF, the body is what is read.
  pub read_body_of :
      (b b' : BufioR Src) (body more : Bytes)
      → require rt rd (pos (length body + 2)) b ≡ ok tt b'
      → IsValid b'
      → window b' ≡ body ++ (crlf ++ more)
      → length body < buf_limit
      → read_body rt rd (length body) b ≡ ok body (advanced b' (length body + 2))
  unfolding read_body
  read_body_of b b' body more runs v e small =
      and_then-ok _ (ap (λ n. require rt rd n b) (add64_pos (length body) 2 (omega arith)) ∙ runs)
        (rw sliced)
    where
      sliced : slice b'.r (b'.r + length body) b'.buf ≡ some body
      sliced =
          ap₂ (λ lo hi. slice lo hi b'.buf) (omega arith) (omega arith)
          ∙ slice-window b' 0 (length body) v
              (omega (arith, ap length e, length-append body (crlf ++ more)))
          ∙ ap some (ap (take (length body)) e ∙ take-append body (crlf ++ more))

  -- A bulk that is buffered whole is returned; nothing is read from the connection.
  pub read_bulk_string_buffered :
      (b : BufioR Src) (body more : Bytes)
      → IsValid b
      → window b ≡ bulk body ++ more
      → read_bulk_string rt rd b ≡ ok body (advanced b (length (bulk body)))
  unfolding read_bulk_string
  read_bulk_string_buffered b body more v e =
      and_then-ok _
        (read_bulk_len_buffered b (length body) (body ++ (crlf ++ more)) v split
          (omega (arith, small)))
        (read_body_of b₁ b₁ body more
            (require_buffered rt rd b₁ (length body + 2) v₁
              (omega (arith, ap length e₁, length-append body (crlf ++ more))))
            v₁ e₁ small
          ∙ ap (λ n. ok body (record b { r = n })) (omega (arith, length-bulk body)))
    where
      line : Bytes
      line = size_line b'$' (length body)

      split : window b ≡ size_text b'$' (length body) ++ (crlf ++ (body ++ (crlf ++ more)))
      split = e ∙ bulk-append body more

      split' : window b ≡ line ++ (body ++ (crlf ++ more))
      split' = split ∙ sym (append_assoc (size_text b'$' (length body)) crlf _)

      b₁ : BufioR Src
      b₁ = advanced b (length line)

      v₁ : IsValid b₁
      v₁ = advanced_append-IsValid b line (body ++ (crlf ++ more)) v split'

      e₁ : window b₁ ≡ body ++ (crlf ++ more)
      e₁ = window-advanced_append b line (body ++ (crlf ++ more)) v split'

      small : length body < buf_limit
      small = omega (
        arith,
        ap length e₁,
        length-append body (crlf ++ more),
        length-window b₁ v₁,
        v₁.length-le,
        v₁.w-le-length,
      )

  -- `ReadBulk(p)` is `ReadBulkString`, its result appended to `p`.
  pub read_bulk-read_bulk_string :
      (p : Bytes) (b : BufioR Src)
      → read_bulk rt rd p b ≡ and_then (read_bulk_string rt rd b) (λ body s. ok (p ++ body) s)
  unfolding read_bulk read_bulk_string
  read_bulk-read_bulk_string p b = sym (and_then-and_then (read_bulk_len rt rd b) _ _)

  pub read_bulk_buffered :
      (b : BufioR Src) (p body more : Bytes)
      → IsValid b
      → window b ≡ bulk body ++ more
      → read_bulk rt rd p b ≡ ok (p ++ body) (advanced b (length (bulk body)))
  read_bulk_buffered b p body more v e =
      read_bulk-read_bulk_string p b
      ∙ and_then-ok _ (read_bulk_string_buffered b body more v e) refl

  -- `SkipBulk` on a valid reader that holds a whole bulk, with anything behind it, succeeds and
  -- stops exactly behind the bulk.
  pub skip_bulk_buffered :
      (b : BufioR Src) (body more : Bytes)
      → IsValid b
      → window b ≡ bulk body ++ more
      → skip_bulk rt rd b ≡ ok tt (advanced b (length (bulk body)))
  unfolding skip_bulk
  skip_bulk_buffered b body more v e =
      and_then-ok _
        (read_bulk_len_buffered b (length body) (body ++ (crlf ++ more)) v split
          (omega (arith, enough, small)))
        (ap (λ n. skip_n rt rd n b₁) (add64_pos (length body) 2 (omega (arith, enough, small)))
          ∙ skipped)
    where
      line : Bytes
      line = size_line b'$' (length body)

      split : window b ≡ size_text b'$' (length body) ++ (crlf ++ (body ++ (crlf ++ more)))
      split = e ∙ bulk-append body more

      split' : window b ≡ line ++ (body ++ (crlf ++ more))
      split' = split ∙ sym (append_assoc (size_text b'$' (length body)) crlf _)

      b₁ : BufioR Src
      b₁ = advanced b (length line)

      v₁ : IsValid b₁
      v₁ = advanced_append-IsValid b line (body ++ (crlf ++ more)) v split'

      enough : length body + 2 ≤ length (window b₁)
      enough = omega (
        arith,
        ap length (window-advanced_append b line (body ++ (crlf ++ more)) v split'),
        length-append body (crlf ++ more),
      )

      small : length (window b₁) ≤ buf_limit
      small = omega (arith, length-window b₁ v₁, v₁.length-le, v₁.w-le-length)

      skipped : skip_n rt rd (pos (length body + 2)) b₁ ≡ ok tt (advanced b (length (bulk body)))
      skipped =
          unfold skip_n in
          rw
            (
              buffered-window b₁ v₁,
              sub64-lt_one (length body + 2) (length (window b₁)) enough (omega (arith, small)),
            )
            (ap (λ n. ok tt (record b { r = n })) (omega (arith, length-bulk body)))
