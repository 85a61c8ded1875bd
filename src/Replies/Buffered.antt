-- ===== src/Replies/Buffered.antt =====
-- resp/bufio.go: `PeekType` and the replies of one line, where these are buffered whole.
use redeo.Base.{
  ◌≢◌, All, false, ℕ, ◌+◌, ◌≡◌, refl, ap, ◌∙◌, [], ◌∷◌, ◌++◌, Bytes, arith, length, append_assoc,
  ◌==◌, if◌then◌else◌, get_elem?, some,
}
use redeo.Base.Int.{ℤ, pos, negsuc, IsInt64}
use redeo.Decimal.Scan.{format_nat-IsDigit, format_nat-ne-nil, IsDigit}
use redeo.Decimal.{format_nat, format_int}
use redeo.Errors.{crlf, bin_nil}
use redeo.Io.{Runtime, IoReader}
use redeo.Line.Numbers.{parse_int-format_int}
use redeo.Line.Messages.{parse_message-line}
use redeo.Line.Trim.{EndsInWord}
use redeo.Line.{ascii_space}
use redeo.Monad.{ok, and_then-ok}
use redeo.Reader.Require.{require_buffered}
use redeo.Reader.Window.{IsValid, window, advanced, get_elem?-window, window-advanced_append}
use redeo.Reader.{BufioR, type_nil, type_bulk}
use redeo.Replies.Lines.{Lacks, read_line_buffered}
use redeo.Replies.{
  read_int, read_error, read_inline_string, read_nil, equal, peek_type, type_of, byte_at,
}
use redeo.Wire.{digits-Lacks, bulk}

pub int-Lacks : (z : ℤ) → Lacks b'\r' (b':' ∷ format_int z)
unfolding format_int
int-Lacks (pos n) = (omega arith, digits-Lacks (format_nat n) (format_nat-IsDigit n))
int-Lacks (negsuc n) =
    (omega arith, (omega arith, digits-Lacks (format_nat (n + 1)) (format_nat-IsDigit (n + 1))))

-- A bulk begins with a dollar sign and a digit.
bulk_mark :
    (p more : Bytes)
    → (d : ℕ) × (ys : Bytes) × (bulk p ++ more ≡ b'$' ∷ d ∷ ys) × ((d == b'-') ≡ false)
bulk_mark p more = go (format_nat (length p)) (format_nat-ne-nil _) (format_nat-IsDigit _)
  where
    go :
        (ds : Bytes)
        → ds ≢ []
        → All IsDigit ds
        → (d : ℕ) × (ys : Bytes) × ((b'$' ∷ ds ++ (crlf ++ (p ++ crlf))) ++ more ≡ b'$' ∷ d ∷ ys)
          × ((d == b'-') ≡ false)
    go [] ne all = absurd (ne refl)
    go (d ∷ ds) ne (digit, all) = (d, (ds ++ (crlf ++ (p ++ crlf))) ++ more, refl, ground arith)

module _ (rt : Runtime) (rd : IoReader) (b : BufioR rd.Src) (v : IsValid b) where
  -- The first byte decides.
  pub peek_type_buffered :
      {c : ℕ} {ys : Bytes} → window b ≡ c ∷ ys → peek_type rt rd b ≡ type_of rt rd c b
  unfolding peek_type byte_at
  peek_type_buffered {c} e =
      and_then-ok _ (require_buffered rt rd b 1 v (omega (arith, ap length e)))
        (rw (get_elem?-window b e) refl)

  -- Behind a dollar sign the second byte decides.
  pub type_of_dollar :
      {d : ℕ} {ys : Bytes}
      → window b ≡ b'$' ∷ d ∷ ys
      → type_of rt rd b'$' b ≡ ok (if d == b'-' then type_nil else type_bulk) b
  unfolding type_of byte_at
  type_of_dollar {d} {ys} e =
      and_then-ok _ (require_buffered rt rd b 2 v (omega (arith, ap length e))) (rw second refl)
    where
      second : get_elem? b.buf (b.r + 1) ≡ some d
      second =
          ap (get_elem? b.buf) (omega arith)
          ∙ get_elem?-window (advanced b 1) (window-advanced_append b (b'$' ∷ []) (d ∷ ys) v e)

  pub peek_bulk_buffered :
      (p more : Bytes) → window b ≡ bulk p ++ more → peek_type rt rd b ≡ ok type_bulk b
  peek_bulk_buffered p more e =
      let (d, ys, marks, digit) = bulk_mark p more in
      peek_type_buffered (e ∙ marks)
      ∙ type_of_dollar (e ∙ marks)
      ∙ ap (λ x. ok (if x then type_nil else type_bulk) b) digit

module _ (rt : Runtime) (rd : IoReader) (b : BufioR rd.Src) (more : Bytes) (v : IsValid b) where
  regroup : (line : Bytes) → window b ≡ (line ++ crlf) ++ more → window b ≡ line ++ (crlf ++ more)
  regroup line e = e ∙ append_assoc line crlf more

  pub read_int_buffered :
      (z : ℤ)
      → IsInt64 z
      → window b ≡ (b':' ∷ format_int z ++ crlf) ++ more
      → read_int rt rd b ≡ ok z (advanced b (length (b':' ∷ format_int z ++ crlf)))
  unfolding read_int
  read_int_buffered z h e =
      and_then-ok _
        (read_line_buffered rt rd b (b':' ∷ format_int z) more v (regroup (b':' ∷ format_int z) e)
          (int-Lacks z))
        (rw (parse_int-format_int z h))

  pub read_inline_string_buffered :
      (msg : Bytes)
      → Lacks b'\r' msg
      → EndsInWord msg
      → window b ≡ (b'+' ∷ msg ++ crlf) ++ more
      → read_inline_string rt rd b ≡ ok msg (advanced b (length (b'+' ∷ msg ++ crlf)))
  unfolding read_inline_string
  read_inline_string_buffered msg lacks word e =
      and_then-ok _
        (read_line_buffered rt rd b (b'+' ∷ msg) more v (regroup (b'+' ∷ msg) e)
          (omega arith, lacks))
        (rw (parse_message-line b'+' msg (unfold ascii_space in refl) word))

  pub read_error_buffered :
      (msg : Bytes)
      → Lacks b'\r' msg
      → EndsInWord msg
      → window b ≡ (b'-' ∷ msg ++ crlf) ++ more
      → read_error rt rd b ≡ ok msg (advanced b (length (b'-' ∷ msg ++ crlf)))
  unfolding read_error
  read_error_buffered msg lacks word e =
      and_then-ok _
        (read_line_buffered rt rd b (b'-' ∷ msg) more v (regroup (b'-' ∷ msg) e)
          (omega arith, lacks))
        (rw (parse_message-line b'-' msg (unfold ascii_space in refl) word))

  pub read_nil_buffered :
      window b ≡ bin_nil ++ more → read_nil rt rd b ≡ ok tt (advanced b (length bin_nil))
  unfolding read_nil
  read_nil_buffered e =
      and_then-ok _
        (read_line_buffered rt rd b (b'$' ∷ b'-' ∷ b'1' ∷ []) more v e
          (omega arith, (omega arith, (omega arith, tt))))
        (unfold equal in refl)
