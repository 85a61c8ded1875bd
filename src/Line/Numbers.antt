-- ===== src/Line/Numbers.antt =====
-- resp/bufio.go: `ParseSize` and `ParseInt` on digits.
use redeo.Base.{
  ℕ, ◌+◌, ◌-◌, ◌*◌, ◌%◌, ◌<◌, ◌≡◌, refl, ap, ◌∙◌, ◌≢◌, true, false, Bool, [], ◌∷◌, ◌++◌, Bytes,
  arith, All, leb, if◌then◌else◌, append_assoc,
}
use native.Mathlib.Nat.{mod-eq_of_lt}
use redeo.Base.Int.{ℤ, pos, negsuc, two63, two64, signed, neg64, IsInt64}
use redeo.Decimal.{format_nat, format_int}
use redeo.Decimal.Scan.{IsDigit, decimal, decimal-format_nat, format_nat-IsDigit, format_nat-ne-nil}
use redeo.Errors.{Error, crlf}
use redeo.Line.Trim.{IsBlank, EndsInWord, ends, trim-blanks}
use redeo.Line.{
  value, error, ascii_space, trim, parse_digits, parse_int_of, parse_int, parse_size_digits,
  parse_size_of, parse_size,
}

last-IsDigit :
    (d : ℕ) (ds : Bytes)
    → All IsDigit (d ∷ ds)
    → (ys : Bytes) × (x : ℕ) × (d ∷ ds ≡ ys ++ x ∷ []) × IsDigit x
last-IsDigit d [] (p, _) = ([], d, refl, p)
last-IsDigit d (e ∷ ds) (_, all) =
    let (ys, x, same, p) = last-IsDigit e ds all in (d ∷ ys, x, ap (◌∷◌ d) same, p)

digit-ascii_space : (c : ℕ) → IsDigit c → ascii_space c ≡ false
unfolding ascii_space
digit-ascii_space c p = ground arith

-- Digits are no blanks.
digits-EndsInWord : (ps ds : Bytes) → ds ≢ [] → All IsDigit ds → EndsInWord (ps ++ ds)
digits-EndsInWord ps [] ne all = absurd (ne refl)
digits-EndsInWord ps (d ∷ ds) ne all =
    let (ys, x, same, p) = last-IsDigit d ds all in
    rw (same, ← append_assoc) (ends (ps ++ ys) x (digit-ascii_space x p))

crlf-IsBlank : All IsBlank crlf
unfolding ascii_space
crlf-IsBlank = (refl, (refl, tt))

trim-digits : (ps ds : Bytes) → ds ≢ [] → All IsDigit ds → trim ((ps ++ ds) ++ crlf) ≡ ps ++ ds
trim-digits ps ds ne all = trim-blanks (ps ++ ds) crlf (digits-EndsInWord ps ds ne all) crlf-IsBlank

-- The digits are read as their number modulo 2 ^ 64; a pattern with the sign bit is refused.
parse_size_digits_lem :
    (ds : Bytes) (n : ℕ) (e : Error)
    → All IsDigit ds
    → parse_size_digits ds (n % two64) e
      ≡ (if leb two63 (decimal n ds % two64) then error e else value (decimal n ds % two64))
unfolding parse_size_digits
parse_size_digits_lem [] n e all = refl
parse_size_digits_lem (c ∷ cs) n e (d, all) =
    ground (arith, parse_size_digits_lem cs (n * 10 + (c - b'0')) e all)

-- `ParseSize` on the prefix, at least one digit, only digits and CRLF takes their number modulo
-- 2^64, and returns the fallback error if that is 2^63 or more.
pub parse_size_lem :
    (p : ℕ) (ds : Bytes) (e : Error)
    → ds ≢ []
    → All IsDigit ds
    → parse_size (p ∷ ds ++ crlf) p e
      ≡ (if leb two63 (decimal 0 ds % two64) then error e else value (decimal 0 ds % two64))
unfolding parse_size parse_size_of
parse_size_lem p [] e ne all = absurd (ne refl)
parse_size_lem p (d ∷ ds) e ne all =
    rw (trim-digits (p ∷ []) (d ∷ ds) ne all)
      (ground (arith, parse_size_digits_lem (d ∷ ds) 0 e all))

-- Every size that the writer prints is read back.
pub parse_size-format_nat :
    (p n : ℕ) (e : Error) → n < two63 → parse_size (p ∷ format_nat n ++ crlf) p e ≡ value n
parse_size-format_nat p n e h =
    parse_size_lem p (format_nat n) e (format_nat-ne-nil n) (format_nat-IsDigit n)
    ∙ ground (arith, decimal-format_nat n (omega arith))

parse_digits_lem :
    (ds : Bytes) (first : Bool) (n : ℕ) (minus : Bool)
    → All IsDigit ds
    → parse_digits ds first (n % two64) minus
      ≡ value
          (if minus then neg64 (signed (decimal n ds % two64)) else signed (decimal n ds % two64))
unfolding parse_digits
parse_digits_lem [] first n minus all = refl
parse_digits_lem (c ∷ cs) first n minus (d, all) =
    ground (arith, parse_digits_lem cs false (n * 10 + (c - b'0')) minus all)

parse_digits-format_nat :
    (n : ℕ) (first minus : Bool)
    → n < two64
    → parse_digits (format_nat n) first 0 minus
      ≡ value (if minus then neg64 (signed n) else signed n)
parse_digits-format_nat n first minus h =
    parse_digits_lem (format_nat n) first 0 minus (format_nat-IsDigit n)
    ∙ rw (decimal-format_nat n h, mod-eq_of_lt h)

parse_int_of-cons : (ds : Bytes) → ds ≢ [] → parse_int_of (b':' ∷ ds) ≡ parse_digits ds true 0 false
unfolding parse_int_of
parse_int_of-cons [] ne = absurd (ne refl)
parse_int_of-cons (d ∷ ds) ne = refl

parse_digits_minus :
    (ds : Bytes) → parse_digits (b'-' ∷ ds) true 0 false ≡ parse_digits ds false 0 true
unfolding parse_digits
parse_digits_minus ds = refl

-- Every int64 that the writer prints is read back.
pub parse_int-format_int : (z : ℤ) → IsInt64 z → parse_int (b':' ∷ format_int z ++ crlf) ≡ value z
unfolding parse_int format_int
parse_int-format_int (pos n) h =
    rw
      (
        trim-digits (b':' ∷ []) (format_nat n) (format_nat-ne-nil n) (format_nat-IsDigit n),
        parse_int_of-cons (format_nat n) (format_nat-ne-nil n),
        parse_digits-format_nat n true false (omega arith),
      )
      (ground arith)
parse_int-format_int (negsuc n) h =
    rw
      (
        trim-digits (b':' ∷ b'-' ∷ []) (format_nat (n + 1)) (format_nat-ne-nil (n + 1))
            (format_nat-IsDigit (n + 1)),
        parse_int_of-cons (b'-' ∷ format_nat (n + 1)) cc,
        parse_digits_minus (format_nat (n + 1)),
        parse_digits-format_nat (n + 1) false true (omega arith),
      )
      (unfold neg64 in ground arith)
