-- ===== src/Decimal/Scan.antt =====
-- The decimal form of a number, and the number that digits spell.
use redeo.Base.{
  ℕ, zero, suc, ◌+◌, ◌-◌, ◌*◌, ◌/◌, ◌%◌, ◌<◌, ◌≤◌, ◌≡◌, ◌≢◌, [], ◌∷◌, Bytes, arith, All,
}
use redeo.Base.Int.{two64}
use redeo.Decimal.{digits, format_nat}

abbrev pub IsDigit : ℕ → Type 0
IsDigit c = (b'0' ≤ c) × (c ≤ b'9')

-- the number that digits spell behind `n`, with no bound
abbrev pub decimal : ℕ → Bytes → ℕ
decimal n [] = n
decimal n (c ∷ cs) = decimal (n * 10 + (c - b'0')) cs

abbrev pow10 : ℕ → ℕ
pow10 zero = 1
pow10 (suc f) = 10 * pow10 f

decimal-digits :
    (f n : ℕ) (out : Bytes) → n < pow10 (suc f) → decimal 0 (digits (suc f) n out) ≡ decimal n out
unfolding digits
decimal-digits zero n out h = ground arith
decimal-digits (suc f) n out h = ground (arith, decimal-digits f (n / 10) ((b'0' + n % 10) ∷ out))

digits-IsDigit : (f n : ℕ) (out : Bytes) → All IsDigit out → All IsDigit (digits f n out)
unfolding digits
digits-IsDigit zero n out h = h
digits-IsDigit (suc f) n out h =
    ground
      (arith, digits-IsDigit f (n / 10) ((b'0' + n % 10) ∷ out) ((omega arith, omega arith), h))

-- The print is a first digit and more.
digits-ne-nil : (f n : ℕ) (out : Bytes) → out ≢ [] → digits f n out ≢ []
unfolding digits
digits-ne-nil zero n out h = h
digits-ne-nil (suc f) n out h = ground (arith, digits-ne-nil f (n / 10) ((b'0' + n % 10) ∷ out) cc)

pub decimal-format_nat : (n : ℕ) → n < two64 → decimal 0 (format_nat n) ≡ n
unfolding format_nat
decimal-format_nat n h = decimal-digits 19 n [] (omega arith)

pub format_nat-IsDigit : (n : ℕ) → All IsDigit (format_nat n)
unfolding format_nat
format_nat-IsDigit n = digits-IsDigit 20 n [] tt

pub format_nat-ne-nil : (n : ℕ) → format_nat n ≢ []
unfolding format_nat digits
format_nat-ne-nil n = ground (arith, digits-ne-nil 19 (n / 10) ((b'0' + n % 10) ∷ []) cc)
