-- ===== src/Decimal.antt =====
-- `strconv.FormatInt(n, 10)` of Go's standard library, which every size and number of a message is
-- printed with.
pub mod Scan
use redeo.Base.{
  ℕ, zero, suc, ◌+◌, ◌-◌, ◌/◌, ◌%◌, [], ◌∷◌, Bytes, codes, ◌==◌, if◌then◌else◌, ◌≡◌, refl,
}
use redeo.Base.Int.{ℤ, pos, negsuc, two63}

-- Twenty digits hold every 64-bit number.
unfoldable pub digits : ℕ → ℕ → Bytes → Bytes
digits zero n out = out
digits (suc f) n out =
    let more = digits f (n / 10) ((b'0' + n % 10) ∷ out) in
    if n / 10 == 0 then (b'0' + n % 10) ∷ out else more

unfoldable pub format_nat : ℕ → Bytes
unfolding digits
format_nat n = digits 20 n []

unfoldable pub format_int : ℤ → Bytes
format_int (pos n) = format_nat n
format_int (negsuc n) = b'-' ∷ format_nat (n + 1)

format_int_min : format_int (negsuc (two63 - 1)) ≡ codes "-9223372036854775808"
unfolding format_int format_nat
format_int_min = refl
