-- ===== src/Base/Int.antt =====
-- Signed integers, and the 64-bit arithmetic of Go's `int` and `int64`. An integer of the model is
-- unbounded; each operation of the source wraps, by way of the two's complement bit pattern.
use redeo.Base.{ℕ, ◌+◌, ◌-◌, ◌%◌, ◌^◌, ◌≤◌, ◌<◌, ◌≡◌, Bool, arith, ltb, if◌then◌else◌}

-- `negsuc n` is -(n + 1).
pub data ℤ : Type 0 where
  pos : ℕ → ℤ
  negsuc : ℕ → ℤ

abbrev pub two63 : ℕ
two63 = 2 ^ 63

abbrev pub two64 : ℕ
two64 = 2 ^ 64

-- The bit pattern of an integer, and the integer that a pattern stands for.
abbrev pub word : ℤ → ℕ
word (pos n) = n % two64
word (negsuc n) = two64 - 1 - n % two64

abbrev pub signed : ℕ → ℤ
signed w = if ltb w two63 then pos w else negsuc (two64 - w - 1)

-- The values of an int64.
abbrev pub IsInt64 : ℤ → Type 0
IsInt64 (pos n) = n < two63
IsInt64 (negsuc n) = n < two63

unfoldable pub add64 : ℤ → ℤ → ℤ
add64 a b = signed ((word a + word b) % two64)

unfoldable pub sub64 : ℤ → ℤ → ℤ
sub64 a b = signed ((word a + two64 - word b) % two64)

unfoldable pub neg64 : ℤ → ℤ
neg64 a = signed ((two64 - word a) % two64)

-- `a < 1` and `a > n`
abbrev pub lt_one : ℤ → Bool
lt_one (pos n) = ltb n 1
lt_one (negsuc n) = Bool.true

pub signed-word : (a : ℤ) → IsInt64 a → signed (word a) ≡ a
signed-word (pos n) h = ground arith
signed-word (negsuc n) h = ground arith

pub word-signed : (w : ℕ) → w < two64 → word (signed w) ≡ w
word-signed w h = ground arith

pub signed-IsInt64 : (w : ℕ) → w < two64 → IsInt64 (signed w)
signed-IsInt64 w h = ground arith

pub add64_pos : (a b : ℕ) → a + b < two63 → add64 (pos a) (pos b) ≡ pos (a + b)
unfolding add64
add64_pos a b h = ground arith

pub sub64_pos : (a b : ℕ) → b ≤ a → a < two63 → sub64 (pos a) (pos b) ≡ pos (a - b)
unfolding sub64
sub64_pos a b h k = ground arith

pub sub64_neg : (a b : ℕ) → a < b → b < two63 → sub64 (pos a) (pos b) ≡ negsuc (b - a - 1)
unfolding sub64
sub64_neg a b h k = ground arith

-- `a - b` where it does not leave the range
abbrev pub sub_ℕ : ℕ → ℕ → ℤ
sub_ℕ a b = if ltb a b then negsuc (b - a - 1) else pos (a - b)
