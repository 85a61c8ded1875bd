-- ===== src/Replies/Equal.antt =====
-- `bytes.Equal`, and `==` on strings.
use redeo.Base.{◌≡◌, ◌≢◌, refl, ap, sym, ◌∙◌, true, false, [], ◌∷◌, Bytes, arith}
use redeo.Replies.{equal}

pub equal_self : (xs : Bytes) → equal xs xs ≡ true
unfolding equal
equal_self [] = refl
equal_self (x ∷ xs) = ground (arith, equal_self xs)

pub eq_of_equal : (xs ys : Bytes) → equal xs ys ≡ true → xs ≡ ys
unfolding equal
eq_of_equal [] [] h = refl
eq_of_equal [] (y ∷ ys) h = cc
eq_of_equal (x ∷ xs) [] h = cc
eq_of_equal (x ∷ xs) (y ∷ ys) h = ground (arith, eq_of_equal xs ys)

pub equal-eq_true : (xs ys : Bytes) → xs ≡ ys → equal xs ys ≡ true
equal-eq_true xs ys e = ap (equal xs) (sym e) ∙ equal_self xs

pub ne_of_equal : (xs ys : Bytes) → equal xs ys ≡ false → xs ≢ ys
ne_of_equal xs ys h e = cc (equal-eq_true xs ys e)
