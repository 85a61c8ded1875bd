-- ===== src/Line/Trim.antt =====
-- resp/bufio.go: `Trim`.
use redeo.Base.{
  ℕ, zero, suc, ◌-◌, ◌≤◌, ◌<◌, ◌≡◌, refl, ap, ◌∙◌, ◌⊎◌, inl, inr, true, false, [], ◌∷◌, ◌++◌, Bytes,
  arith, All, length, get_or, length-append, get_or-append_right, All-get_or, get_or-middle,
  Bool-cases, append_assoc,
}
use redeo.Base.Slices.{take-append}
use native.Mathlib.Decide.{dec_le}
use redeo.Line.{ascii_space, trim_from, trim}

abbrev pub IsBlank : ℕ → Type 0
IsBlank c = ascii_space c ≡ true

-- Nothing, or a list that ends in no blank.
pub data EndsInWord : Bytes → Type 0 where
  empty : EndsInWord []
  ends : (xs : Bytes) (c : ℕ) → ascii_space c ≡ false → EndsInWord (xs ++ c ∷ [])

-- The loop stops at `k` if `k` is the length of a prefix that ends in no blank and only blanks follow.
trim_from_unique :
    (ln : Bytes) (n k : ℕ)
    → k ≤ n
    → (k ≡ 0) ⊎ ((j : ℕ) × (k ≡ suc j) × (ascii_space (get_or ln j 0) ≡ false))
    → ((i : ℕ) → k ≤ i → i < n → IsBlank (get_or ln i 0))
    → trim_from ln n ≡ k
unfolding trim_from
trim_from_unique ln zero k h e blank = omega arith
trim_from_unique ln (suc n) k h e blank = elim (Bool-cases (ascii_space (get_or ln n 0))) [
  | inl b ↦ rw b (trim_from_unique ln n k (ground arith) e (λ i hi lt. blank i hi (omega arith)))
  | inr nb ↦ rw nb (full n k h (blank n) nb)
]
  where
    full :
        (n k : ℕ)
        → k ≤ suc n
        → (k ≤ n → n < suc n → IsBlank (get_or ln n 0))
        → ascii_space (get_or ln n 0) ≡ false
        → suc n ≡ k
    full n k h blank_n nb = elim (dec_le k n) [
      | yes le ↦ absurd (cc (blank_n le (omega arith)))
      | no gt ↦ omega arith
    ]

pub trim-blanks : (xs t : Bytes) → EndsInWord xs → All IsBlank t → trim (xs ++ t) ≡ xs
unfolding trim
trim-blanks xs t w b =
    rw
      (trim_from_unique (xs ++ t) (length (xs ++ t)) (length xs) (omega (arith, length-append xs t))
        (last xs w)
        (λ i lo hi.
          rw (get_or-append_right xs t i 0 lo)
            (All-get_or IsBlank t (i - length xs) 0 b (omega (arith, length-append xs t)))))
      (take-append xs t)
  where
    last :
        (ys : Bytes)
        → EndsInWord ys
        → (length ys ≡ 0)
          ⊎ ((j : ℕ) × (length ys ≡ suc j) × (ascii_space (get_or (ys ++ t) j 0) ≡ false))
    last _ empty = inl refl
    last _ (ends ys c nb) =
        inr (
          length ys,
          omega (arith, length-append ys (c ∷ [])),
          rw append_assoc (rw get_or-middle nb),
        )

split_blanks :
    (ln : Bytes) → (xs : Bytes) × (t : Bytes) × (ln ≡ xs ++ t) × All IsBlank t × EndsInWord xs
split_blanks [] = ([], [], refl, tt, empty)
split_blanks (c ∷ cs) = extend (split_blanks cs)
  where
    extend :
        (xs : Bytes) × (t : Bytes) × (cs ≡ xs ++ t) × All IsBlank t × EndsInWord xs
        → (xs : Bytes) × (t : Bytes) × (c ∷ cs ≡ xs ++ t) × All IsBlank t × EndsInWord xs
    extend (_, t, e, b, empty) = elim (Bool-cases (ascii_space c)) [
      | inl s ↦ ([], c ∷ t, ap (◌∷◌ c) e, (s, b), empty)
      | inr n ↦ (c ∷ [], t, ap (◌∷◌ c) e, b, ends [] c n)
    ]
    extend (_, t, e, b, ends ys d n) = (c ∷ (ys ++ d ∷ []), t, ap (◌∷◌ c) e, b, ends (c ∷ ys) d n)

-- Every line is its trimmed text with only blanks behind it, and the trimmed text does not end in a
-- blank.
pub trim_splits :
    (ln : Bytes) → (t : Bytes) × (ln ≡ trim ln ++ t) × All IsBlank t × EndsInWord (trim ln)
trim_splits ln =
    let (xs, t, e, b, w) = split_blanks ln in
    let same : trim ln ≡ xs = ap trim e ∙ trim-blanks xs t w b in (t, rw same e, b, rw same w)
