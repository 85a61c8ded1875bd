-- ===== src/Argument/Quoting.antt =====
-- resp/util.go: `appendArgument` on a text in double quotes, each byte written as `\xHH`.
use redeo.Base.{
  ℕ, zero, ◌+◌, ◌-◌, ◌*◌, ◌/◌, ◌%◌, ◌<◌, ◌≡◌, refl, ap, ◌∙◌, true, [], ◌∷◌, ◌++◌, Bytes, arith,
  length, All, ltb, if◌then◌else◌, append_assoc, append-nil,
}
use redeo.Argument.{
  in_quotes, main_loop, append_from, append_argument, is_hex_char, from_hex_char, escaped,
}

abbrev hex_digit : ℕ → ℕ
hex_digit n = if ltb n 10 then b'0' + n else b'a' + (n - 10)

-- the text `\xHH` of a byte, and of each byte of a string
abbrev pub hex_escape : ℕ → Bytes
hex_escape c = b'\\' ∷ b'x' ∷ hex_digit (c / 16) ∷ hex_digit (c % 16) ∷ []

abbrev pub hex_escapes : Bytes → Bytes
hex_escapes [] = []
hex_escapes (c ∷ cs) = hex_escape c ++ hex_escapes cs

abbrev pub IsByte : ℕ → Type 0
IsByte c = c < 256

hex_digit_lem :
    (n : ℕ) → n < 16 → (is_hex_char (hex_digit n) ≡ true) × (from_hex_char (hex_digit n) ≡ n)
unfolding is_hex_char from_hex_char
hex_digit_lem n h = ground arith

escaped-hex :
    (c : ℕ) (rest : Bytes)
    → IsByte c
    → escaped (b'x' ∷ hex_digit (c / 16) ∷ hex_digit (c % 16) ∷ rest) ≡ (c, 3)
unfolding escaped
escaped-hex c rest h =
    let hi = hex_digit_lem (c / 16) (omega arith) in
    let lo = hex_digit_lem (c % 16) (omega arith) in
    rw (hi.0, lo.0, hi.1, lo.1) (ap (λ n. (n, 3)) (omega arith))

-- `\xHH` appends its byte.
main_loop-hex_escape :
    (c : ℕ) (rest dst : Bytes) (pos : ℕ)
    → IsByte c
    → main_loop (hex_escape c ++ rest) zero in_quotes dst pos
      ≡ main_loop rest zero in_quotes (dst ++ c ∷ []) (pos + 1 + 1 + 1 + 1)
unfolding main_loop
main_loop-hex_escape c rest dst pos h = rw (escaped-hex c rest h)

main_loop-hex_escapes :
    (p more dst : Bytes) (pos : ℕ)
    → All IsByte p
    → main_loop (hex_escapes p ++ b'"' ∷ more) zero in_quotes dst pos
      ≡ (dst ++ p, pos + 4 * length p + 1)
main_loop-hex_escapes [] more dst pos h = unfold main_loop in ground (arith, append-nil dst)
main_loop-hex_escapes (c ∷ cs) more dst pos (hc, h) = rw append_assoc (
    main_loop-hex_escape c (hex_escapes cs ++ b'"' ∷ more) dst pos hc
    ∙ main_loop-hex_escapes cs more (dst ++ c ∷ []) (pos + 1 + 1 + 1 + 1) h
    ∙ rw append_assoc (ap (λ n. (dst ++ c ∷ cs, n)) (omega arith)))

-- `appendArgument` with an empty destination on a quoted text in which each byte of `p` is written
-- as `\xHH`, with anything behind the closing quote, returns `p` and the length of the quoted text.
pub append_argument-hex_escapes :
    (p more : Bytes)
    → All IsByte p
    → append_argument [] (b'"' ∷ (hex_escapes p ++ b'"' ∷ more)) ≡ (p, 4 * length p + 2)
unfolding append_argument append_from
append_argument-hex_escapes p more h =
    main_loop-open p more ∙ main_loop-hex_escapes p more [] 1 h ∙ ap (λ n. (p, n)) (omega arith)
  where
    main_loop-open :
        (p more : Bytes)
        → append_argument [] (b'"' ∷ (hex_escapes p ++ b'"' ∷ more))
          ≡ main_loop (hex_escapes p ++ b'"' ∷ more) zero in_quotes [] 1
    main_loop-open p more = unfold main_loop in refl
