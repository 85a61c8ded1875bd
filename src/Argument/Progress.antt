-- ===== src/Argument/Progress.antt =====
-- resp/util.go: how many bytes `appendArgument` takes.
use redeo.Base.{
  ℕ, zero, suc, ◌+◌, ◌≤◌, ◌<◌, ◌≡◌, ◌≢◌, refl, false, [], ◌∷◌, ◌++◌, Bytes, arith, length,
  Bool-cases, inl, inr,
}
use redeo.Argument.{
  Mode, plain, in_quotes, in_single_quotes, main_loop, append_from, append_argument, quoted_byte,
}
use redeo.Line.{ascii_space}

-- The position moves forward, up to the end of the text.
main_loop_bounds :
    (src : Bytes) (taken : ℕ) (mode : Mode) (dst : Bytes) (pos : ℕ)
    → (pos ≤ (main_loop src taken mode dst pos).1)
      × ((main_loop src taken mode dst pos).1 ≤ pos + length src)
unfolding main_loop
main_loop_bounds [] taken mode dst pos = omega arith
main_loop_bounds (p ∷ rest) (suc taken) mode dst pos =
    ground (arith, main_loop_bounds rest taken mode dst (pos + 1))
main_loop_bounds (p ∷ rest) zero in_quotes dst pos = ground (
  arith,
  main_loop_bounds rest (quoted_byte p rest).1 in_quotes (dst ++ (quoted_byte p rest).0 ∷ [])
      (pos + 1),
)
main_loop_bounds (p ∷ rest) zero in_single_quotes dst pos =
    ground (arith, main_loop_bounds rest zero in_single_quotes (dst ++ p ∷ []) (pos + 1))
main_loop_bounds (p ∷ rest) zero plain dst pos = ground (
  arith,
  main_loop_bounds rest zero in_quotes dst (pos + 1),
  main_loop_bounds rest zero in_single_quotes dst (pos + 1),
  main_loop_bounds rest zero plain (dst ++ p ∷ []) (pos + 1),
)

-- In the first byte that is no blank an empty argument makes progress.
main_loop_progress :
    (p : ℕ) (rest : Bytes) (pos : ℕ)
    → ascii_space p ≡ false
    → pos < (main_loop (p ∷ rest) zero plain [] pos).1
unfolding main_loop ascii_space
main_loop_progress p rest pos h = ground (
  arith,
  main_loop_bounds rest zero in_quotes [] (pos + 1),
  main_loop_bounds rest zero in_single_quotes [] (pos + 1),
  main_loop_bounds rest zero plain (p ∷ []) (pos + 1),
)

append_from_bounds :
    (dst src : Bytes) (pos : ℕ)
    → (pos ≤ (append_from dst src pos).1) × ((append_from dst src pos).1 ≤ pos + length src)
unfolding append_from
append_from_bounds dst [] pos = omega arith
append_from_bounds dst (c ∷ cs) pos =
    ground
      (arith, append_from_bounds dst cs (pos + 1), main_loop_bounds (c ∷ cs) zero plain dst pos)

-- `appendArgument` takes no more bytes than the text has, for any destination.
pub append_argument_bound : (dst src : Bytes) → (append_argument dst src).1 ≤ length src
unfolding append_argument
append_argument_bound dst src = omega (arith, append_from_bounds dst src 0)

-- `appendArgument` with an empty destination takes at least one byte of a text that is not empty.
pub append_argument_progress : (src : Bytes) → src ≢ [] → 0 < (append_argument [] src).1
unfolding append_argument append_from
append_argument_progress [] ne = absurd (ne refl)
append_argument_progress (c ∷ cs) ne = elim (Bool-cases (ascii_space c)) [
  | inl b ↦ rw b (omega (arith, append_from_bounds [] cs 1))
  | inr n ↦ rw n (main_loop_progress c cs 0 n)
]
