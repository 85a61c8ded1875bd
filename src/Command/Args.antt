-- ===== src/Command/Args.antt =====
-- resp/command.go: `Arg`.
use redeo.Base.{
  ℕ, zero, suc, ◌≤◌, ◌≡◌, ap, ◌∙◌, Bool, none, some, List, [], ◌∷◌, Bytes, arith, ltb,
  if◌then◌else◌, length, take, get_or, get_elem?, length-take,
}
use redeo.Base.Int.{pos}
use redeo.Command.{Command, args, arg, arg_of}

get_elem?-take :
    (n i : ℕ) (slots : List Bytes)
    → n ≤ length slots
    → (if ltb i n then some (get_or slots i []) else none) ≡ get_elem? (take n slots) i
get_elem?-take zero i slots h = ground arith
get_elem?-take (suc n) i [] h = elim h [ ]
get_elem?-take (suc n) zero (x ∷ slots) h = ground arith
get_elem?-take (suc n) (suc i) (x ∷ slots) h =
    ap (λ (z : Bool). if z then some (get_or slots i []) else none) same
    ∙ get_elem?-take n i slots (omega arith)
  where
    same : ltb (suc i) (suc n) ≡ ltb i n
    same = ground arith

-- If the number of arguments is the length of the argument list, then `Arg` at an index that is not
-- negative is the argument at that index, and nil behind the last one.
pub arg-get_elem? :
    {Ctx : Type 0} (c : Command Ctx) (i : ℕ)
    → c.len ≡ length (args c)
    → arg c (pos i) ≡ get_elem? (args c) i
unfolding arg arg_of
arg-get_elem? c i h = get_elem?-take c.len i c.slots (omega (arith, length-take c.len c.slots, h))
