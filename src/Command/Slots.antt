-- ===== src/Command/Slots.antt =====
-- The backing array of a command's arguments.
use redeo.Base.{
  ℕ, zero, suc, ◌+◌, ◌-◌, ◌≤◌, ◌<◌, ◌≡◌, refl, ap, ◌∙◌, inl, inr, some, List, [], ◌∷◌, ◌++◌, Bytes,
  arith, ltb, length, take, drop, get_or, set, replicate, le→ltb_false, ◌*◌, All, All-append,
  length-append, length-replicate, Bool-cases,
}
use redeo.Command.{Command, reset, grow}
use redeo.Io.{Runtime}

-- No argument is left behind in the spare capacity.
abbrev pub IsClean : {Ctx : Type 0} → Command Ctx → Type 0
IsClean c = All (λ v. v ≡ []) (drop c.len c.slots)

-- From slot `i` on there is nothing.
abbrev pub EmptyFrom : ℕ → List Bytes → Type 0
EmptyFrom i slots = (j : ℕ) → i ≤ j → get_or slots j [] ≡ []

-- `xs` written from slot `i` on
abbrev pub overwrite : List Bytes → ℕ → List Bytes → List Bytes
overwrite slots i [] = slots
overwrite slots i (x ∷ xs) = overwrite (set slots i x) (suc i) xs

get_or-set_ne :
    (slots : List Bytes) (i j : ℕ) (v : Bytes)
    → i < j
    → get_or (set slots i v) j [] ≡ get_or slots j []
get_or-set_ne [] i j v h = refl
get_or-set_ne (x ∷ slots) zero zero v h = elim h [ ]
get_or-set_ne (x ∷ slots) zero (suc j) v h = refl
get_or-set_ne (x ∷ slots) (suc i) zero v h = elim h [ ]
get_or-set_ne (x ∷ slots) (suc i) (suc j) v h = get_or-set_ne slots i j v (omega arith)

pub set-EmptyFrom :
    (slots : List Bytes) (i : ℕ) (v : Bytes) → EmptyFrom i slots → EmptyFrom (suc i) (set slots i v)
set-EmptyFrom slots i v h j le = get_or-set_ne slots i j v (omega arith) ∙ h j (omega arith)

overwrite-cons :
    (y : Bytes) (slots : List Bytes) (i : ℕ) (xs : List Bytes)
    → overwrite (y ∷ slots) (suc i) xs ≡ y ∷ overwrite slots i xs
overwrite-cons y slots i [] = refl
overwrite-cons y slots i (x ∷ xs) = overwrite-cons y (set slots i x) (suc i) xs

pub take-overwrite :
    (slots xs : List Bytes)
    → length xs ≤ length slots
    → take (length xs) (overwrite slots 0 xs) ≡ xs
take-overwrite slots [] h = refl
take-overwrite [] (x ∷ xs) h = elim h [ ]
take-overwrite (y ∷ slots) (x ∷ xs) h =
    ap (take (suc (length xs))) (overwrite-cons x slots 0 xs)
    ∙ ap (◌∷◌ x) (take-overwrite slots xs (omega arith))

pub drop-overwrite :
    (slots xs : List Bytes) → drop (length xs) (overwrite slots 0 xs) ≡ drop (length xs) slots
drop-overwrite slots [] = refl
drop-overwrite [] (x ∷ xs) = ap (drop (suc (length xs))) (overwrite-nil 1 xs)
  where
    overwrite-nil : (i : ℕ) (ys : List Bytes) → overwrite [] i ys ≡ []
    overwrite-nil i [] = refl
    overwrite-nil i (y ∷ ys) = overwrite-nil (suc i) ys
drop-overwrite (y ∷ slots) (x ∷ xs) =
    ap (drop (suc (length xs))) (overwrite-cons x slots 0 xs) ∙ drop-overwrite slots xs

pub All-drop :
    (n : ℕ) (slots : List Bytes) → All (λ v. v ≡ []) slots → All (λ v. v ≡ []) (drop n slots)
All-drop zero slots h = h
All-drop (suc n) [] h = tt
All-drop (suc n) (x ∷ slots) h = All-drop n slots h.1

pub All-EmptyFrom : (slots : List Bytes) (i : ℕ) → All (λ v. v ≡ []) slots → EmptyFrom i slots
All-EmptyFrom [] i h j le = refl
All-EmptyFrom (x ∷ slots) i (e, h) zero le = e
All-EmptyFrom (x ∷ slots) i (e, h) (suc j) le = All-EmptyFrom slots 0 h j (omega arith)

replicate-empty : (n : ℕ) → All (λ v. v ≡ []) (replicate {A = Bytes} n [])
replicate-empty zero = tt
replicate-empty (suc n) = (refl, replicate-empty n)

module _ {Ctx : Type 0} where
  -- After `Reset` every slot is empty.
  pub reset-empty : (c : Command Ctx) → IsClean c → All (λ v. v ≡ []) (reset c).slots
  unfolding reset
  reset-empty c h = All-append _ (replicate c.len []) (drop c.len c.slots) (replicate-empty c.len) h

  -- What `grow` gives a command whose slots are all empty.
  pub record Grown (n : ℕ) (c c' : Command Ctx) : Type 0 where
    pub len_eq : c'.len ≡ n
    pub has_room : n ≤ length c'.slots
    pub empty : All (λ v. v ≡ []) c'.slots
    pub same_name : c'.name ≡ c.name
    pub same_ctx : c'.ctx ≡ c.ctx

  pub grow_lem :
      (rt : Runtime) (n : ℕ) (c : Command Ctx)
      → All (λ v. v ≡ []) c.slots
      → 24 * n ≤ rt.max_alloc
      → (c' : Command Ctx) × (grow rt n c ≡ some c') × Grown n c c'
  unfolding grow
  grow_lem rt n c h alloc = elim (Bool-cases (ltb (length c.slots) n)) [
    | inr fits ↦ (
      record c { len = n },
      rw fits,
      record {
        len_eq = refl;
        has_room = ground arith;
        empty = h;
        same_name = refl;
        same_ctx = refl;
      },
    )
    | inl more ↦ (
      record c { slots = c.slots ++ replicate (n - length c.slots + rt.grown n) []; len = n },
      rw (more, le→ltb_false rt.max_alloc (24 * n) alloc),
      record {
        len_eq = refl;
        has_room = omega (
          arith,
          length-append c.slots (replicate (n - length c.slots + rt.grown n) []),
          length-replicate {A = Bytes} (n - length c.slots + rt.grown n) [],
        );
        empty = All-append _ c.slots _ h (replicate-empty (n - length c.slots + rt.grown n));
        same_name = refl;
        same_ctx = refl;
      },
    )
  ]
