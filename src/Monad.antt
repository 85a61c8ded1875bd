-- ===== src/Monad.antt =====
-- Stateful Go code that may return an error. A computation takes the state and ends in one of four
-- ways: a result, a returned `error` (with the state as it then is), a run-time panic, or, in a loop
-- on fuel, no result because the fuel ran out.
use redeo.Base.{◌≡◌, refl, ap, ◌∙◌}

pub data Outcome (E S A : Type 0) : Type 0 where
  ok : A → S → Outcome E S A
  err : E → S → Outcome E S A
  panic : Outcome E S A
  timeout : Outcome E S A

module _ {E S A B : Type 0} where
  abbrev pub and_then : Outcome E S A → (A → S → Outcome E S B) → Outcome E S B
  and_then (ok a s) f = f a s
  and_then (err e s) f = err e s
  and_then panic f = panic
  and_then timeout f = timeout

module _ {E S : Type 0} where
  abbrev pub return : {A : Type 0} → A → S → Outcome E S A
  return a s = ok a s

  abbrev pub fail : {A : Type 0} → E → S → Outcome E S A
  fail e s = err e s

  infixl 5 ◌>>=◌ ◌>>◌
  abbrev pub ◌>>=◌ :
      {A B : Type 0} → (S → Outcome E S A) → (A → S → Outcome E S B) → S → Outcome E S B
  ◌>>=◌ m f s = and_then (m s) f

  abbrev pub ◌>>◌ :
      {B : Type 0} → (S → Outcome E S (Unit {0})) → (S → Outcome E S B) → S → Outcome E S B
  ◌>>◌ m k s = and_then (m s) (λ _. k)

  pub and_then-eq-ok :
      {A B : Type 0} (o : Outcome E S A) (f : A → S → Outcome E S B) {b : B} {t : S}
      → and_then o f ≡ ok b t
      → (a : A) × (s : S) × (o ≡ ok a s) × (f a s ≡ ok b t)
  and_then-eq-ok (ok a s) f h = (a, s, refl, h)
  and_then-eq-ok (err e s) f h = cc
  and_then-eq-ok panic f h = cc
  and_then-eq-ok timeout f h = cc

module _ {E S A : Type 0} where
  -- The result and the state of a success are determined.
  pub ok_injective :
      {a b : A} {s t : S} → ◌≡◌ {A = Outcome E S A} (ok a s) (ok b t) → (a ≡ b) × (s ≡ t)
  ok_injective h = (cc, cc)

module _ {E S A B : Type 0} where
  -- A step that succeeds, then the rest.
  pub and_then-ok :
      (f : A → S → Outcome E S B) {o : Outcome E S A} {a : A} {s : S} {p : Outcome E S B}
      → o ≡ ok a s
      → f a s ≡ p
      → and_then o f ≡ p
  and_then-ok f e h = ap (λ x. and_then x f) e ∙ h

  pub and_then-err :
      (f : A → S → Outcome E S B) {o : Outcome E S A} {e : E} {s : S}
      → o ≡ err e s
      → and_then o f ≡ err e s
  and_then-err f h = ap (λ x. and_then x f) h

module _ {E S A B C : Type 0} where
  pub and_then-and_then :
      (o : Outcome E S A) (f : A → S → Outcome E S B) (g : B → S → Outcome E S C)
      → and_then (and_then o f) g ≡ and_then o (λ a s. and_then (f a s) g)
  and_then-and_then (ok a s) f g = refl
  and_then-and_then (err e s) f g = refl
  and_then-and_then panic f g = refl
  and_then-and_then timeout f g = refl
