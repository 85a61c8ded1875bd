-- ===== src/PubSub/Evict.antt =====
-- pubsub.go: `Publish` where connections may fail, and `evict`.
use redeo.Base.{
  ℕ, ◌≡◌, ◌≢◌, refl, ap, sym, inl, inr, true, false, List, [], ◌∷◌, arith, All, ◌==◌, Bool-cases,
}
use redeo.Base.Int.{ℤ, pos, negsuc, add64}
use redeo.PubSub.Publish.{eq_of_test}
use redeo.PubSub.{PubSubChannel, same_int, delete, evict, subscribe_channel}

-- The number of a subscription is another one.
abbrev pub Differs : ℤ → ℤ × ℕ → Type 0
Differs sid sub = sub.0 ≢ sid

-- Every number is that of one subscription, as in a map.
abbrev pub IsKeyed : List (ℤ × ℕ) → Type 0
IsKeyed [] = Unit
IsKeyed ((sid, i) ∷ subs) = All (Differs sid) subs × IsKeyed subs

abbrev magnitude : ℤ → ℕ
magnitude (pos n) = n
magnitude (negsuc n) = n

ne_of_test : (m n : ℕ) → (m == n) ≡ false → m ≢ n
ne_of_test m n h = ground arith

same_int_eq : (a b : ℤ) → same_int a b ≡ true → a ≡ b
same_int_eq (pos m) (pos n) h = ap pos (eq_of_test m n h)
same_int_eq (pos m) (negsuc n) h = cc
same_int_eq (negsuc m) (pos n) h = cc
same_int_eq (negsuc m) (negsuc n) h = ap negsuc (eq_of_test m n h)

same_int_ne : (a b : ℤ) → same_int a b ≡ false → a ≢ b
same_int_ne (pos m) (pos n) h = λ e. ne_of_test m n h (ap magnitude e)
same_int_ne (pos m) (negsuc n) h = cc
same_int_ne (negsuc m) (pos n) h = cc
same_int_ne (negsuc m) (negsuc n) h = λ e. ne_of_test m n h (ap magnitude e)

test_of_ne : (a b : ℤ) → a ≢ b → same_int a b ≡ false
test_of_ne a b h = elim (Bool-cases (same_int a b)) [
  | inl same ↦ absurd (h (same_int_eq a b same))
  | inr other ↦ other
]

same_int_refl : (a : ℤ) → same_int a a ≡ true
same_int_refl (pos n) = ground arith
same_int_refl (negsuc n) = ground arith

delete-Differs : (sid : ℤ) (subs : List (ℤ × ℕ)) → All (Differs sid) (delete sid subs)
unfolding delete
delete-Differs sid [] = tt
delete-Differs sid ((k, w) ∷ subs) = elim (Bool-cases (same_int k sid)) [
  | inl same ↦ rw same (delete-Differs sid subs)
  | inr other ↦ rw other (same_int_ne k sid other, delete-Differs sid subs)
]

delete_keeps :
    (P : ℤ × ℕ → Type 0) (sid : ℤ) (subs : List (ℤ × ℕ)) → All P subs → All P (delete sid subs)
unfolding delete
delete_keeps P sid [] h = tt
delete_keeps P sid ((k, w) ∷ subs) (p, h) = elim (Bool-cases (same_int k sid)) [
  | inl same ↦ rw same (delete_keeps P sid subs h)
  | inr other ↦ rw other (p, delete_keeps P sid subs h)
]

delete-IsKeyed : (sid : ℤ) (subs : List (ℤ × ℕ)) → IsKeyed subs → IsKeyed (delete sid subs)
unfolding delete
delete-IsKeyed sid [] h = tt
delete-IsKeyed sid ((k, w) ∷ subs) (ne, h) = elim (Bool-cases (same_int k sid)) [
  | inl same ↦ rw same (delete-IsKeyed sid subs h)
  | inr other ↦ rw other (delete_keeps (Differs k) sid subs ne, delete-IsKeyed sid subs h)
]

-- Also where the numbers wrap around.
pub subscribe_channel-IsKeyed :
    (w : ℕ) (c : PubSubChannel)
    → IsKeyed c.subscribers
    → IsKeyed (subscribe_channel w c).subscribers
unfolding subscribe_channel
subscribe_channel-IsKeyed w c h = (
  delete-Differs (add64 c.next_id (pos 1)) c.subscribers,
  delete-IsKeyed (add64 c.next_id (pos 1)) c.subscribers h,
)

pub delete_none : (sid : ℤ) (subs : List (ℤ × ℕ)) → All (Differs sid) subs → delete sid subs ≡ subs
unfolding delete
delete_none sid [] h = refl
delete_none sid ((k, w) ∷ subs) (ne, h) =
    rw (test_of_ne k sid ne) (ap (◌∷◌ (k, w)) (delete_none sid subs h))

pub delete_first :
    (sid : ℤ) (i : ℕ) (subs : List (ℤ × ℕ))
    → All (Differs sid) subs
    → delete sid ((sid, i) ∷ subs) ≡ subs
unfolding delete
delete_first sid i subs h = rw (same_int_refl sid) (delete_none sid subs h)

-- A subscription that is not among the failed ones stays.
pub evict_behind :
    (sid : ℤ) (i : ℕ) (failed : List ℤ) (subs : List (ℤ × ℕ))
    → All (λ k. k ≢ sid) failed
    → evict failed ((sid, i) ∷ subs) ≡ (sid, i) ∷ evict failed subs
unfolding evict delete
evict_behind sid i [] subs h = refl
evict_behind sid i (k ∷ failed) subs (ne, h) =
    rw (test_of_ne sid k (λ e. ne (sym e))) (evict_behind sid i failed (delete k subs) h)
