-- ===== src/Registry/Sections.antt =====
-- info/info.go: what the operations do to the store of sections.
use redeo.Base.{
  ℕ, zero, suc, ◌+◌, ◌<◌, ◌≡◌, refl, ap, some, List, [], ◌∷◌, ◌++◌, Bytes, arith, length, get_elem?,
  length-append,
}
use redeo.Registry.{Registry, Section, update, name_of}

module _ {World : Type 0} where
  pub length-update :
      (a : ℕ) (f : Section World → Section World) (ss : List (Section World))
      → length (update a f ss) ≡ length ss
  unfolding update
  length-update a f [] = refl
  length-update zero f (s ∷ ss) = refl
  length-update (suc a) f (s ∷ ss) = ap suc (length-update a f ss)

  -- A change of the values leaves the names.
  pub name_of-update :
      (a : ℕ) (f : Section World → Section World)
      → ((s : Section World) → (f s).name ≡ s.name)
      → (ss : List (Section World)) (i : ℕ)
      → name_of (get_elem? (update a f ss) i) ≡ name_of (get_elem? ss i)
  unfolding update name_of
  name_of-update a f keep [] i = refl
  name_of-update zero f keep (s ∷ ss) zero = keep s
  name_of-update zero f keep (s ∷ ss) (suc i) = refl
  name_of-update (suc a) f keep (s ∷ ss) zero = refl
  name_of-update (suc a) f keep (s ∷ ss) (suc i) = name_of-update a f keep ss i

  -- A new section leaves the old ones, and is found at the old length.
  pub get_elem?-append_old :
      (ss : List (Section World)) (s : Section World) (i : ℕ)
      → i < length ss
      → get_elem? (ss ++ s ∷ []) i ≡ get_elem? ss i
  get_elem?-append_old [] s i h = elim h [ ]
  get_elem?-append_old (x ∷ ss) s zero h = refl
  get_elem?-append_old (x ∷ ss) s (suc i) h = get_elem?-append_old ss s i (omega arith)

  pub get_elem?-append_new :
      (ss : List (Section World)) (s : Section World)
      → get_elem? (ss ++ s ∷ []) (length ss) ≡ some s
  get_elem?-append_new [] s = refl
  get_elem?-append_new (x ∷ ss) s = get_elem?-append_new ss s

  -- a new section at the end of the store
  unfoldable pub with_section : Registry World → Bytes → List (Section World)
  with_section r name = r.store ++ record { name = name; kvs = [] } ∷ []

  pub new_name :
      (r : Registry World) (name : Bytes)
      → name_of (get_elem? (with_section r name) (length r.store)) ≡ name
  unfolding with_section name_of
  new_name r name = ap name_of (get_elem?-append_new r.store (record { name = name; kvs = [] }))

  pub old_names :
      (r : Registry World) (name : Bytes) (i : ℕ)
      → i < length r.store
      → name_of (get_elem? (with_section r name) i) ≡ name_of (get_elem? r.store i)
  unfolding with_section
  old_names r name i h =
      ap name_of (get_elem?-append_old r.store (record { name = name; kvs = [] }) i h)

  pub longer :
      (r : Registry World) (name : Bytes) → length (with_section r name) ≡ length r.store + 1
  unfolding with_section
  longer r name = length-append r.store (record { name = name; kvs = [] } ∷ [])
