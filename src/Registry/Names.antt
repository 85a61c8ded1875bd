-- ===== src/Registry/Names.antt =====
-- info/info.go: the names of the registered sections, under any sequence of steps.
use redeo.Base.{
  Bool, ℕ, ◌<◌, ◌≤◌, ◌≡◌, ◌≢◌, refl, ap, sym, ◌∙◌, none, some, Option, List, [], ◌∷◌, ◌++◌, Bytes,
  arith, length, get_elem?, All, true, false, if◌then◌else◌, subst,
}
use redeo.Registry.Sections.{
  length-update, name_of-update, with_section, new_name, old_names, longer,
}
use redeo.Registry.{
  Value, Section, Registry, new_registry, register_value, clear_section, allocate, copy_kvs, clear,
  name_of, find_among, find_section, fetch_locked, fetch_locked_of, update,
}
use redeo.Replies.Equal.{ne_of_equal}
use redeo.Replies.{equal}

-- No entry occurs twice.
abbrev pub IsDistinct : List Bytes → Type 0
IsDistinct [] = Unit
IsDistinct (x ∷ xs) = All (λ y. y ≢ x) xs × IsDistinct xs

IsDistinct-append :
    (xs : List Bytes) (y : Bytes) → IsDistinct xs → All (λ x. x ≢ y) xs → IsDistinct (xs ++ y ∷ [])
IsDistinct-append [] y d a = (tt, tt)
IsDistinct-append (x ∷ xs) y (n, d) (ne, a) = (add xs n, IsDistinct-append xs y d a)
  where
    add : (zs : List Bytes) → All (λ z. z ≢ x) zs → All (λ z. z ≢ x) (zs ++ y ∷ [])
    add [] all = ((λ e. ne (sym e)), tt)
    add (z ∷ zs) (p, all) = (p, add zs all)

points_mono : (n m : ℕ) (as' : List ℕ) → n ≤ m → All (λ a. a < n) as' → All (λ a. a < m) as'
points_mono n m [] h all = tt
points_mono n m (a ∷ as') h (p, all) = (omega arith, points_mono n m as' h all)

points-append :
    (n m : ℕ) (as' : List ℕ) → n < m → All (λ a. a < m) as' → All (λ a. a < m) (as' ++ n ∷ [])
points-append n m [] h all = (h, tt)
points-append n m (a ∷ as') h (p, all) = (p, points-append n m as' h all)

module _ (to_lower : Bytes → Bytes) {World : Type 0} where
  -- the names that pointers lead to, in lower case
  abbrev pub lower_names : List (Section World) → List ℕ → List Bytes
  lower_names store [] = []
  lower_names store (a ∷ as') = to_lower (name_of (get_elem? store a)) ∷ lower_names store as'

  -- No two sections have the same name, up to case, and no pointer dangles.
  pub record IsNamed (r : Registry World) : Type 0 where
    pub distinct : IsDistinct (lower_names r.store r.sections)
    pub points : All (λ a. a < length r.store) r.sections

  -- A registry whose names are the same, and whose store is no shorter.
  lower_names-store :
      (store store' : List (Section World)) (as' : List ℕ)
      → All (λ a. a < length store) as'
      → ((i : ℕ) → i < length store → name_of (get_elem? store' i) ≡ name_of (get_elem? store i))
      → lower_names store' as' ≡ lower_names store as'
  lower_names-store store store' [] all same = refl
  lower_names-store store store' (a ∷ as') (h, all) same =
      λ i. to_lower (same a h i) ∷ lower_names-store store store' as' all same i

  IsNamed-store :
      (r : Registry World) (store' : List (Section World))
      → length r.store ≤ length store'
      → ((i : ℕ)
          → i < length r.store
          → name_of (get_elem? store' i) ≡ name_of (get_elem? r.store i))
      → IsNamed r
      → IsNamed (record r { store = store' })
  IsNamed-store r store' longer same v = record {
    distinct =
        subst IsDistinct (sym (lower_names-store r.store store' r.sections v.points same))
          v.distinct;
    points = points_mono (length r.store) (length store') r.sections longer v.points;
  }

  IsNamed-update :
      (r : Registry World) (a : ℕ) (f : Section World → Section World)
      → ((s : Section World) → (f s).name ≡ s.name)
      → IsNamed r
      → IsNamed (record r { store = update a f r.store })
  IsNamed-update r a f keep v =
      IsNamed-store r (update a f r.store) (omega (arith, length-update a f r.store))
        (λ i _. name_of-update a f keep r.store i) v

  -- Where nothing is found, no section has the name.
  not_found :
      (name : Bytes) (store : List (Section World)) (as' : List ℕ)
      → find_among to_lower name store as' ≡ none
      → All (λ n. n ≢ to_lower name) (lower_names store as')
  unfolding find_among
  not_found name store [] h = tt
  not_found name store (a ∷ as') h =
      not_found_first (equal (to_lower (name_of (get_elem? store a))) (to_lower name)) refl h
        (not_found name store as')
    where
      not_found_first :
          (b : Bool)
          → equal (to_lower (name_of (get_elem? store a))) (to_lower name) ≡ b
          → (if b then some a else find_among to_lower name store as') ≡ none
          → (find_among to_lower name store as' ≡ none
              → All (λ n. n ≢ to_lower name) (lower_names store as'))
          → All (λ n. n ≢ to_lower name) (lower_names store (a ∷ as'))
      not_found_first true e k rest = cc
      not_found_first false e k rest = (ne_of_equal _ _ e, rest k)

  lower_names-append :
      (store : List (Section World)) (as' : List ℕ) (a : ℕ)
      → lower_names store (as' ++ a ∷ [])
        ≡ lower_names store as' ++ to_lower (name_of (get_elem? store a)) ∷ []
  lower_names-append store [] a = refl
  lower_names-append store (x ∷ as') a =
      ap (◌∷◌ (to_lower (name_of (get_elem? store x)))) (lower_names-append store as' a)

  -- `FetchSection` appends a section only where none has the name, also if the registry changed
  -- between its halves.
  fetch_locked-IsNamed :
      (name : Bytes) (r : Registry World) → IsNamed r → IsNamed (fetch_locked to_lower name r).1
  unfolding fetch_locked find_section with_section
  fetch_locked-IsNamed name r v = go (find_among to_lower name r.store r.sections) refl
    where
      go :
          (o : Option ℕ)
          → find_among to_lower name r.store r.sections ≡ o
          → IsNamed (fetch_locked_of to_lower o name r).1
      go (some a) e = v
      go none e = record {
        distinct =
            subst IsDistinct
              (sym (
                lower_names-append (with_section r name) r.sections (length r.store) ∙ λ i.
                lower_names-store r.store (with_section r name) r.sections v.points
                  (old_names r name) i
                ++ to_lower (new_name r name i) ∷ []))
              (IsDistinct-append (lower_names r.store r.sections) (to_lower name) v.distinct
                (not_found name r.store r.sections e));
        points =
            points-append (length r.store) _ r.sections (omega (arith, longer r name))
              (points_mono (length r.store) _ r.sections (omega (arith, longer r name)) v.points);
      }

  -- What is done to a registry at once: each of these holds a lock but `make`, which makes a section
  -- that no one else has yet. `FetchSection` is a look-up, which changes nothing, and `fetch`; `Replace`
  -- is `make`, the steps of its function, and `copy`.
  pub data Step : Registry World → Registry World → Type 0 where
    fetch : (name : Bytes) (r : Registry World) → Step r (fetch_locked to_lower name r).1
    add_value :
        (a : ℕ) (name : Bytes) (value : Value World) (r : Registry World)
        → Step r (register_value a name value r)
    empty : (a : ℕ) (r : Registry World) → Step r (clear_section a r)
    make : (name : Bytes) (r : Registry World) → Step r (allocate name r)
    copy : (a t : ℕ) (r : Registry World) → Step r (copy_kvs a t r)
    drop_all : (r : Registry World) → Step r (clear r)

  pub data Reach (r : Registry World) : Registry World → Type 0 where
    here : Reach r r
    next : {s t : Registry World} → Reach r s → Step s t → Reach r t

  Step-IsNamed : {r s : Registry World} → Step r s → IsNamed r → IsNamed s
  unfolding register_value clear_section allocate copy_kvs clear
  Step-IsNamed (fetch name r) v = fetch_locked-IsNamed name r v
  Step-IsNamed (add_value a name value r) v = IsNamed-update r a _ (λ s. refl) v
  Step-IsNamed (empty a r) v = IsNamed-update r a _ (λ s. refl) v
  Step-IsNamed (make name r) v =
      unfold with_section in
      IsNamed-store r (with_section r name) (omega (arith, longer r name)) (old_names r name) v
  Step-IsNamed (copy a t r) v = IsNamed-update r a _ (λ s. refl) v
  Step-IsNamed (drop_all r) v = record { distinct = tt; points = tt }

  -- Let a new registry go through any sequence of these steps: `FetchSection` from its lock on,
  -- behind a look-up that may be out of date, `Register` and `Clear` of a section, the making of
  -- the new section and the final copy of `Replace`, and `Clear` of the registry. Then no two of
  -- its sections have the same name up to case, and none of its pointers dangles.
  pub Reach-IsNamed : {r : Registry World} → Reach new_registry r → IsNamed r
  Reach-IsNamed here = record { distinct = tt; points = tt }
  Reach-IsNamed (next before step) = Step-IsNamed step (Reach-IsNamed before)
