-- ===== src/Registry/Fetch.antt =====
-- info/info.go: what `FindSection` finds behind `FetchSection`.
use redeo.Base.{
  ℕ, ◌<◌, ◌≡◌, refl, ap, sym, ◌∙◌, none, some, Option, List, [], ◌∷◌, ◌++◌, Bytes, length,
  get_elem?, All, if◌then◌else◌, subst, inl, inr, Bool-cases,
}
use redeo.Registry.Names.{IsNamed}
use redeo.Registry.Sections.{with_section, new_name, old_names}
use redeo.Registry.{
  Section, Registry, name_of, find_among, find_section, fetch_locked, fetch_locked_of,
  fetch_section, fetch_of,
}
use redeo.Replies.Equal.{eq_of_equal}
use redeo.Replies.{equal}

-- the first of two results
or_else : Option ℕ → Option ℕ → Option ℕ
or_else none o = o
or_else (some a) o = some a

or_else-none : (o : Option ℕ) → or_else o none ≡ o
unfolding or_else
or_else-none none = refl
or_else-none (some a) = refl

module _ (to_lower : Bytes → Bytes) {World : Type 0} where
  find_among-append :
      (name : Bytes) (store : List (Section World)) (xs ys : List ℕ)
      → find_among to_lower name store (xs ++ ys)
        ≡ or_else (find_among to_lower name store xs) (find_among to_lower name store ys)
  unfolding find_among or_else
  find_among-append name store [] ys = refl
  find_among-append name store (a ∷ xs) ys =
      elim (Bool-cases (equal (to_lower (name_of (get_elem? store a))) (to_lower name))) [
        | inl e ↦ rw e refl
        | inr e ↦ rw e (find_among-append name store xs ys)
      ]

  find_among-store :
      (name : Bytes) (store store' : List (Section World)) (as' : List ℕ)
      → All (λ a. a < length store) as'
      → ((i : ℕ) → i < length store → name_of (get_elem? store' i) ≡ name_of (get_elem? store i))
      → find_among to_lower name store' as' ≡ find_among to_lower name store as'
  unfolding find_among
  find_among-store name store store' [] all same = refl
  find_among-store name store store' (a ∷ as') (h, all) same =
      rw (same a h, find_among-store name store store' as' all same)

  -- The search depends on the name only up to case.
  find_among-lower :
      (name other : Bytes) (store : List (Section World)) (as' : List ℕ)
      → to_lower other ≡ to_lower name
      → find_among to_lower other store as' ≡ find_among to_lower name store as'
  unfolding find_among
  find_among-lower name other store [] e = refl
  find_among-lower name other store (a ∷ as') e = rw (e, find_among-lower name other store as' e)

  -- Where nothing was found, a new section is behind the others.
  find_section-new :
      (name other : Bytes) (r : Registry World)
      → IsNamed to_lower r
      → find_among to_lower other (with_section r name) (r.sections ++ length r.store ∷ [])
        ≡ or_else
            (find_section to_lower other r)
            (if equal (to_lower name) (to_lower other) then some (length r.store) else none)
  unfolding find_section
  find_section-new name other r v =
      find_among-append other (with_section r name) r.sections (length r.store ∷ []) ∙ λ i.
      or_else
        (find_among-store other r.store (with_section r name) r.sections v.points (old_names r name)
          i)
        (if equal (to_lower (new_name r name i)) (to_lower other)
          then some (length r.store)
          else none)

  -- After `FetchSection(name)` on a registry with distinct names and no dangling pointer,
  -- `FindSection` gives the fetched section for every name that is the same up to case, and what it
  -- gave before for every other name.
  pub find_section-fetch_section :
      (name other : Bytes) (r : Registry World)
      → IsNamed to_lower r
      → find_section to_lower other (fetch_section to_lower name r).1 ≡ (
          if equal (to_lower name) (to_lower other)
          then some (fetch_section to_lower name r).0
          else find_section to_lower other r)
  unfolding fetch_section fetch_locked find_section with_section or_else
  find_section-fetch_section name other r v = go (find_among to_lower name r.store r.sections) refl
    where
      added :
          find_among to_lower name r.store r.sections ≡ none
          → or_else
              (find_section to_lower other r)
              (if equal (to_lower name) (to_lower other) then some (length r.store) else none)
            ≡ (if equal (to_lower name) (to_lower other)
                then some (length r.store)
                else find_section to_lower other r)
      added e = elim (Bool-cases (equal (to_lower name) (to_lower other))) [
        | inl same ↦ rw same (
            ap (λ o. or_else o (some (length r.store)))
              (find_among-lower name other r.store r.sections (sym (eq_of_equal _ _ same)) ∙ e))
        | inr differs ↦ rw differs (or_else-none (find_section to_lower other r))
      ]

      go :
          (o : Option ℕ)
          → find_among to_lower name r.store r.sections ≡ o
          → find_section to_lower other (fetch_of to_lower o name r).1 ≡ (
              if equal (to_lower name) (to_lower other)
              then some (fetch_of to_lower o name r).0
              else find_section to_lower other r)
      go (some a) e = elim (Bool-cases (equal (to_lower name) (to_lower other))) [
        | inl same ↦
            rw same
              (find_among-lower name other r.store r.sections (sym (eq_of_equal _ _ same)) ∙ e)
        | inr differs ↦ rw differs
      ]
      go none e =
          subst
            (λ o. find_section to_lower other (fetch_locked_of to_lower o name r).1 ≡ (
              if equal (to_lower name) (to_lower other)
              then some (fetch_locked_of to_lower o name r).0
              else find_section to_lower other r))
            (sym e) (find_section-new name other r v ∙ added e)
