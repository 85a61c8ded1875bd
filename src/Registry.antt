-- ===== src/Registry.antt =====
-- info/info.go and info/values.go: the registry of sections, as a store of sections that pointers
-- name. A pointer is an index of the store, which only grows, so that a section that the registry has
-- dropped lives on for those who hold it. Each operation runs under a lock from its first line to its
-- last; `FetchSection` takes two, one for each half. `strings.ToLower` is a parameter.
pub mod Sections
pub mod Names
pub mod Fetch
pub mod Text
pub mod Defaults
use redeo.Base.{
  ℕ, zero, suc, ◌+◌, Bool, true, false, Option, none, some, List, [], ◌∷◌, ◌++◌, Bytes, codes, ◌==◌,
  if◌then◌else◌, length, get_elem?,
}
use redeo.Base.Int.{ℤ}
use redeo.Decimal.{format_int}
use redeo.Info.{IntValue, int_value_string}
use redeo.Replies.{equal}

-- `Value`: what its `String` reads. A callback, and the value behind a pointer, are read in the world
-- as it is at that time.
pub data Value (World : Type 0) : Type 0 where
  static_string : Bytes → Value World
  callback : (World → Bytes) → Value World
  int_value : (World → IntValue) → Value World
  string_value : (World → Bytes) → Value World

abbrev pub static_int : {World : Type 0} → ℤ → Value World
static_int n = static_string (format_int n)

pub record Section (World : Type 0) : Type 0 where
  pub name : Bytes
  pub kvs : List (Bytes × Value World)

pub record Registry (World : Type 0) : Type 0 where
  pub sections : List ℕ
  pub store : List (Section World)

module _ {World : Type 0} where
  value_string : World → Value World → Bytes
  value_string world (static_string s) = s
  value_string world (callback f) = f world
  value_string world (int_value v) = int_value_string (v world)
  value_string world (string_value s) = s world

  -- `New`
  abbrev pub new_registry : Registry World
  new_registry = record { sections = []; store = [] }

  -- `*s = f(*s)`
  unfoldable pub update :
      ℕ → (Section World → Section World) → List (Section World) → List (Section World)
  update a f [] = []
  update zero f (s ∷ ss) = f s ∷ ss
  update (suc a) f (s ∷ ss) = s ∷ update a f ss

  -- the methods of a section that write to it
  unfoldable pub register_value : ℕ → Bytes → Value World → Registry World → Registry World
  unfolding update
  register_value a name value r = record r {
    store = update a (λ s. record s { kvs = s.kvs ++ (name, value) ∷ [] }) r.store;
  }

  unfoldable pub clear_section : ℕ → Registry World → Registry World
  unfolding update
  clear_section a r = record r { store = update a (λ s. record s { kvs = [] }) r.store }

  pub name_of : Option (Section World) → Bytes
  name_of none = []
  name_of (some s) = s.name

  kvs_of : Option (Section World) → List (Bytes × Value World)
  kvs_of none = []
  kvs_of (some s) = s.kvs

  pub copy_kvs : ℕ → ℕ → Registry World → Registry World
  unfolding update kvs_of
  copy_kvs a t r = record r {
    store = update a (λ s. record s { kvs = kvs_of (get_elem? r.store t) }) r.store;
  }

  -- a new section behind the others of the store
  pub allocate : Bytes → Registry World → Registry World
  allocate name r = record r { store = r.store ++ record { name = name; kvs = [] } ∷ [] }

  -- `Replace`: `fn` fills a section of its own.
  unfoldable pub replace :
      ℕ → (ℕ → Registry World → Registry World) → Registry World → Registry World
  unfolding copy_kvs allocate name_of
  replace a fn r =
      let t = length r.store in copy_kvs a t (fn t (allocate (name_of (get_elem? r.store a)) r))

  -- `Clear` of the registry
  unfoldable pub clear : Registry World → Registry World
  clear r = record r { sections = [] }

  -- `writeTo`
  kvs_text : World → List (Bytes × Value World) → Bytes
  unfolding value_string
  kvs_text world [] = []
  kvs_text world ((name, value) ∷ kvs) =
      (name ++ (codes ":" ++ (value_string world value ++ codes "\n"))) ++ kvs_text world kvs

  write_to : World → Section World → Bytes
  unfolding kvs_text
  write_to world s = (codes "# " ++ (s.name ++ codes "\n")) ++ kvs_text world s.kvs

  -- `len(s.kvs) == 0`
  abbrev pub is_empty : Section World → Bool
  is_empty s = length s.kvs == 0

  -- `String` of a section, which may be nil
  unfoldable pub section_string : World → Option (Section World) → Bytes
  unfolding write_to
  section_string world none = []
  section_string world (some s) = if is_empty s then [] else write_to world s

  sections_text : World → ℕ → List (Section World) → Bytes
  unfolding write_to
  sections_text world i [] = []
  sections_text world i (s ∷ ss) =
      let rest = sections_text world (i + 1) ss in
      if is_empty s
      then rest
      else if i == 0
      then write_to world s ++ rest
      else codes "\n" ++ (write_to world s ++ rest)

  -- the sections that pointers lead to
  unfoldable pub sections_at : List (Section World) → List ℕ → List (Section World)
  sections_at store [] = []
  sections_at store (a ∷ as') = elim (get_elem? store a) [
    | none ↦ sections_at store as'
    | some s ↦ s ∷ sections_at store as'
  ]

  -- `String` of the registry
  unfoldable pub registry_string : World → Registry World → Bytes
  unfolding sections_text sections_at
  registry_string world r = sections_text world 0 (sections_at r.store r.sections)

  module _ (to_lower : Bytes → Bytes) where
    find_among : Bytes → List (Section World) → List ℕ → Option ℕ
    unfolding name_of
    find_among name store [] = none
    find_among name store (a ∷ as') =
        let rest = find_among name store as' in
        if equal (to_lower (name_of (get_elem? store a))) (to_lower name) then some a else rest

    -- `FindSection`
    unfoldable pub find_section : Bytes → Registry World → Option ℕ
    unfolding find_among
    find_section name r = find_among name r.store r.sections

    fetch_locked_of : Option ℕ → Bytes → Registry World → ℕ × Registry World
    unfolding allocate
    fetch_locked_of (some a) name r = (a, r)
    fetch_locked_of none name r = (
      length r.store,
      record r {
        sections = r.sections ++ length r.store ∷ [];
        store = r.store ++ record { name = name; kvs = [] } ∷ [];
      },
    )

    -- The half of `FetchSection` under the write lock: it looks again.
    unfoldable pub fetch_locked : Bytes → Registry World → ℕ × Registry World
    unfolding fetch_locked_of
    fetch_locked name r = fetch_locked_of (find_section name r) name r

    fetch_of : Option ℕ → Bytes → Registry World → ℕ × Registry World
    fetch_of (some a) name r = (a, r)
    fetch_of none name r = fetch_locked name r

    -- `FetchSection` with nothing between its halves
    unfoldable pub fetch_section : Bytes → Registry World → ℕ × Registry World
    unfolding fetch_of
    fetch_section name r = fetch_of (find_section name r) name r
