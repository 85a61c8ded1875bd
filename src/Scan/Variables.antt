-- ===== src/Scan/Variables.antt =====
-- resp/scan.go: the variables that replies are scanned into, by their types.
use redeo.Base.{ℕ, ◌/◌, zero, suc, Bool, Option, [], ◌∷◌, Bytes}
use redeo.Base.Int.{ℤ}

-- the content of an `interface{}`
pub data Any : Type 0 where
  any_nil : Any
  any_string : Bytes → Any
  any_int : ℤ → Any
  any_other : Any

-- A variable with its type and its value. Integers and floats have their width in bits; `int` and
-- `uint` are those of 64. `named_string` and `named_int64` are of a defined type with that underlying
-- type. A slice has the zero value of its elements in front; a map those of its keys and values, and
-- then the assignments made to it, in order, of which the last to a key counts. `other_var` is of any
-- type that no reply can be scanned into, with the size of that type.
mutual
  pub data Var (Float : Type 0) : Type 0 where
    string_var : Bytes → Var Float
    bytes_var : Option Bytes → Var Float
    bool_var : Bool → Var Float
    int_var : ℕ → ℤ → Var Float
    uint_var : ℕ → ℕ → Var Float
    float_var : ℕ → Float → Var Float
    any_var : Any → Var Float
    named_string : Bytes → Var Float
    named_int64 : ℤ → Var Float
    null_string : Bytes → Bool → Var Float
    slice_var : Var Float → Vars Float → Var Float
    map_var : Var Float → Var Float → Entries Float → Var Float
    nil_map_var : Var Float → Var Float → Var Float
    pointer_var : Var Float → Var Float
    nil_pointer_var : Var Float → Var Float
    other_var : ℕ → Var Float

  pub data Vars (Float : Type 0) : Type 0 where
    no_vars : Vars Float
    var : Var Float → Vars Float → Vars Float

  pub data Entries (Float : Type 0) : Type 0 where
    no_entries : Entries Float
    entry : Var Float → Var Float → Entries Float → Entries Float

-- What is passed to `Scan`: nil, a value that is no pointer, a nil pointer (with the zero value of the
-- type that it points to), or a pointer to a variable.
pub data Dst (Float : Type 0) : Type 0 where
  nil_dst : Dst Float
  not_pointer : Dst Float
  nil_pointer_to : Var Float → Dst Float
  pointer : Var Float → Dst Float

module _ {Float : Type 0} where
  -- The bytes that a variable takes in an array. A slice has a pointer, a length and a capacity, a string
  -- and an `interface{}` two words.
  abbrev pub size_of : Var Float → ℕ
  size_of (string_var _) = 16
  size_of (bytes_var _) = 24
  size_of (bool_var _) = 1
  size_of (int_var w _) = w / 8
  size_of (uint_var w _) = w / 8
  size_of (float_var w _) = w / 8
  size_of (any_var _) = 16
  size_of (named_string _) = 16
  size_of (named_int64 _) = 8
  size_of (null_string _ _) = 24
  size_of (slice_var _ _) = 24
  size_of (map_var _ _ _) = 8
  size_of (nil_map_var _ _) = 8
  size_of (pointer_var _) = 8
  size_of (nil_pointer_var _) = 8
  size_of (other_var n) = n

  abbrev pub count_vars : Vars Float → ℕ
  count_vars no_vars = 0
  count_vars (var v vs) = suc (count_vars vs)

  -- what `scanArray` passes on for an element of a slice, and the element after that
  abbrev pub element_dst : Var Float → Dst Float
  element_dst (pointer_var v) = pointer v
  element_dst (nil_pointer_var v) = nil_pointer_to v
  element_dst v = pointer v

  abbrev pub element_of : Var Float → Dst Float → Var Float
  element_of (pointer_var _) (pointer v) = pointer_var v
  element_of (nil_pointer_var v) _ = nil_pointer_var v
  element_of _ (pointer v) = v
  element_of v _ = v

  abbrev pub variable_or : Var Float → Dst Float → Var Float
  variable_or v (pointer v') = v'
  variable_or v _ = v

  abbrev pub add_entry : Var Float → Var Float → Entries Float → Entries Float
  add_entry k v no_entries = entry k v no_entries
  add_entry k v (entry k' v' es) = entry k' v' (add_entry k v es)

  -- `n` more elements, of the zero value
  abbrev pub add_zeros : ℕ → Var Float → Vars Float → Vars Float
  add_zeros zero z no_vars = no_vars
  add_zeros (suc n) z no_vars = var z (add_zeros n z no_vars)
  add_zeros n z (var v vs) = var v (add_zeros n z vs)

  -- a `[]byte` as a slice of `uint8`
  abbrev pub vars_of : Bytes → Vars Float
  vars_of [] = no_vars
  vars_of (c ∷ cs) = var (uint_var 8 c) (vars_of cs)

  abbrev pub byte_of : Var Float → ℕ
  byte_of (uint_var _ c) = c
  byte_of _ = 0

  abbrev pub bytes_of : Vars Float → Bytes
  bytes_of no_vars = []
  bytes_of (var v vs) = byte_of v ∷ bytes_of vs
