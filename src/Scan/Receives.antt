-- ===== src/Scan/Receives.antt =====
-- resp/value.go and resp/scan.go: what a variable holds after a value was scanned into it.
use redeo.Base.{
  ◌-◌, ◌*◌, ◌≤◌, List, ℕ, ◌^◌, ◌<◌, ◌≡◌, sym, ◌⊎◌, inl, inr, Bool, true, Option, none, some, [],
  ◌∷◌, Bytes, arith, subst,
}
use redeo.Base.Int.{ℤ, pos, negsuc, signed}
use redeo.Scan.Assign.{Floats, to_int, to_uint}
use redeo.Io.{Runtime}
use redeo.Scan.Variables.{
  size_of, any_nil, any_string, any_int, Var, string_var, bytes_var, bool_var, int_var, uint_var,
  float_var, any_var, null_string, slice_var, map_var, nil_map_var, named_string, named_int64, Vars,
  no_vars, var, Entries, no_entries, Dst, pointer, add_entry,
}
use redeo.Value.{
  count_elements, GoValue, nil_value, custom, error_value, bool, int, uint, bulk_string, byte_slice,
  float, slice_value, map_value, unsupported, Elements, no_elements, element, Pairs, no_pairs,
  key_value,
}

-- the integers of `w` bits
abbrev pub IsInt : ℕ → ℤ → Type 0
IsInt w (pos n) = n < 2 ^ (w - 1)
IsInt w (negsuc n) = n < 2 ^ (w - 1)

-- the widths of Go's integers
abbrev pub IsWidth : ℕ → Type 0
IsWidth w = (w ≡ 8) ⊎ ((w ≡ 16) ⊎ ((w ≡ 32) ⊎ (w ≡ 64)))

-- An empty bulk is read into a `[]byte` as nil.
abbrev pub bytes_or_nil_of : Bytes → Option Bytes
bytes_or_nil_of [] = none
bytes_or_nil_of (c ∷ cs) = some (c ∷ cs)

-- A text or a byte slice.
abbrev pub TextInto : {Float : Type 0} → Bytes → Var Float → Var Float → Type 0
TextInto p (string_var _) y = y ≡ string_var p
TextInto p (bytes_var _) y = y ≡ bytes_var (bytes_or_nil_of p)
TextInto p (any_var _) y = y ≡ any_var (any_string p)
TextInto p (named_string _) y = y ≡ named_string p
TextInto p (null_string _ _) y = y ≡ null_string p true
TextInto p _ y = ⊥

-- A `NullString` is not among the variables that take nil: its `ScanResponse` leaves it as it was.
abbrev pub NilInto : {Float : Type 0} → Var Float → Var Float → Type 0
NilInto (bytes_var _) y = y ≡ bytes_var none
NilInto (any_var _) y = y ≡ any_var any_nil
NilInto _ y = ⊥

-- An integer, into a variable of its kind in which it fits.
abbrev pub IntInto : {Float : Type 0} → ℤ → Var Float → Var Float → Type 0
IntInto n (int_var w _) y = IsWidth w × IsInt w n × (y ≡ int_var w n)
IntInto n (any_var _) y = y ≡ any_var (any_int n)
IntInto n (named_int64 _) y = y ≡ named_int64 n
IntInto n _ y = ⊥

abbrev pub UintInto : {Float : Type 0} → ℕ → Var Float → Var Float → Type 0
UintInto n (uint_var w _) y = IsWidth w × (n < 2 ^ w) × (y ≡ uint_var w n)
UintInto n _ y = ⊥

abbrev pub BoolInto : {Float : Type 0} → Bool → Var Float → Var Float → Type 0
BoolInto b (bool_var _) y = y ≡ bool_var b
BoolInto b _ y = ⊥

abbrev pub FloatInto : (fl : Floats) → Bytes → Var fl.Float → Var fl.Float → Type 0
FloatInto fl t (float_var w _) y =
    (x : fl.Float) × (fl.parse_float w t ≡ some x) × (y ≡ float_var w x)
FloatInto fl t _ y = ⊥

-- The value fits the type of the variable `x`, and `y` is the variable that holds it. An array for
-- the elements of a slice can be made. A slice is
-- overwritten from its start and made longer where it is too short; a map gets the pairs as new
-- assignments.
abbrev mutual
  pub Receives :
      {Snk : Type 0} (rt : Runtime) (fl : Floats)
      → GoValue Snk
      → Var fl.Float
      → Var fl.Float
      → Type 0
  Receives rt fl nil_value x y = NilInto x y
  Receives rt fl (custom append_to) x y = ⊥
  Receives rt fl (error_value msg) x y = ⊥
  Receives rt fl (bool b) x y = BoolInto b x y
  Receives rt fl (int n) x y = IntInto n x y
  Receives rt fl (uint n) x y = UintInto n x y
  Receives rt fl (bulk_string p) x y = TextInto p x y
  Receives rt fl (byte_slice p) x y = TextInto p x y
  Receives rt fl (float t) x y = FloatInto fl t x y
  Receives rt fl (slice_value vs) (slice_var z xs) y =
      (ys : Vars fl.Float) × (y ≡ slice_var z ys)
      × (size_of z * count_elements vs ≤ rt.max_alloc)
      × ReceiveAll rt fl vs z xs ys
  Receives rt fl (slice_value vs) _ y = ⊥
  Receives rt fl (map_value ps) (map_var kz vz es) y =
      (es' : Entries fl.Float) × (y ≡ map_var kz vz es') × ReceivePairs rt fl ps kz vz es es'
  Receives rt fl (map_value ps) (nil_map_var kz vz) y =
      (es' : Entries fl.Float) × (y ≡ map_var kz vz es')
      × ReceivePairs rt fl ps kz vz no_entries es'
  Receives rt fl (map_value ps) _ y = ⊥
  Receives rt fl (unsupported name) x y = ⊥

  pub ReceiveAll :
      {Snk : Type 0} (rt : Runtime) (fl : Floats)
      → Elements Snk
      → Var fl.Float
      → Vars fl.Float
      → Vars fl.Float
      → Type 0
  ReceiveAll rt fl no_elements z xs ys = ys ≡ xs
  ReceiveAll rt fl (element v vs) z no_vars ys =
      (y : Var fl.Float) × (ys' : Vars fl.Float) × (ys ≡ var y ys')
      × Receives rt fl v z y
      × ReceiveAll rt fl vs z no_vars ys'
  ReceiveAll rt fl (element v vs) z (var x xs) ys =
      (y : Var fl.Float) × (ys' : Vars fl.Float) × (ys ≡ var y ys')
      × Receives rt fl v x y
      × ReceiveAll rt fl vs z xs ys'

  pub ReceivePairs :
      {Snk : Type 0} (rt : Runtime) (fl : Floats)
      → Pairs Snk
      → Var fl.Float
      → Var fl.Float
      → Entries fl.Float
      → Entries fl.Float
      → Type 0
  ReceivePairs rt fl no_pairs kz vz es es' = es' ≡ es
  ReceivePairs rt fl (key_value k v ps) kz vz es es' =
      (k' : Var fl.Float) × (v' : Var fl.Float) × Receives rt fl k kz k'
      × Receives rt fl v vz v'
      × ReceivePairs rt fl ps kz vz (add_entry k' v' es) es'

-- One variable for every value.
abbrev pub ReceiveEach :
    {Snk : Type 0} (rt : Runtime) (fl : Floats)
    → Elements Snk
    → Vars fl.Float
    → Vars fl.Float
    → Type 0
ReceiveEach rt fl no_elements no_vars no_vars = Unit
ReceiveEach rt fl (element v vs) (var x xs) (var y ys) =
    Receives rt fl v x y × ReceiveEach rt fl vs xs ys
ReceiveEach rt fl _ _ _ = ⊥

abbrev pub pointers : {Float : Type 0} → Vars Float → List (Dst Float)
pointers no_vars = []
pointers (var x xs) = pointer x ∷ pointers xs

-- An integer that fits is converted to itself.
to_int8 : (z : ℤ) → IsInt 8 z → to_int 8 z ≡ z
unfolding to_int
to_int8 (pos n) h = ground arith
to_int8 (negsuc n) h = ground arith

to_int16 : (z : ℤ) → IsInt 16 z → to_int 16 z ≡ z
unfolding to_int
to_int16 (pos n) h = ground arith
to_int16 (negsuc n) h = ground arith

to_int32 : (z : ℤ) → IsInt 32 z → to_int 32 z ≡ z
unfolding to_int
to_int32 (pos n) h = ground arith
to_int32 (negsuc n) h = ground arith

to_int64 : (z : ℤ) → IsInt 64 z → to_int 64 z ≡ z
unfolding to_int
to_int64 (pos n) h = ground arith
to_int64 (negsuc n) h = ground arith

pub to_int_same : (w : ℕ) (z : ℤ) → IsWidth w → IsInt w z → to_int w z ≡ z
to_int_same w z (inl e) = subst (λ w'. IsInt w' z → to_int w' z ≡ z) (sym e) (to_int8 z)
to_int_same w z (inr (inl e)) = subst (λ w'. IsInt w' z → to_int w' z ≡ z) (sym e) (to_int16 z)
to_int_same w z (inr (inr (inl e))) =
    subst (λ w'. IsInt w' z → to_int w' z ≡ z) (sym e) (to_int32 z)
to_int_same w z (inr (inr (inr e))) =
    subst (λ w'. IsInt w' z → to_int w' z ≡ z) (sym e) (to_int64 z)

pub to_uint-signed : (w n : ℕ) → IsWidth w → n < 2 ^ w → to_uint w (signed n) ≡ n
unfolding to_uint
to_uint-signed w n (inl e) =
    subst (λ w'. n < 2 ^ w' → to_uint w' (signed n) ≡ n) (sym e) (λ h. ground arith)
to_uint-signed w n (inr (inl e)) =
    subst (λ w'. n < 2 ^ w' → to_uint w' (signed n) ≡ n) (sym e) (λ h. ground arith)
to_uint-signed w n (inr (inr (inl e))) =
    subst (λ w'. n < 2 ^ w' → to_uint w' (signed n) ≡ n) (sym e) (λ h. ground arith)
to_uint-signed w n (inr (inr (inr e))) =
    subst (λ w'. n < 2 ^ w' → to_uint w' (signed n) ≡ n) (sym e) (λ h. ground arith)
