-- ===== src/Scan/Loops.antt =====
-- resp/scan.go: the loops of `scanArray` over the elements of a slice and the pairs of a map.
pub mod Scanned
use redeo.Base.{
  ℕ, zero, suc, ◌-◌, ◌*◌, ◌/◌, ◌%◌, ◌&&◌, Bool, true, false, Option, none, some, [], ◌∷◌, Bytes,
  ltb, ◌==◌, if◌then◌else◌,
}
use redeo.Errors.{Error}
use redeo.Io.{Runtime}
use redeo.Monad.{Outcome, ok, err, panic, timeout}
use redeo.Reader.{BufioR}
use redeo.Scan.Assign.{
  Reason, nil_pointer, not_a_pointer, unsupported_array, Assigned, assigned, refused,
}
use redeo.Scan.Variables.{
  Var, bytes_var, slice_var, map_var, nil_map_var, uint_var, Vars, no_vars, var, Entries,
  no_entries, entry, count_vars, size_of, Dst, nil_dst, not_pointer, nil_pointer_to, pointer,
  element_dst, element_of, variable_or, add_entry, add_zeros, vars_of, bytes_of,
}

-- The errors of `Scan`: those of the reader, an error reply of the server, and its own.
pub data Failure : Type 0 where
  of_resp : Error → Failure
  server_error : Bytes → Failure
  cannot_scan : Reason → Failure

-- Every operation leaves the reader and the destinations, also where it fails.
abbrev pub Result : Type 0 → Type 0 → Type 0
Result Src D = Outcome Failure (BufioR Src × D) (Unit {0})

abbrev pub OneOf : Type 0 → Type 0 → Type 0
OneOf Src Float = Dst Float → BufioR Src → Result Src (Dst Float)

module _ {Src D : Type 0} where
  -- an operation of the reader, and what follows if it succeeds
  abbrev pub read_then :
      {A : Type 0}
      → Outcome Error (BufioR Src) A
      → D
      → (A → BufioR Src → Result Src D)
      → Result Src D
  read_then (ok a b) d k = k a b
  read_then (err e b) d k = err (of_resp e) (b, d)
  read_then panic d k = panic
  read_then timeout d k = timeout

module _ {Src Float : Type 0} where
  abbrev pub put : Assigned Float → Dst Float → BufioR Src → Result Src (Dst Float)
  put (assigned d') d b = ok tt (b, d')
  put (refused r) d b = err (cannot_scan r) (b, d)

-- A loop goes on behind an error, and keeps the first one.
abbrev pub first_of : Option Failure → Option Failure → Option Failure
first_of none e = e
first_of (some e) _ = some e

abbrev pub Loop : Type 0 → Type 0 → Type 0
Loop Src D = Outcome Failure (BufioR Src × D) (Option Failure)

module _ {Src D D' : Type 0} where
  -- the end of a loop, with `err` as what it returns
  abbrev pub end_of : (D → D') → Loop Src D → Result Src D'
  end_of f (ok none (b, d)) = ok tt (b, f d)
  end_of f (ok (some e) (b, d)) = err e (b, f d)
  end_of f (err e (b, d)) = err e (b, f d)
  end_of f panic = panic
  end_of f timeout = timeout

module _ {Src D : Type 0} where
  -- the error of an earlier round, and a change to what the later rounds left
  abbrev pub after : Option Failure → (D → D) → Loop Src D → Loop Src D
  after e f (ok e' (b, d)) = ok (first_of e e') (b, f d)
  after e f (err x (b, d)) = err x (b, f d)
  after e f panic = panic
  after e f timeout = timeout

-- a `[]byte` without elements may be nil, and stays so
bytes_back : {Float : Type 0} → Option Bytes → Vars Float → Var Float
bytes_back o no_vars = bytes_var o
bytes_back o (var v vs) = bytes_var (some (bytes_of (var v vs)))

bytes_or_nil : Option Bytes → Bytes
bytes_or_nil none = []
bytes_or_nil (some p) = p

module _ {Src Float : Type 0} where
  pub element_step :
      Var Float
      → Result Src (Dst Float)
      → (BufioR Src → Loop Src (Vars Float))
      → Loop Src (Vars Float)
  element_step v (ok _ (b, d)) rest = after none (var (element_of v d)) (rest b)
  element_step v (err e (b, d)) rest = after (some e) (var (element_of v d)) (rest b)
  element_step v panic rest = panic
  element_step v timeout rest = timeout

  -- the loop over the first `sz` elements of a slice
  unfoldable pub scan_elements :
      OneOf Src Float → ℕ → Vars Float → BufioR Src → Loop Src (Vars Float)
  unfolding element_step
  scan_elements one zero vs b = ok none (b, vs)
  scan_elements one (suc n) no_vars b = panic
  scan_elements one (suc n) (var v vs) b =
      element_step v (one (element_dst v) b) (scan_elements one n vs)

  -- `b.Scan(key, val)`, with the two variables behind it
  value_step : Var Float → Var Float → Result Src (Dst Float) → Result Src (Var Float × Var Float)
  value_step k vz (ok _ (b, d)) = ok tt (b, (k, variable_or vz d))
  value_step k vz (err e (b, d)) = err e (b, (k, variable_or vz d))
  value_step k vz panic = panic
  value_step k vz timeout = timeout

  key_step :
      OneOf Src Float
      → Var Float
      → Var Float
      → Result Src (Dst Float)
      → Result Src (Var Float × Var Float)
  unfolding value_step
  key_step one kz vz (ok _ (b, d)) = value_step (variable_or kz d) vz (one (pointer vz) b)
  key_step one kz vz (err e (b, d)) = err e (b, (variable_or kz d, vz))
  key_step one kz vz panic = panic
  key_step one kz vz timeout = timeout

  -- The `if` of the loop: `first` is the error of an earlier round.
  pair_step :
      Option Failure
      → Entries Float
      → Result Src (Var Float × Var Float)
      → (Option Failure → Entries Float → BufioR Src → Loop Src (Entries Float))
      → Loop Src (Entries Float)
  pair_step first es (ok _ (b, (k, v))) rest = rest first (add_entry k v es) b
  pair_step none es (err e (b, _)) rest = rest (some e) es b
  pair_step (some x) es (err e (b, (k, v))) rest = rest (some x) (add_entry k v es) b
  pair_step first es panic rest = panic
  pair_step first es timeout rest = timeout

  -- the loop over `n` pairs of a map, whose keys and values have these zero values
  unfoldable pub scan_pairs :
      OneOf Src Float
      → Var Float
      → Var Float
      → ℕ
      → Option Failure
      → Entries Float
      → BufioR Src
      → Loop Src (Entries Float)
  unfolding pair_step key_step
  scan_pairs one kz vz zero first es b = ok first (b, es)
  scan_pairs one kz vz (suc n) first es b =
      pair_step first es (key_step one kz vz (one (pointer kz) b)) (scan_pairs one kz vz n)

  skip_step :
      Result Src (Dst Float) → (BufioR Src → Result Src (Dst Float)) → Result Src (Dst Float)
  skip_step (ok _ (b, _)) rest = rest b
  skip_step (err e (b, _)) rest = err e (b, nil_dst)
  skip_step panic rest = panic
  skip_step timeout rest = timeout

  -- `sz` replies that are skipped
  unfoldable pub skip_items : OneOf Src Float → ℕ → BufioR Src → Result Src (Dst Float)
  unfolding skip_step
  skip_items one zero b = ok tt (b, nil_dst)
  skip_items one (suc n) b = skip_step (one nil_dst b) (skip_items one n)

  -- The elements of a slice, after the slice was made long enough: `z` is the zero value of its elements,
  -- of which the new array must not take too many.
  elements_into :
      Runtime
      → OneOf Src Float
      → ℕ
      → Var Float
      → Vars Float
      → (Vars Float → Var Float)
      → BufioR Src
      → Result Src (Dst Float)
  elements_into rt one sz z vs make b =
      if ltb (count_vars vs) sz && ltb rt.max_alloc (size_of z * sz)
      then panic
      else end_of (λ vs'. pointer (make vs'))
          (scan_elements one sz (add_zeros (sz - count_vars vs) z vs) b)

  pairs_into :
      OneOf Src Float
      → ℕ
      → Var Float
      → Var Float
      → Entries Float
      → Var Float
      → BufioR Src
      → Result Src (Dst Float)
  pairs_into one sz kz vz es old b =
      if sz % 2 == 0
      then end_of (λ es'. pointer (map_var kz vz es')) (scan_pairs one kz vz (sz / 2) none es b)
      else err (cannot_scan (unsupported_array sz)) (b, pointer old)

  array_into : Runtime → OneOf Src Float → ℕ → Var Float → BufioR Src → Result Src (Dst Float)
  unfolding elements_into pairs_into bytes_back bytes_or_nil
  array_into rt one sz (slice_var z vs) b = elements_into rt one sz z vs (slice_var z) b
  array_into rt one sz (bytes_var o) b =
      elements_into rt one sz (uint_var 8 0) (vars_of (bytes_or_nil o)) (bytes_back o) b
  array_into rt one sz (map_var kz vz es) b = pairs_into one sz kz vz es (map_var kz vz es) b
  array_into rt one sz (nil_map_var kz vz) b =
      pairs_into one sz kz vz no_entries (nil_map_var kz vz) b
  array_into rt one sz v b = err (cannot_scan (unsupported_array sz)) (b, pointer v)

  -- `scanArray`
  unfoldable pub scan_array :
      Runtime → OneOf Src Float → ℕ → Dst Float → BufioR Src → Result Src (Dst Float)
  unfolding array_into
  scan_array rt one sz nil_dst b = skip_items one sz b
  scan_array rt one sz not_pointer b = err (cannot_scan not_a_pointer) (b, not_pointer)
  scan_array rt one sz (nil_pointer_to v) b = err (cannot_scan nil_pointer) (b, nil_pointer_to v)
  scan_array rt one sz (pointer v) b = array_into rt one sz v b
