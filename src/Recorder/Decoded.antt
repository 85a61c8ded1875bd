-- ===== src/Recorder/Decoded.antt =====
-- resp/value.go and redeotest/redeotest.go: the values that `parseResult` can read back.
use redeo.Base.{ℕ, zero, suc, ◌*◌, ◌≤◌, ◌<◌, Bytes}
use redeo.Base.Int.{signed, IsInt64, two63, two64}
use redeo.Io.{Runtime}
use redeo.Line.Trim.{EndsInWord}
use redeo.Recorder.{
  Item, nothing, text, failure, items, Items, no_items, item, parse_items, parse_array, parse_typed,
  parse_result,
}
use redeo.Recorder as Recorder
use redeo.Replies.Lines.{Lacks}
use redeo.Value.Output.{number}
use redeo.Value.{
  GoValue, nil_value, custom, error_value, bool, int, uint, bulk_string, byte_slice, float,
  slice_value, map_value, unsupported, Elements, no_elements, element, Pairs, no_pairs, key_value,
  error_text, count_elements, count_pairs,
}

-- What a value is read back as.
abbrev mutual
  pub decoded : {Snk : Type 0} → GoValue Snk → Item
  decoded nil_value = nothing
  decoded (custom append_to) = nothing
  decoded (error_value msg) = failure (error_text msg)
  decoded (bool b) = Recorder.number (number b)
  decoded (int n) = Recorder.number n
  decoded (uint n) = Recorder.number (signed n)
  decoded (bulk_string p) = text p
  decoded (byte_slice p) = text p
  decoded (float t) = text t
  decoded (slice_value vs) = items (decoded_elements vs)
  decoded (map_value ps) = items (decoded_pairs ps)
  decoded (unsupported name) = nothing

  pub decoded_elements : {Snk : Type 0} → Elements Snk → Items
  decoded_elements no_elements = no_items
  decoded_elements (element v vs) = item (decoded v) (decoded_elements vs)

  pub decoded_pairs : {Snk : Type 0} → Pairs Snk → Items
  decoded_pairs no_pairs = no_items
  decoded_pairs (key_value k v ps) = item (decoded k) (item (decoded v) (decoded_pairs ps))

-- A text that a line can carry.
abbrev pub IsLine : Bytes → Type 0
IsLine msg = Lacks b'\r' msg × EndsInWord msg

-- an array of `n` entries that the parser can allocate
abbrev pub IsAllocatable : Runtime → ℕ → Type 0
IsAllocatable rt n = (16 * n ≤ rt.max_alloc) × (n < two63)

-- The values that can be read back: they print in a standard way, with texts that a line can carry,
-- integers in the range of their types, and arrays that can be allocated, nested `d` deep at most.
abbrev mutual
  pub IsReadable : {Snk : Type 0} → Runtime → ℕ → GoValue Snk → Type 0
  IsReadable rt d nil_value = Unit
  IsReadable rt d (custom append_to) = ⊥
  IsReadable rt d (error_value msg) = IsLine (error_text msg)
  IsReadable rt d (bool b) = Unit
  IsReadable rt d (int n) = IsInt64 n
  IsReadable rt d (uint n) = n < two64
  IsReadable rt d (bulk_string p) = Unit
  IsReadable rt d (byte_slice p) = Unit
  IsReadable rt d (float t) = IsLine t
  IsReadable rt zero (slice_value vs) = ⊥
  IsReadable rt (suc d) (slice_value vs) =
      IsAllocatable rt (count_elements vs) × AreReadable rt d vs
  IsReadable rt zero (map_value ps) = ⊥
  IsReadable rt (suc d) (map_value ps) =
      IsAllocatable rt (count_pairs ps * 2) × PairsAreReadable rt d ps
  IsReadable rt d (unsupported name) = ⊥

  pub AreReadable : {Snk : Type 0} → Runtime → ℕ → Elements Snk → Type 0
  AreReadable rt d no_elements = Unit
  AreReadable rt d (element v vs) = IsReadable rt d v × AreReadable rt d vs

  pub PairsAreReadable : {Snk : Type 0} → Runtime → ℕ → Pairs Snk → Type 0
  PairsAreReadable rt d no_pairs = Unit
  PairsAreReadable rt d (key_value k v ps) =
      IsReadable rt d k × IsReadable rt d v × PairsAreReadable rt d ps
