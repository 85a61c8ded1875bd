-- ===== src/Value/Output.antt =====
-- resp/value.go: the bytes that a value prints to.
use redeo.Base.{ℕ, ◌*◌, Bool, true, false, [], ◌∷◌, ◌++◌, Bytes}
use redeo.Base.Int.{ℤ, pos, signed}
use redeo.Decimal.{format_int}
use redeo.Errors.{crlf, bin_nil}
use redeo.Io.{Runtime}
use redeo.Value.{
  GoValue, nil_value, custom, error_value, bool, int, uint, bulk_string, byte_slice, float,
  slice_value, map_value, unsupported, Elements, no_elements, element, Pairs, no_pairs, key_value,
  error_text, count_elements, count_pairs, append_bool, append_value, append_elements, append_pairs,
}
use redeo.Wire.{size_line, bulk}
use redeo.Writer.{BufioW, append_nil}
use redeo.Writer.Output.{
  Appends, Appends-nil, Appends-append, append-Appends, append_array_len-Appends,
  append_bulk-Appends, append_inline-Appends, append_error-Appends, append_int-Appends,
}

abbrev pub number : Bool → ℤ
number true = pos 1
number false = pos 0

abbrev pub line : ℕ → Bytes → Bytes
line mark text = mark ∷ text ++ crlf

-- The wire form of a value; an `AppendTo` of the value's own is taken to print nothing.
abbrev mutual
  pub shown : {Snk : Type 0} → GoValue Snk → Bytes
  shown nil_value = bin_nil
  shown (custom append_to) = []
  shown (error_value msg) = line b'-' (error_text msg)
  shown (bool b) = line b':' (format_int (number b))
  shown (int n) = line b':' (format_int n)
  shown (uint n) = line b':' (format_int (signed n))
  shown (bulk_string p) = bulk p
  shown (byte_slice p) = bulk p
  shown (float text) = line b'+' text
  shown (slice_value vs) = size_line b'*' (count_elements vs) ++ shown_elements vs
  shown (map_value ps) = size_line b'*' (count_pairs ps * 2) ++ shown_pairs ps
  shown (unsupported name) = []

  pub shown_elements : {Snk : Type 0} → Elements Snk → Bytes
  shown_elements no_elements = []
  shown_elements (element v vs) = shown v ++ shown_elements vs

  pub shown_pairs : {Snk : Type 0} → Pairs Snk → Bytes
  shown_pairs no_pairs = []
  shown_pairs (key_value k v ps) = shown k ++ (shown v ++ shown_pairs ps)

-- No part of the value prints itself.
abbrev mutual
  pub IsStandard : {Snk : Type 0} → GoValue Snk → Type 0
  IsStandard nil_value = Unit
  IsStandard (custom append_to) = ⊥
  IsStandard (error_value msg) = Unit
  IsStandard (bool b) = Unit
  IsStandard (int n) = Unit
  IsStandard (uint n) = Unit
  IsStandard (bulk_string p) = Unit
  IsStandard (byte_slice p) = Unit
  IsStandard (float text) = Unit
  IsStandard (slice_value vs) = AreStandard vs
  IsStandard (map_value ps) = PairsAreStandard ps
  IsStandard (unsupported name) = Unit

  pub AreStandard : {Snk : Type 0} → Elements Snk → Type 0
  AreStandard no_elements = Unit
  AreStandard (element v vs) = IsStandard v × AreStandard vs

  pub PairsAreStandard : {Snk : Type 0} → Pairs Snk → Type 0
  PairsAreStandard no_pairs = Unit
  PairsAreStandard (key_value k v ps) = IsStandard k × IsStandard v × PairsAreStandard ps

append_bool-Appends :
    {Snk : Type 0} (rt : Runtime) (b : Bool) (w : BufioW Snk)
    → Appends (line b':' (format_int (number b))) w (append_bool rt b w)
unfolding append_bool
append_bool-Appends rt true w = append_int-Appends rt (pos 1) w
append_bool-Appends rt false w = append_int-Appends rt (pos 0) w

mutual
  unfolding append_value append_elements append_pairs append_nil

  value_lem :
      {Snk : Type 0} (rt : Runtime) (v : GoValue Snk) (w : BufioW Snk)
      → IsStandard v
      → Appends (shown v) w (append_value rt v w)
  value_lem rt nil_value w s = append-Appends rt bin_nil w
  value_lem rt (custom append_to) w s = absurd s
  value_lem rt (error_value msg) w s = append_error-Appends rt (error_text msg) w
  value_lem rt (bool b) w s = append_bool-Appends rt b w
  value_lem rt (int n) w s = append_int-Appends rt n w
  value_lem rt (uint n) w s = append_int-Appends rt (signed n) w
  value_lem rt (bulk_string p) w s = append_bulk-Appends rt p w
  value_lem rt (byte_slice p) w s = append_bulk-Appends rt p w
  value_lem rt (float text) w s = append_inline-Appends rt text w
  value_lem rt (slice_value vs) w s =
      Appends-append (size_line b'*' (count_elements vs)) (shown_elements vs)
        (append_array_len-Appends rt (count_elements vs) w) (elements_lem rt vs _ s)
  value_lem rt (map_value ps) w s =
      Appends-append (size_line b'*' (count_pairs ps * 2)) (shown_pairs ps)
        (append_array_len-Appends rt (count_pairs ps * 2) w) (pairs_lem rt ps _ s)
  value_lem rt (unsupported name) w s = Appends-nil w

  elements_lem :
      {Snk : Type 0} (rt : Runtime) (vs : Elements Snk) (w : BufioW Snk)
      → AreStandard vs
      → Appends (shown_elements vs) w (append_elements rt vs w)
  elements_lem rt no_elements w s = Appends-nil w
  elements_lem rt (element v vs) w (s, t) =
      Appends-append (shown v) (shown_elements vs) (value_lem rt v w s) (elements_lem rt vs _ t)

  pairs_lem :
      {Snk : Type 0} (rt : Runtime) (ps : Pairs Snk) (w : BufioW Snk)
      → PairsAreStandard ps
      → Appends (shown_pairs ps) w (append_pairs rt ps w)
  pairs_lem rt no_pairs w s = Appends-nil w
  pairs_lem rt (key_value k v ps) w (s, t, u) =
      Appends-append (shown k) (shown v ++ shown_pairs ps) (value_lem rt k w s)
        (Appends-append (shown v) (shown_pairs ps) (value_lem rt v _ t) (pairs_lem rt ps _ u))

pub append_value-Appends :
    {Snk : Type 0} (rt : Runtime) (v : GoValue Snk) (w : BufioW Snk)
    → IsStandard v
    → Appends (shown v) w (append_value rt v w)
append_value-Appends rt v w s = value_lem rt v w s

pub append_elements-Appends :
    {Snk : Type 0} (rt : Runtime) (vs : Elements Snk) (w : BufioW Snk)
    → AreStandard vs
    → Appends (shown_elements vs) w (append_elements rt vs w)
append_elements-Appends rt vs w s = elements_lem rt vs w s
