-- ===== src/Value.antt =====
-- resp/value.go: `Append`, which writes a value of any type.
pub mod Output
use redeo.Base.{
  ℕ, zero, suc, ◌+◌, ◌*◌, Bool, true, false, ◌&&◌, Option, none, some, [], ◌∷◌, ◌++◌, Bytes, codes,
  ◌==◌, if◌then◌else◌,
}
use redeo.Base.Int.{ℤ, pos, signed}
use redeo.Io.{Runtime}
use redeo.Writer.{
  BufioW, append_array_len, append_bulk, append_inline, append_error, append_int, append_nil,
}

-- A constructor stands for the first case of the source that the value's type matches. `int` is any
-- signed integer and `uint` any unsigned one, at each width; `bulk_string` is a `string`, and
-- `byte_slice` a `[]byte` or a `CommandArgument`. A float is given by the text that
-- `strconv.FormatFloat` prints for it, a map by its pairs in the order of `MapKeys`, and a value of
-- any other kind by its type's name.
mutual
  pub data GoValue (Snk : Type 0) : Type 0 where
    nil_value : GoValue Snk
    custom : (BufioW Snk → BufioW Snk) → GoValue Snk
    error_value : Bytes → GoValue Snk
    bool : Bool → GoValue Snk
    int : ℤ → GoValue Snk
    uint : ℕ → GoValue Snk
    bulk_string : Bytes → GoValue Snk
    byte_slice : Bytes → GoValue Snk
    float : Bytes → GoValue Snk
    slice_value : Elements Snk → GoValue Snk
    map_value : Pairs Snk → GoValue Snk
    unsupported : Bytes → GoValue Snk

  pub data Elements (Snk : Type 0) : Type 0 where
    no_elements : Elements Snk
    element : GoValue Snk → Elements Snk → Elements Snk

  pub data Pairs (Snk : Type 0) : Type 0 where
    no_pairs : Pairs Snk
    key_value : GoValue Snk → GoValue Snk → Pairs Snk → Pairs Snk

-- `strings.HasPrefix`
abbrev pub has_prefix : Bytes → Bytes → Bool
has_prefix _ [] = true
has_prefix [] (_ ∷ _) = false
has_prefix (x ∷ xs) (y ∷ ys) = x == y && has_prefix xs ys

unfoldable pub error_text : Bytes → Bytes
error_text msg = if has_prefix msg (codes "ERR ") then msg else codes "ERR " ++ msg

module _ {Snk : Type 0} where
  -- `s.Len()`
  abbrev pub count_elements : Elements Snk → ℕ
  count_elements no_elements = 0
  count_elements (element v vs) = suc (count_elements vs)

  abbrev pub count_pairs : Pairs Snk → ℕ
  count_pairs no_pairs = 0
  count_pairs (key_value k v ps) = suc (count_pairs ps)

  -- The error of `Append`, where it is not nil. An element's own error is dropped.
  unfoldable pub append_value_error : GoValue Snk → Option Bytes
  append_value_error (unsupported name) = some (codes "resp: unsupported type " ++ name)
  append_value_error _ = none

  pub append_bool : Runtime → Bool → BufioW Snk → BufioW Snk
  append_bool rt true w = append_int rt (pos 1) w
  append_bool rt false w = append_int rt (pos 0) w

unfoldable mutual
  unfolding append_bool error_text

  -- What `Append` does to the writer.
  pub append_value : {Snk : Type 0} → Runtime → GoValue Snk → BufioW Snk → BufioW Snk
  append_value rt nil_value w = append_nil rt w
  append_value rt (custom append_to) w = append_to w
  append_value rt (error_value msg) w = append_error rt (error_text msg) w
  append_value rt (bool b) w = append_bool rt b w
  append_value rt (int n) w = append_int rt n w
  append_value rt (uint n) w = append_int rt (signed n) w
  append_value rt (bulk_string p) w = append_bulk rt p w
  append_value rt (byte_slice p) w = append_bulk rt p w
  append_value rt (float text) w = append_inline rt text w
  append_value rt (slice_value vs) w =
      append_elements rt vs (append_array_len rt (pos (count_elements vs)) w)
  append_value rt (map_value ps) w =
      append_pairs rt ps (append_array_len rt (pos (count_pairs ps * 2)) w)
  append_value rt (unsupported name) w = w

  pub append_elements : {Snk : Type 0} → Runtime → Elements Snk → BufioW Snk → BufioW Snk
  append_elements rt no_elements w = w
  append_elements rt (element v vs) w = append_elements rt vs (append_value rt v w)

  pub append_pairs : {Snk : Type 0} → Runtime → Pairs Snk → BufioW Snk → BufioW Snk
  append_pairs rt no_pairs w = w
  append_pairs rt (key_value k v ps) w =
      append_pairs rt ps (append_value rt v (append_value rt k w))
