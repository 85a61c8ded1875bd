-- ===== src/Scan/Assign.antt =====
-- resp/scan.go: `scanNil`, `scanString`, `scanInt`, `scanValue` and `assignBytes`, which put one value
-- into a variable. `strconv.ParseFloat` and the conversions to a float are parameters.
use redeo.Base.{
  ℕ, zero, suc, ◌+◌, ◌-◌, ◌*◌, ◌%◌, ◌^◌, Bool, true, false, not, ◌&&◌, ◌||◌, Option, none, some, [],
  ◌∷◌, Bytes, codes, map, ltb, leb, ◌==◌, if◌then◌else◌,
}
use redeo.Base.Int.{ℤ, pos, negsuc, word}
use redeo.Decimal.{format_int}
use redeo.Replies.{equal}
use redeo.Scan.Variables.{
  any_nil, any_string, any_int, Var, string_var, bytes_var, bool_var, int_var, uint_var, float_var,
  any_var, named_string, named_int64, Dst, nil_dst, not_pointer, nil_pointer_to, pointer,
}

-- `float32` and `float64` by their widths
pub record Floats : Type 1 where
  pub Float : Type 0
  pub parse_float : ℕ → Bytes → Option Float
  pub of_int : ℕ → ℤ → Float

-- the messages of `scanErrf`
pub data Reason : Type 0 where
  nil_pointer not_a_pointer unsupported_value : Reason
  unsupported_array : ℕ → Reason

pub data Assigned (Float : Type 0) : Type 0 where
  assigned : Dst Float → Assigned Float
  refused : Reason → Assigned Float

-- the digits of a number, or nothing; `strconv` takes no empty text
digits_from : ℕ → Bytes → Option ℕ
digits_from n [] = some n
digits_from n (c ∷ cs) =
    let rest = digits_from (n * 10 + (c - b'0')) cs in
    if leb b'0' c && leb c b'9' then rest else none

natural : Bytes → Option ℕ
unfolding digits_from
natural [] = none
natural (c ∷ cs) = digits_from 0 (c ∷ cs)

-- `strconv.ParseUint(src, 10, w)`
unfoldable pub parse_uint_text : ℕ → Bytes → Option ℕ
unfolding natural
parse_uint_text w src = elim (natural src) [
  | none ↦ none
  | some n ↦ if ltb n (2 ^ w) then some n else none
]

positive : ℕ → Option ℕ → Option ℤ
positive w none = none
positive w (some n) = if ltb n (2 ^ (w - 1)) then some (pos n) else none

negative : ℕ → Option ℕ → Option ℤ
negative w none = none
negative w (some zero) = some (pos 0)
negative w (some (suc n)) = if ltb n (2 ^ (w - 1)) then some (negsuc n) else none

-- `strconv.ParseInt(src, 10, w)`
unfoldable pub parse_int_text : ℕ → Bytes → Option ℤ
unfolding natural positive negative
parse_int_text w [] = none
parse_int_text w (c ∷ cs) =
    if c == b'-'
    then negative w (natural cs)
    else if c == b'+'
    then positive w (natural cs)
    else positive w (natural (c ∷ cs))

-- a conversion to an integer of `w` bits
unfoldable pub to_int : ℕ → ℤ → ℤ
to_int w z = let p = word z % 2 ^ w in if ltb p (2 ^ (w - 1)) then pos p else negsuc (2 ^ w - p - 1)

unfoldable pub to_uint : ℕ → ℤ → ℕ
to_uint w z = word z % 2 ^ w

-- `strings.ToUpper(src) == "OK"`
upper : ℕ → ℕ
upper c = if leb b'a' c && leb c b'z' then c - 32 else c

is_ok : Bytes → Bool
unfolding upper
is_ok src = equal (map upper src) (codes "OK")

module _ (fl : Floats) where
  open fl use {Float, parse_float, of_int}

  -- `*v = …` where there is a value
  store : {A : Type 0} → (A → Var Float) → Option A → Assigned Float
  store make none = refused unsupported_value
  store make (some a) = assigned (pointer (make a))

  -- `scanValue` of a string, an int64 and nil. An empty interface takes any value but nil, and a
  -- defined type a value of its kind.
  unfoldable pub string_value : Bytes → Var Float → Assigned Float
  string_value src (any_var _) = assigned (pointer (any_var (any_string src)))
  string_value src (named_string _) = assigned (pointer (named_string src))
  string_value src _ = refused unsupported_value

  unfoldable pub value_of_int : ℤ → Var Float → Assigned Float
  value_of_int src (any_var _) = assigned (pointer (any_var (any_int src)))
  value_of_int src (named_int64 _) = assigned (pointer (named_int64 src))
  value_of_int src _ = refused unsupported_value

  nil_into : Var Float → Assigned Float
  nil_into (any_var _) = assigned (pointer (any_var any_nil))
  nil_into (bytes_var _) = assigned (pointer (bytes_var none))
  nil_into _ = refused unsupported_value

  -- `scanNil`
  unfoldable pub scan_nil : Dst Float → Assigned Float
  unfolding nil_into
  scan_nil nil_dst = assigned nil_dst
  scan_nil (pointer v) = nil_into v
  scan_nil not_pointer = refused not_a_pointer
  scan_nil (nil_pointer_to _) = refused nil_pointer

  bool_text : Bytes → Option Bool
  unfolding is_ok
  bool_text src =
      if equal src (codes "1") || equal src (codes "0") || is_ok src
      then some (not (equal src (codes "0")))
      else none

  string_into : Bytes → Var Float → Assigned Float
  unfolding store bool_text string_value
  string_into src (string_var _) = assigned (pointer (string_var src))
  string_into src (bytes_var _) = assigned (pointer (bytes_var (some src)))
  string_into src (bool_var _) = store bool_var (bool_text src)
  string_into src (int_var w _) = store (int_var w) (parse_int_text w src)
  string_into src (uint_var w _) = store (uint_var w) (parse_uint_text w src)
  string_into src (float_var w _) = store (float_var w) (parse_float w src)
  string_into src v = string_value src v

  -- `scanString`
  unfoldable pub scan_string : Bytes → Dst Float → Assigned Float
  unfolding string_into
  scan_string src nil_dst = assigned nil_dst
  scan_string src (pointer v) = string_into src v
  scan_string src not_pointer = refused not_a_pointer
  scan_string src (nil_pointer_to _) = refused nil_pointer

  bool_number : ℤ → Option Bool
  bool_number (pos zero) = some false
  bool_number (pos (suc zero)) = some true
  bool_number _ = none

  int_into : ℤ → Var Float → Assigned Float
  unfolding store bool_number value_of_int
  int_into src (string_var _) = assigned (pointer (string_var (format_int src)))
  int_into src (bytes_var _) = assigned (pointer (bytes_var (some (format_int src))))
  int_into src (bool_var _) = store bool_var (bool_number src)
  int_into src (int_var w _) = assigned (pointer (int_var w (to_int w src)))
  int_into src (uint_var w _) = assigned (pointer (uint_var w (to_uint w src)))
  int_into src (float_var w _) = assigned (pointer (float_var w (of_int w src)))
  int_into src v = value_of_int src v

  -- `scanInt`
  unfoldable pub scan_int : ℤ → Dst Float → Assigned Float
  unfolding int_into
  scan_int src nil_dst = assigned nil_dst
  scan_int src (pointer v) = int_into src v
  scan_int src not_pointer = refused not_a_pointer
  scan_int src (nil_pointer_to _) = refused nil_pointer

  -- `assignBytes` of what `ReadBulk(nil)` gave, which is nil for an empty bulk
  unfoldable pub assign_bytes : Bytes → Dst Float → Assigned Float
  assign_bytes [] (pointer _) = assigned (pointer (bytes_var none))
  assign_bytes (c ∷ cs) (pointer _) = assigned (pointer (bytes_var (some (c ∷ cs))))
  assign_bytes _ _ = refused not_a_pointer
