-- ===== src/Line.antt =====
-- resp/bufio.go: `bufioLn`, a line of the protocol with its CRLF, and its parsers.
pub mod Trim
pub mod Numbers
pub mod Messages
use redeo.Base.{
  ℕ, zero, suc, ◌+◌, ◌-◌, ◌*◌, ◌%◌, Bool, true, false, not, ◌&&◌, ◌||◌, Option, none, some, [], ◌∷◌,
  Bytes, codes, ltb, leb, ◌==◌, if◌then◌else◌, length, get_or, take, drop,
}
use redeo.Base.Int.{ℤ, pos, negsuc, two63, two64, signed, neg64}
use redeo.Errors.{Error, expected, not_a_number}

-- A parser returns its value or an error; it keeps no state.
pub data Parsed (A : Type 0) : Type 0 where
  value : A → Parsed A
  error : Error → Parsed A

-- The table `asciiSpace` of util.go: tab, newline, vertical tab, form feed, return and blank.
unfoldable pub ascii_space : ℕ → Bool
ascii_space c = (leb 9 c && leb c 13) || c == b' '

-- the loop of `Trim`: the length of the line without the blanks at its end
trim_from : Bytes → ℕ → ℕ
unfolding ascii_space
trim_from ln zero = zero
trim_from ln (suc n) =
    let shorter = trim_from ln n in if not (ascii_space (get_or ln n 0)) then suc n else shorter

unfoldable pub trim : Bytes → Bytes
unfolding trim_from
trim ln = take (trim_from ln (length ln)) ln

-- the loop of `FirstWord` at byte `i`; the flag is `inWord`
first_word_from : Bytes → Bytes → ℕ → ℕ → Bool → Bytes
unfolding ascii_space
first_word_from line [] i offset in_word = drop offset line
first_word_from line (c ∷ cs) i offset in_word =
    let outside = first_word_from line cs (i + 1) offset false in
    let inside = first_word_from line cs (i + 1) (if not in_word then i else offset) true in
    if ascii_space c
    then (if in_word then take (i - offset) (drop offset line) else outside)
    else inside

unfoldable pub first_word : Bytes → Bytes
unfolding first_word_from trim
first_word ln = let line = trim ln in first_word_from line line 0 0 false

abbrev pub is_digit : ℕ → Bool
is_digit c = leb b'0' c && leb c b'9'

-- The loop of `ParseInt` over `data[1:]`. The number `n` is an int64 that wraps, so the model keeps
-- its bit pattern; the flags are `i == 0` and `m == -1`.
parse_digits : Bytes → Bool → ℕ → Bool → Parsed ℤ
parse_digits [] first n minus = value (if minus then neg64 (signed n) else signed n)
parse_digits (c ∷ cs) first n minus =
    let digit = parse_digits cs false ((n * 10 + (c - b'0')) % two64) minus in
    let sign = parse_digits cs false n true in
    if is_digit c then digit else if c == b'-' && first then sign else error not_a_number

parse_int_of : Bytes → Parsed ℤ
unfolding parse_digits
parse_int_of [] = error (expected b':' none)
parse_int_of (c ∷ []) = error (expected b':' none)
parse_int_of (c ∷ cs) =
    if not (c == b':') then error (expected b':' (some c)) else parse_digits cs true 0 false

-- `ParseInt`
unfoldable pub parse_int : Bytes → Parsed ℤ
unfolding parse_int_of trim
parse_int ln = parse_int_of (trim ln)

parse_message_of : Bytes → ℕ → Parsed Bytes
parse_message_of [] prefix = error (expected prefix none)
parse_message_of (c ∷ cs) prefix =
    if not (c == prefix) then error (expected prefix (some c)) else value cs

-- `ParseMessage`
unfoldable pub parse_message : Bytes → ℕ → Parsed Bytes
unfolding parse_message_of trim
parse_message ln prefix = parse_message_of (trim ln) prefix

-- The loop of `ParseSize` and the test `n < 0` behind it, on the bit pattern of `n`.
parse_size_digits : Bytes → ℕ → Error → Parsed ℕ
parse_size_digits [] n fallback = if leb two63 n then error fallback else value n
parse_size_digits (c ∷ cs) n fallback =
    let digit = parse_size_digits cs ((n * 10 + (c - b'0')) % two64) fallback in
    if is_digit c then digit else error fallback

parse_size_of : Bytes → ℕ → Error → Parsed ℕ
unfolding parse_size_digits
parse_size_of [] prefix fallback = error (expected prefix none)
parse_size_of (c ∷ []) prefix fallback =
    if not (c == prefix) then error (expected prefix (some c)) else error fallback
parse_size_of (c ∷ cs) prefix fallback =
    if not (c == prefix) then error (expected prefix (some c)) else parse_size_digits cs 0 fallback

-- `ParseSize`: what it returns is never negative.
unfoldable pub parse_size : Bytes → ℕ → Error → Parsed ℕ
unfolding parse_size_of trim
parse_size ln prefix fallback = parse_size_of (trim ln) prefix fallback
