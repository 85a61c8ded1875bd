-- ===== src/Argument.antt =====
-- resp/util.go: `appendArgument`, which takes one argument off an inline command.
pub mod Quoting
pub mod Progress
use redeo.Base.{
  ℕ, zero, suc, ◌+◌, ◌-◌, ◌*◌, Bool, true, false, ◌&&◌, ◌||◌, [], ◌∷◌, ◌++◌, Bytes, codes, leb,
  ◌==◌, if◌then◌else◌, ◌≡◌, refl,
}
use redeo.Line.{ascii_space}

-- `inQ` and `inSQ`, which are never both set
pub data Mode : Type 0 where
  plain in_quotes in_single_quotes : Mode

unfoldable pub is_hex_char : ℕ → Bool
is_hex_char c =
    (leb b'0' c && leb c b'9') || (leb b'a' c && leb c b'f') || (leb b'A' c && leb c b'F')

unfoldable pub from_hex_char : ℕ → ℕ
from_hex_char c =
    if leb b'0' c && leb c b'9'
    then c - b'0'
    else if leb b'a' c && leb c b'f'
    then c - b'a' + 10
    else if leb b'A' c && leb c b'F'
    then c - b'A' + 10
    else 0

-- the `switch` on the byte behind a backslash
unescape : ℕ → ℕ
unescape p =
    if p == b'n'
    then b'\n'
    else if p == b'r'
    then b'\r'
    else if p == b't'
    then b'\t'
    else if p == b'b'
    then 8
    else if p == b'a'
    then 7
    else p

-- Behind a backslash: the byte that is meant, and how many more bytes of the text belong to it. The
-- two halves of `<<4 |` have no bit in common.
escaped : Bytes → ℕ × ℕ
unfolding is_hex_char from_hex_char unescape
escaped [] = (b'\\', 0)
escaped (x ∷ h ∷ l ∷ _) =
    if x == b'x' && (is_hex_char h && is_hex_char l)
    then (from_hex_char h * 16 + from_hex_char l, 3)
    else (unescape x, 1)
escaped (x ∷ _) = (unescape x, 1)

quoted_byte : ℕ → Bytes → ℕ × ℕ
unfolding escaped
quoted_byte p rest = if p == b'\\' then escaped rest else (p, 0)

-- the end of an unquoted argument
is_blank : ℕ → Bool
is_blank p = p == b' ' || (p == b'\n' || (p == b'\r' || p == b'\t'))

is_empty : Bytes → Bool
is_empty [] = true
is_empty (_ ∷ _) = false

-- `MainLoop` over the bytes from `pos` on; the second argument counts bytes that an escape has taken
-- already. The result is `dst` and `pos`.
main_loop : Bytes → ℕ → Mode → Bytes → ℕ → Bytes × ℕ
unfolding quoted_byte is_blank is_empty
main_loop [] taken mode dst pos = (dst, pos)
main_loop (p ∷ rest) (suc taken) mode dst pos = main_loop rest taken mode dst (pos + 1)
main_loop (p ∷ rest) zero in_quotes dst pos =
    let q = quoted_byte p rest in
    let next = main_loop rest q.1 in_quotes (dst ++ q.0 ∷ []) (pos + 1) in
    if p == b'"' then (dst, pos + 1) else next
main_loop (p ∷ rest) zero in_single_quotes dst pos =
    let next = main_loop rest zero in_single_quotes (dst ++ p ∷ []) (pos + 1) in
    if p == b'\'' then (dst, pos + 1) else next
main_loop (p ∷ rest) zero plain dst pos =
    let open_quotes = main_loop rest zero in_quotes dst (pos + 1) in
    let open_single = main_loop rest zero in_single_quotes dst (pos + 1) in
    let next = main_loop rest zero plain (dst ++ p ∷ []) (pos + 1) in
    if is_blank p
    then (dst, pos)
    else if p == b'"'
    then (if is_empty dst then open_quotes else (dst, pos))
    else if p == b'\''
    then (if is_empty dst then open_single else (dst, pos))
    else next

-- the loop over the initial blanks, then `MainLoop`
append_from : Bytes → Bytes → ℕ → Bytes × ℕ
unfolding main_loop ascii_space
append_from dst [] pos = (dst, pos)
append_from dst (c ∷ cs) pos =
    let skipped = append_from dst cs (pos + 1) in
    if ascii_space c then skipped else main_loop (c ∷ cs) zero plain dst pos

-- `appendArgument(dst, src)`: the argument, and how many bytes of `src` it took
unfoldable pub append_argument : Bytes → Bytes → Bytes × ℕ
unfolding append_from
append_argument dst src = append_from dst src 0

quotes : append_argument [] (codes " \"double \\x71uotes\" x") ≡ (codes "double quotes", 19)
unfolding append_argument
quotes = refl
