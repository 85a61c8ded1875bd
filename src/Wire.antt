-- ===== src/Wire.antt =====
-- The messages of the protocol as byte strings, independently of the code that prints or reads them.
use redeo.Base.{
  ℕ, suc, ◌+◌, ◌≤◌, ◌≡◌, ◌≢◌, List, [], ◌∷◌, ◌++◌, Bytes, arith, All, length, length-append,
  append_assoc, ap, sym, ◌∙◌,
}
use redeo.Decimal.Scan.{IsDigit, format_nat-IsDigit}
use redeo.Decimal.{format_nat}
use redeo.Errors.{crlf}

-- A line that announces a size, without its CRLF: `*2`, `$5`.
abbrev pub size_text : ℕ → ℕ → Bytes
size_text mark n = mark ∷ format_nat n

abbrev pub size_line : ℕ → ℕ → Bytes
size_line mark n = size_text mark n ++ crlf

-- a bulk with its size
abbrev pub bulk : Bytes → Bytes
bulk p = size_text b'$' (length p) ++ (crlf ++ (p ++ crlf))

abbrev pub bulks : List Bytes → Bytes
bulks [] = []
bulks (p ∷ ps) = bulk p ++ bulks ps

-- a request: an array of bulks, the name first
abbrev pub request : Bytes → List Bytes → Bytes
request name args = size_text b'*' (suc (length args)) ++ (crlf ++ (bulk name ++ bulks args))

pub digits-Lacks : (ds : Bytes) → All IsDigit ds → All (λ x. x ≢ b'\r') ds
digits-Lacks [] all = tt
digits-Lacks (d ∷ ds) (p, all) = (omega arith, digits-Lacks ds all)

-- A size holds no return, so its line ends at its CRLF.
pub size_text-Lacks : (mark n : ℕ) → mark ≢ b'\r' → All (λ x. x ≢ b'\r') (size_text mark n)
size_text-Lacks mark n h = (h, digits-Lacks (format_nat n) (format_nat-IsDigit n))

pub bulk-append :
    (p more : Bytes) → bulk p ++ more ≡ size_text b'$' (length p) ++ (crlf ++ (p ++ (crlf ++ more)))
bulk-append p more = simp append_assoc

pub length-bulk :
    (p : Bytes) → length (bulk p) ≡ length (size_line b'$' (length p)) + (length p + 2)
length-bulk p =
    ap length (sym (append_assoc (size_text b'$' (length p)) crlf (p ++ crlf)))
    ∙ length-append (size_line b'$' (length p)) (p ++ crlf)
    ∙ ap (λ n. length (size_line b'$' (length p)) + n) (length-append p crlf)

pub request-append :
    (name : Bytes) (xs : List Bytes) (more : Bytes)
    → request name xs ++ more
      ≡ size_text b'*' (suc (length xs)) ++ (crlf ++ (bulk name ++ (bulks xs ++ more)))
request-append name xs more = simp append_assoc

-- An argument takes some bytes on the wire.
pub length-le-length-bulks : (xs : List Bytes) → length xs ≤ length (bulks xs)
length-le-length-bulks [] = omega arith
length-le-length-bulks (x ∷ xs) =
    omega (arith, length-append (bulk x) (bulks xs), length-bulk x, length-le-length-bulks xs)

-- A request is longer than its name and than the number of its arguments.
pub le-length-request :
    (name : Bytes) (xs : List Bytes) → length xs + length name + 2 ≤ length (request name xs)
le-length-request name xs = omega (
  arith,
  length-append (size_text b'*' (suc (length xs))) (crlf ++ (bulk name ++ bulks xs)),
  length-append (bulk name) (bulks xs),
  length-bulk name,
  length-le-length-bulks xs,
)
