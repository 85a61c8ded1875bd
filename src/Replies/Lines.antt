-- ===== src/Replies/Lines.antt =====
-- resp/bufio.go: `PeekLine` and `ReadLine` on a line that is buffered up to its CRLF.
use redeo.Base.{
  ℕ, ◌+◌, ◌-◌, ◌≤◌, ◌≡◌, ◌≢◌, refl, ap, sym, ◌∙◌, some, [], ◌∷◌, ◌++◌, Bytes, arith, length, take,
  drop, All, length-append, length-drop, lt→ltb,
}
use mathlib.Core.Path.{ap₂}
use redeo.Base.Slices.{drop-take, drop-drop, take-append_ge}
use redeo.Errors.{crlf}
use redeo.Io.{Runtime, IoReader}
use redeo.Monad.{ok, and_then-ok}
use redeo.Reader.Window.{IsValid, window, advanced, length-window, slice-window, get_elem?-window}
use redeo.Reader.Require.{require_buffered}
use redeo.Reader.{BufioR, slice, index_byte}
use redeo.Replies.{find_return, line_at, peek_byte, peek_line, read_line}

-- no byte `c`
abbrev pub Lacks : ℕ → Bytes → Type 0
Lacks c = All (λ x. x ≢ c)

pub index_byte-append :
    (c : ℕ) (xs ys : Bytes) → Lacks c xs → index_byte (xs ++ c ∷ ys) c ≡ some (length xs)
unfolding index_byte
index_byte-append c [] ys h = ground arith
index_byte-append c (x ∷ xs) ys (ne, h) = ground (arith, index_byte-append c xs ys h)

module _ {Src : Type 0} where
  behind :
      (b : BufioR Src) (o : ℕ) → take (b.w - (b.r + o)) (drop (b.r + o) b.buf) ≡ drop o (window b)
  behind b o =
      ap₂ take (omega arith) (sym (drop-drop b.r o b.buf))
      ∙ sym (drop-take o (b.w - b.r) (drop b.r b.buf))

  line_fits :
      (b : BufioR Src) (o : ℕ) (line more : Bytes)
      → drop o (window b) ≡ line ++ (crlf ++ more)
      → o + (length line + 2) ≤ length (window b)
  line_fits b o line more e =
      omega (arith, ap length e, length-drop o (window b), length-append line (crlf ++ more))

  find_return-window :
      (b : BufioR Src) (o : ℕ) (line more : Bytes)
      → IsValid b
      → drop o (window b) ≡ line ++ (crlf ++ more)
      → Lacks b'\r' line
      → find_return (b.r + o) b ≡ some (length line)
  unfolding find_return
  find_return-window b o line more v e h =
      rw
        (
          lt→ltb (b.r + o) b.w (omega (arith, line_fits b o line more e, length-window b v)),
          behind b o,
          e,
        )
        (index_byte-append b'\r' line (b'\n' ∷ more) h)

module _ (rt : Runtime) (rd : IoReader) where
  open rd use {Src}

  -- The line at `offset`, with its CRLF, is returned, and nothing is read.
  pub peek_line_buffered :
      (b : BufioR Src) (offset : ℕ) (line more : Bytes)
      → IsValid b
      → drop offset (window b) ≡ line ++ (crlf ++ more)
      → Lacks b'\r' line
      → peek_line rt rd offset b ≡ ok (line ++ crlf) b
  unfolding peek_line line_at
  peek_line_buffered b offset line more v e h =
      rw (find_return-window b offset line more v e h) (rw (whole) refl)
    where
      whole : slice (b.r + offset) (b.r + offset + length line + 2) b.buf ≡ some (line ++ crlf)
      whole =
          ap (λ hi. slice (b.r + offset) hi b.buf) (omega arith)
          ∙ slice-window b offset (length line + 2) v (line_fits b offset line more e)
          ∙ ap some (ap (take (length line + 2)) e ∙ take-append_ge 2 line (crlf ++ more))

  -- `ReadLine` moves behind the CRLF.
  pub read_line_buffered :
      (b : BufioR Src) (line more : Bytes)
      → IsValid b
      → window b ≡ line ++ (crlf ++ more)
      → Lacks b'\r' line
      → read_line rt rd b ≡ ok (line ++ crlf) (advanced b (length (line ++ crlf)))
  unfolding read_line
  read_line_buffered b line more v e h = and_then-ok _ (peek_line_buffered b 0 line more v e h) refl

  -- `PeekByte` where a byte is buffered
  pub peek_byte_buffered :
      (b : BufioR Src) {x : ℕ} {ys : Bytes}
      → IsValid b
      → window b ≡ x ∷ ys
      → peek_byte rt rd b ≡ ok x b
  unfolding peek_byte
  peek_byte_buffered b v e =
      and_then-ok _ (require_buffered rt rd b 1 v (omega (arith, ap length e)))
        (rw (get_elem?-window b e))
