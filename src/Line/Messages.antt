-- ===== src/Line/Messages.antt =====
-- resp/bufio.go: `ParseMessage` on a line that holds one message.
use redeo.Base.{ℕ, ◌≡◌, refl, false, [], ◌∷◌, ◌++◌, Bytes, arith}
use redeo.Errors.{crlf}
use redeo.Line.Trim.{EndsInWord, empty, ends, trim-blanks}
use redeo.Line.{parse_message, parse_message_of, ascii_space, value}

EndsInWord-cons :
    (c : ℕ) (msg : Bytes) → ascii_space c ≡ false → EndsInWord msg → EndsInWord (c ∷ msg)
EndsInWord-cons c _ h empty = ends [] c h
EndsInWord-cons c _ h (ends xs d k) = ends (c ∷ xs) d k

-- A mark that is no blank is taken off, and the CRLF.
pub parse_message-line :
    (c : ℕ) (msg : Bytes)
    → ascii_space c ≡ false
    → EndsInWord msg
    → parse_message (c ∷ msg ++ crlf) c ≡ value msg
unfolding parse_message parse_message_of
parse_message-line c msg h w =
    rw
      (trim-blanks (c ∷ msg) crlf (EndsInWord-cons c msg h w)
        (unfold ascii_space in (refl, (refl, tt))))
      (ground arith)
