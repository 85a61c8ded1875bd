-- ===== src/Replies/RoundTrip.antt =====
-- resp/bufio.go: the replies of `bufioW` as input of `bufioR`.
use redeo.Base.{◌≡◌, ap, sym, ◌∙◌, [], ◌∷◌, ◌++◌, Bytes, length}
use redeo.Base.Int.{ℤ, IsInt64}
use redeo.Decimal.{format_int}
use redeo.Errors.{Error, crlf, bin_nil}
use redeo.Io.{Runtime, IoReader}
use redeo.Line.Trim.{EndsInWord}
use redeo.Monad.{Outcome, ok}
use redeo.Reader.Window.{IsValid, window, advanced}
use redeo.Reader.{BufioR}
use redeo.Replies.Buffered.{
  read_int_buffered, read_error_buffered, read_inline_string_buffered, read_nil_buffered,
}
use redeo.Replies.Lines.{Lacks}
use redeo.Replies.{read_int, read_error, read_inline_string, read_nil}
use redeo.Writer.Output.{
  Appends, append-Appends, append_int-Appends, append_inline-Appends, append_error-Appends,
}
use redeo.Writer.{BufioW, append, append_int, append_inline, append_error, append_nil}

module _ (rt : Runtime) (rd : IoReader) {Snk : Type 0} (w : BufioW Snk) (b : BufioR rd.Src)
    (more : Bytes) (idle : w.buf ≡ []) (v : IsValid b) where
  -- A buffered line that a writer printed, and the place behind it.
  line_of :
      {A : Type 0} (a : A) (line : Bytes) (w' : BufioW Snk)
      → Appends line w w'
      → window b ≡ w'.buf ++ more
      → (window b ≡ line ++ more)
        × (◌≡◌ {A = Outcome Error (BufioR rd.Src) A}
            (ok a (advanced b (length line)))
            (ok a (advanced b (length w'.buf))))
  line_of a line w' p e =
      let written : w'.buf ≡ line = p.buf_eq ∙ ap (λ l. l ++ line) idle in
      (e ∙ ap (λ l. l ++ more) written, ap (λ l. ok a (advanced b (length l))) (sym written))

  -- `ReadInt` on a valid reader that holds what `AppendInt` put into an empty writer for an int64,
  -- with anything behind it, returns that number and stops behind it.
  pub read_int-append_int :
      (z : ℤ)
      → IsInt64 z
      → window b ≡ (append_int rt z w).buf ++ more
      → read_int rt rd b ≡ ok z (advanced b (length (append_int rt z w).buf))
  read_int-append_int z h e =
      let (split, same) =
        line_of z (b':' ∷ format_int z ++ crlf) (append_int rt z w) (append_int-Appends rt z w) e in
      read_int_buffered rt rd b more v z h split ∙ same

  -- `ReadInlineString` on a valid reader that holds what `AppendInline` put into an empty writer,
  -- with anything behind it, returns the same text and stops behind it, if the text holds no CR and
  -- does not end in a blank.
  pub read_inline_string-append_inline :
      (msg : Bytes)
      → Lacks b'\r' msg
      → EndsInWord msg
      → window b ≡ (append_inline rt msg w).buf ++ more
      → read_inline_string rt rd b ≡ ok msg (advanced b (length (append_inline rt msg w).buf))
  read_inline_string-append_inline msg lacks word e =
      let (split, same) =
        line_of msg (b'+' ∷ msg ++ crlf) (append_inline rt msg w) (append_inline-Appends rt msg w)
          e in
      read_inline_string_buffered rt rd b more v msg lacks word split ∙ same

  -- `ReadError` on a valid reader that holds what `AppendError` put into an empty writer, with
  -- anything behind it, returns the same text and stops behind it, if the text holds no CR and does
  -- not end in a blank.
  pub read_error-append_error :
      (msg : Bytes)
      → Lacks b'\r' msg
      → EndsInWord msg
      → window b ≡ (append_error rt msg w).buf ++ more
      → read_error rt rd b ≡ ok msg (advanced b (length (append_error rt msg w).buf))
  read_error-append_error msg lacks word e =
      let (split, same) =
        line_of msg (b'-' ∷ msg ++ crlf) (append_error rt msg w) (append_error-Appends rt msg w)
          e in
      read_error_buffered rt rd b more v msg lacks word split ∙ same

  -- `ReadNil` on a valid reader that holds what `AppendNil` put into an empty writer, with anything
  -- behind it, succeeds and stops behind it.
  pub read_nil-append_nil :
      window b ≡ (append_nil rt w).buf ++ more
      → read_nil rt rd b ≡ ok tt (advanced b (length (append_nil rt w).buf))
  unfolding append_nil
  read_nil-append_nil e =
      let (split, same) =
        line_of tt bin_nil (append rt bin_nil w) (append-Appends rt bin_nil w) e in
      read_nil_buffered rt rd b more v split ∙ same
