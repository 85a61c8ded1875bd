-- ===== src/Recorder/Leaves.antt =====
-- redeotest/redeotest.go: `parseResult` on a reply of one value, and on the size of an array.
use redeo.Base.{ℕ, suc, ◌*◌, ◌≡◌, refl, ◌∙◌, ◌++◌, Bytes, length, append_assoc, le→ltb_false}
use redeo.Base.Int.{ℤ, IsInt64}
use redeo.Decimal.{format_int}
use redeo.Errors.{crlf, bin_nil}
use redeo.Io.{Runtime, IoReader}
use redeo.Monad.{ok, and_then-ok}
use redeo.Reader.Window.{IsValid, window, advanced}
use redeo.Reader.{
  BufioR, ResponseType, type_nil, type_bulk, type_int, type_inline, type_error, type_array,
}
use redeo.Recorder.{
  Item, nothing, text, failure, items, Items, no_items, item, parse_items, parse_array, parse_typed,
  parse_result,
}
use redeo.Recorder as Recorder
use redeo.Replies.Buffered.{
  peek_type_buffered, type_of_dollar, peek_bulk_buffered, read_int_buffered, read_error_buffered,
  read_inline_string_buffered, read_nil_buffered,
}
use redeo.Replies.Bulk.{read_bulk_string_buffered, read_array_len_buffered}
use redeo.Replies.{peek_type, type_of}
use redeo.Value.Output.{line}
use redeo.Wire.{size_line, size_text, bulk}
use redeo.Recorder.Decoded.{IsLine, IsAllocatable}

module _ (rt : Runtime) (rd : IoReader) (f : ℕ) (b : BufioR rd.Src) (more : Bytes)
    (v : IsValid b) where
  -- `PeekType` gives the type, and the case of that type runs.
  typed :
      (typ : ResponseType) {x : Item} {b' : BufioR rd.Src}
      → peek_type rt rd b ≡ ok typ b
      → parse_typed rt rd (parse_result rt rd f) typ b ≡ ok x b'
      → parse_result rt rd (suc f) b ≡ ok x b'
  unfolding parse_result
  typed typ e h = and_then-ok _ e h

  pub parse_number :
      (z : ℤ)
      → IsInt64 z
      → window b ≡ line b':' (format_int z) ++ more
      → parse_result rt rd (suc f) b
        ≡ ok (Recorder.number z) (advanced b (length (line b':' (format_int z))))
  unfolding type_of parse_typed
  parse_number z h e =
      typed type_int (peek_type_buffered rt rd b v e)
        (and_then-ok _ (read_int_buffered rt rd b more v z h e) refl)

  pub parse_inline :
      (t : Bytes)
      → IsLine t
      → window b ≡ line b'+' t ++ more
      → parse_result rt rd (suc f) b ≡ ok (text t) (advanced b (length (line b'+' t)))
  unfolding type_of parse_typed
  parse_inline t (lacks, word) e =
      typed type_inline (peek_type_buffered rt rd b v e)
        (and_then-ok _ (read_inline_string_buffered rt rd b more v t lacks word e) refl)

  pub parse_error :
      (t : Bytes)
      → IsLine t
      → window b ≡ line b'-' t ++ more
      → parse_result rt rd (suc f) b ≡ ok (failure t) (advanced b (length (line b'-' t)))
  unfolding type_of parse_typed
  parse_error t (lacks, word) e =
      typed type_error (peek_type_buffered rt rd b v e)
        (and_then-ok _ (read_error_buffered rt rd b more v t lacks word e) refl)

  pub parse_nil :
      window b ≡ bin_nil ++ more
      → parse_result rt rd (suc f) b ≡ ok nothing (advanced b (length bin_nil))
  unfolding parse_typed
  parse_nil e =
      typed type_nil (peek_type_buffered rt rd b v e ∙ type_of_dollar rt rd b v e)
        (and_then-ok _ (read_nil_buffered rt rd b more v e) refl)

  pub parse_bulk :
      (p : Bytes)
      → window b ≡ bulk p ++ more
      → parse_result rt rd (suc f) b ≡ ok (text p) (advanced b (length (bulk p)))
  unfolding parse_typed
  parse_bulk p e =
      typed type_bulk (peek_bulk_buffered rt rd b v p more e)
        (and_then-ok _ (read_bulk_string_buffered rt rd b p more v e) refl)

  -- An array whose entries are parsed behind its size.
  pub parse_entries :
      (n : ℕ) (body : Bytes) {xs : Items} {b' : BufioR rd.Src}
      → IsAllocatable rt n
      → window b ≡ (size_line b'*' n ++ body) ++ more
      → parse_items (parse_result rt rd f) n (advanced b (length (size_line b'*' n))) ≡ ok xs b'
      → parse_result rt rd (suc f) b ≡ ok (items xs) b'
  unfolding type_of parse_typed parse_array
  parse_entries n body (alloc, small) e h = typed type_array (peek_type_buffered rt rd b v e) (
      and_then-ok _
        (read_array_len_buffered rt rd b n (body ++ more) v
          (e
            ∙ append_assoc (size_line b'*' n) body more
            ∙ append_assoc (size_text b'*' n) crlf (body ++ more))
          small)
        (rw (le→ltb_false rt.max_alloc (16 * n) alloc) (and_then-ok _ h refl)))
