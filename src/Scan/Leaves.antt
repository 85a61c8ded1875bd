-- ===== src/Scan/Leaves.antt =====
-- resp/scan.go: `scan` of a reply of one value that the variable takes.
use redeo.Base.{
  append_assoc, ℕ, suc, ◌≡◌, refl, ap, sym, ◌∙◌, Bool, true, false, [], ◌∷◌, ◌++◌, Bytes, length,
}
use redeo.Base.Int.{ℤ, signed, IsInt64}
use redeo.Decimal.{format_int}
use redeo.Errors.{Error, bin_nil, crlf}
use redeo.Io.{Runtime, IoReader}
use redeo.Monad.{Outcome, ok, err}
use redeo.Reader.Window.{IsValid, window, advanced}
use redeo.Reader.{
  BufioR, ResponseType, type_error, type_nil, type_array, type_bulk, type_int, type_inline,
}
use redeo.Recorder.Decoded.{IsLine, IsAllocatable}
use redeo.Replies.Buffered.{
  read_error_buffered, peek_bulk_buffered, peek_type_buffered, type_of_dollar, read_int_buffered,
  read_inline_string_buffered, read_nil_buffered,
}
use redeo.Replies.Bulk.{read_array_len_buffered, read_bulk_buffered, read_bulk_string_buffered}
use redeo.Replies.{peek_type, type_of}
use redeo.Scan.Assign.{Floats, assigned, scan_nil, scan_string, scan_int, assign_bytes}
use redeo.Scan.Loops.{server_error, scan_array, Result, read_then, put}
use redeo.Scan.Receives.{
  TextInto, NilInto, IntInto, UintInto, BoolInto, FloatInto, to_int_same, to_uint-signed,
}
use redeo.Scan.Variables.{
  Var, string_var, bytes_var, bool_var, int_var, uint_var, float_var, any_var, null_string,
  named_string, named_int64, Dst, pointer,
}
use redeo.Scan.{
  scan_server_error, scan_bulk, scan_typed, scan_plain_of, scan_plain, null_result, scan_response,
  scan_known, scan,
}
use redeo.Value.Output.{line, number}
use redeo.Wire.{bulk, size_line, size_text}

module _ {Src A D : Type 0} where
  -- An operation of the reader that succeeds, and what follows.
  pub answered :
      {o : Outcome Error (BufioR Src) A} {a : A} {b : BufioR Src} {r : Result Src D} (d : D)
      (k : A → BufioR Src → Result Src D)
      → o ≡ ok a b
      → k a b ≡ r
      → read_then o d k ≡ r
  answered d k e h = ap (λ o. read_then o d k) e ∙ h

module _ {Src Float : Type 0} where
  -- What the variable becomes.
  became :
      (b : BufioR Src) {x y : Var Float}
      → y ≡ x
      → Path (Result Src (Dst Float)) (ok tt (b, pointer x)) (ok tt (b, pointer y))
  became b e = ap (λ v. ok tt (b, pointer v)) (sym e)

module _ (fl : Floats) where
  open fl use {Float}

  int_put :
      (z : ℤ) (x y : Var Float) → IntInto z x y → scan_int fl z (pointer x) ≡ assigned (pointer y)
  unfolding scan_int
  int_put z (int_var w _) y (k, fits, e) =
      ap (λ n. assigned (pointer (int_var w n))) (to_int_same w z k fits)
      ∙ ap (λ v. assigned (pointer v)) (sym e)
  int_put z (any_var _) y e = ap (λ v. assigned (pointer v)) (sym e)
  int_put z (named_int64 _) y e = ap (λ v. assigned (pointer v)) (sym e)
  int_put z x y h = absurd h

  uint_put :
      (n : ℕ) (x y : Var Float)
      → UintInto n x y
      → scan_int fl (signed n) (pointer x) ≡ assigned (pointer y)
  unfolding scan_int
  uint_put n (uint_var w _) y (k, fits, e) =
      ap (λ m. assigned (pointer (uint_var w m))) (to_uint-signed w n k fits)
      ∙ ap (λ v. assigned (pointer v)) (sym e)
  uint_put n x y h = absurd h

  bool_put :
      (b : Bool) (x y : Var Float)
      → BoolInto b x y
      → scan_int fl (number b) (pointer x) ≡ assigned (pointer y)
  unfolding scan_int
  bool_put true (bool_var _) y e = ap (λ v. assigned (pointer v)) (sym e)
  bool_put false (bool_var _) y e = ap (λ v. assigned (pointer v)) (sym e)
  bool_put b x y h = absurd h

module _ (rt : Runtime) (rd : IoReader) (fl : Floats) (f : ℕ) (b : BufioR rd.Src) (more : Bytes)
    (v : IsValid b) where
  open fl use {Float}

  -- `PeekType` gives the type, and the case of that type runs.
  known :
      (typ : ResponseType) (d : Dst Float) {r : Result rd.Src (Dst Float)}
      → peek_type rt rd b ≡ ok typ b
      → scan_known rt rd fl (scan rt rd fl f) typ d b ≡ r
      → scan rt rd fl (suc f) d b ≡ r
  unfolding scan
  known typ d e h = answered d _ e h

  -- An error reply, whatever the destination.
  pub error_leaf :
      (msg : Bytes) (d : Dst Float)
      → IsLine msg
      → window b ≡ line b'-' msg ++ more
      → scan rt rd fl (suc f) d b ≡ err (server_error msg) (advanced b (length (line b'-' msg)), d)
  unfolding type_of scan_known scan_server_error
  error_leaf msg d (lacks, word) e =
      known type_error d (peek_type_buffered rt rd b v e)
        (answered d _ (read_error_buffered rt rd b more v msg lacks word e) refl)

  -- An integer reply, where the variable is not a `NullString`.
  int_known :
      (z : ℤ) (x y : Var Float)
      → IsInt64 z
      → window b ≡ line b':' (format_int z) ++ more
      → scan_int fl z (pointer x) ≡ assigned (pointer y)
      → scan rt rd fl (suc f) (pointer x) b
        ≡ ok tt (advanced b (length (line b':' (format_int z))), pointer y)
  unfolding type_of scan_known scan_plain_of scan_typed scan_int
  int_known z (null_string s valid) y h e p = cc
  int_known z x y h e p = known type_int _ (peek_type_buffered rt rd b v e) (
      answered _ (λ src. put (scan_int fl src (pointer x)) (pointer x))
        (read_int_buffered rt rd b more v z h e)
        (ap (λ a. put a (pointer x) (advanced b (length (line b':' (format_int z))))) p))

  pub nil_leaf :
      (x y : Var Float)
      → NilInto x y
      → window b ≡ bin_nil ++ more
      → scan rt rd fl (suc f) (pointer x) b ≡ ok tt (advanced b (length bin_nil), pointer y)
  unfolding scan_known scan_plain_of scan_typed scan_response scan_nil
  nil_leaf (bytes_var _) y h e =
      known type_nil _ (peek_type_buffered rt rd b v e ∙ type_of_dollar rt rd b v e)
        (answered _ _ (read_nil_buffered rt rd b more v e) (became (advanced b (length bin_nil)) h))
  nil_leaf (any_var _) y h e =
      known type_nil _ (peek_type_buffered rt rd b v e ∙ type_of_dollar rt rd b v e)
        (answered _ _ (read_nil_buffered rt rd b more v e) (became (advanced b (length bin_nil)) h))
  nil_leaf x y h e = absurd h

  pub float_leaf :
      (t : Bytes) (x y : Var Float)
      → FloatInto fl t x y
      → IsLine t
      → window b ≡ line b'+' t ++ more
      → scan rt rd fl (suc f) (pointer x) b ≡ ok tt (advanced b (length (line b'+' t)), pointer y)
  unfolding type_of scan_known scan_plain_of scan_typed scan_string
  float_leaf t (float_var w _) y (z, parsed, h) (lacks, word) e =
      known type_inline _ (peek_type_buffered rt rd b v e) (
        answered _ _ (read_inline_string_buffered rt rd b more v t lacks word e)
          (rw parsed (became (advanced b (length (line b'+' t))) h)))
  float_leaf t x y h i e = absurd h

  pub text_leaf :
      (p : Bytes) (x y : Var Float)
      → TextInto p x y
      → window b ≡ bulk p ++ more
      → scan rt rd fl (suc f) (pointer x) b ≡ ok tt (advanced b (length (bulk p)), pointer y)
  unfolding scan_known scan_plain scan_plain_of scan_typed scan_bulk scan_string scan_response
      null_result assign_bytes
  text_leaf p (string_var _) y h e = known type_bulk _ (peek_bulk_buffered rt rd b v p more e) (
      answered _ _ (read_bulk_string_buffered rt rd b p more v e)
        (became (advanced b (length (bulk p))) h))
  text_leaf p (any_var _) y h e = known type_bulk _ (peek_bulk_buffered rt rd b v p more e) (
      answered _ _ (read_bulk_string_buffered rt rd b p more v e)
        (became (advanced b (length (bulk p))) h))
  text_leaf p (named_string _) y h e = known type_bulk _ (peek_bulk_buffered rt rd b v p more e) (
      answered _ _ (read_bulk_string_buffered rt rd b p more v e)
        (became (advanced b (length (bulk p))) h))
  text_leaf [] (bytes_var _) y h e = known type_bulk _ (peek_bulk_buffered rt rd b v [] more e) (
      answered _ _ (read_bulk_buffered rt rd b [] [] more v e)
        (became (advanced b (length (bulk []))) h))
  text_leaf (c ∷ cs) (bytes_var _) y h e =
      known type_bulk _ (peek_bulk_buffered rt rd b v (c ∷ cs) more e) (
        answered _ _ (read_bulk_buffered rt rd b [] (c ∷ cs) more v e)
          (became (advanced b (length (bulk (c ∷ cs)))) h))
  text_leaf p (null_string s valid) y h e =
      known type_bulk _ (peek_bulk_buffered rt rd b v p more e) (
        ap (null_result rt rd fl s valid) (
          answered (pointer (string_var s)) _ (peek_bulk_buffered rt rd b v p more e)
            (answered _ _ (read_bulk_string_buffered rt rd b p more v e) refl))
        ∙ became (advanced b (length (bulk p))) h)
  text_leaf p x y h e = absurd h

  pub int_leaf :
      (z : ℤ) (x y : Var Float)
      → IntInto z x y
      → IsInt64 z
      → window b ≡ line b':' (format_int z) ++ more
      → scan rt rd fl (suc f) (pointer x) b
        ≡ ok tt (advanced b (length (line b':' (format_int z))), pointer y)
  int_leaf z x y h i e = int_known z x y i e (int_put fl z x y h)

  pub uint_leaf :
      (n : ℕ) (x y : Var Float)
      → UintInto n x y
      → IsInt64 (signed n)
      → window b ≡ line b':' (format_int (signed n)) ++ more
      → scan rt rd fl (suc f) (pointer x) b
        ≡ ok tt (advanced b (length (line b':' (format_int (signed n)))), pointer y)
  uint_leaf n x y h i e = int_known (signed n) x y i e (uint_put fl n x y h)

  pub bool_leaf :
      (t : Bool) (x y : Var Float)
      → BoolInto t x y
      → IsInt64 (number t)
      → window b ≡ line b':' (format_int (number t)) ++ more
      → scan rt rd fl (suc f) (pointer x) b
        ≡ ok tt (advanced b (length (line b':' (format_int (number t)))), pointer y)
  bool_leaf t x y h i e = int_known (number t) x y i e (bool_put fl t x y h)

  -- An array whose entries are scanned behind its size.
  pub array_leaf :
      (n : ℕ) (body : Bytes) (x y : Var Float) (b' : BufioR rd.Src)
      → IsAllocatable rt n
      → window b ≡ (size_line b'*' n ++ body) ++ more
      → scan_array rt (scan rt rd fl f) n (pointer x) (advanced b (length (size_line b'*' n)))
        ≡ ok tt (b', pointer y)
      → scan rt rd fl (suc f) (pointer x) b ≡ ok tt (b', pointer y)
  unfolding type_of scan_known scan_plain_of scan_typed scan_array
  array_leaf n body (null_string s valid) y b' h e p = cc
  array_leaf n body x y b' (alloc, small) e p =
      known type_array _ (peek_type_buffered rt rd b v e) (
        answered _ _
          (read_array_len_buffered rt rd b n (body ++ more) v
            (e
              ∙ append_assoc (size_line b'*' n) body more
              ∙ append_assoc (size_text b'*' n) crlf (body ++ more))
            small)
          p)
