-- ===== src/Writer/Output.antt =====
-- resp/bufio.go: the `Append` operations of the writer, and `WriteCmd` of resp/request.go.
use redeo.Base.{
  ℕ, zero, suc, ◌+◌, ◌≡◌, refl, ap, sym, ◌∙◌, inl, inr, List, [], ◌∷◌, ◌++◌, Bytes, arith, length,
  leb, Bool-cases, append_assoc, append-nil, subst,
}
use redeo.Base.Int.{ℤ, pos, negsuc}
use redeo.Decimal.{format_int, format_nat}
use redeo.Errors.{crlf, bin_zero, bin_one}
use redeo.Io.{Runtime}
use redeo.Writer.{
  BufioW, append, append_size, append_array_len, append_bulk, append_inline, append_error,
  append_int, append_bulks, write_cmd,
}
use redeo.Wire.{size_line, bulk, bulks, request}

-- `w'` has `p` appended, and the connection has not been touched.
pub record Appends {Snk : Type 0} (p : Bytes) (w w' : BufioW Snk) : Type 0 where
  pub buf_eq : w'.buf ≡ w.buf ++ p
  pub out_eq : w'.out ≡ w.out

module _ {Snk : Type 0} where
  pub Appends-nil : (w : BufioW Snk) → Appends [] w w
  Appends-nil w = record { buf_eq = sym (append-nil w.buf); out_eq = refl }

  pub Appends-append :
      (p q : Bytes) {w w' w'' : BufioW Snk}
      → Appends p w w'
      → Appends q w' w''
      → Appends (p ++ q) w w''
  Appends-append p q {w} a b = record {
    buf_eq = b.buf_eq ∙ ap (λ l. l ++ q) a.buf_eq ∙ append_assoc w.buf p q;
    out_eq = b.out_eq ∙ a.out_eq;
  }

module _ (rt : Runtime) {Snk : Type 0} where
  pub append-Appends : (p : Bytes) (w : BufioW Snk) → Appends p w (append rt p w)
  unfolding append
  append-Appends p w = elim (Bool-cases (leb (length p) (length w.spare))) [
    | inl fits ↦ rw fits (record { buf_eq = refl; out_eq = refl })
    | inr more ↦ rw more (record { buf_eq = refl; out_eq = refl })
  ]

  pub append_size-Appends :
      (c : ℕ) (n : ℤ) (w : BufioW Snk) → Appends (c ∷ format_int n ++ crlf) w (append_size rt c n w)
  unfolding append_size
  append_size-Appends c n w =
      Appends-append (c ∷ format_int n) crlf
        (Appends-append (c ∷ []) (format_int n) (append-Appends (c ∷ []) w)
          (append-Appends (format_int n) _))
        (append-Appends crlf _)

  pub append_array_len-Appends :
      (n : ℕ) (w : BufioW Snk) → Appends (size_line b'*' n) w (append_array_len rt (pos n) w)
  unfolding append_array_len format_int
  append_array_len-Appends n w = append_size-Appends b'*' (pos n) w

  -- a mark, a text and a CRLF
  marked :
      (c : ℕ) (p : Bytes) (w : BufioW Snk)
      → Appends (c ∷ p ++ crlf) w (append rt crlf (append rt p (append rt (c ∷ []) w)))
  marked c p w =
      Appends-append (c ∷ p) crlf
        (Appends-append (c ∷ []) p (append-Appends (c ∷ []) w) (append-Appends p _))
        (append-Appends crlf _)

  pub append_bulk-Appends : (p : Bytes) (w : BufioW Snk) → Appends (bulk p) w (append_bulk rt p w)
  unfolding append_bulk format_int
  append_bulk-Appends p w =
      subst (λ l. Appends l w (append_bulk rt p w)) regroup
        (Appends-append (size_line b'$' (length p) ++ p) crlf
          (Appends-append (size_line b'$' (length p)) p
            (append_size-Appends b'$' (pos (length p)) w) (append-Appends p _))
          (append-Appends crlf _))
    where
      regroup : (size_line b'$' (length p) ++ p) ++ crlf ≡ bulk p
      regroup = simp append_assoc

  pub append_inline-Appends :
      (p : Bytes) (w : BufioW Snk) → Appends (b'+' ∷ p ++ crlf) w (append_inline rt p w)
  unfolding append_inline
  append_inline-Appends p w = marked b'+' p w

  pub append_error-Appends :
      (p : Bytes) (w : BufioW Snk) → Appends (b'-' ∷ p ++ crlf) w (append_error rt p w)
  unfolding append_error
  append_error-Appends p w = marked b'-' p w

  -- `AppendInt` appends the colon, the decimal form of the number and CRLF, for 0 and 1 too, where
  -- it appends a constant.
  pub append_int-Appends :
      (n : ℤ) (w : BufioW Snk) → Appends (b':' ∷ format_int n ++ crlf) w (append_int rt n w)
  unfolding append_int
  append_int-Appends (pos zero) w = unfold format_int format_nat in append-Appends bin_zero w
  append_int-Appends (pos (suc zero)) w = unfold format_int format_nat in append-Appends bin_one w
  append_int-Appends (pos (suc (suc n))) w = marked b':' (format_int (pos (suc (suc n)))) w
  append_int-Appends (negsuc n) w = marked b':' (format_int (negsuc n)) w

  append_bulks-Appends :
      (ps : List Bytes) (w : BufioW Snk) → Appends (bulks ps) w (append_bulks rt ps w)
  unfolding append_bulks
  append_bulks-Appends [] w = Appends-nil w
  append_bulks-Appends (p ∷ ps) w =
      Appends-append (bulk p) (bulks ps) (append_bulk-Appends p w)
        (append_bulks-Appends ps (append_bulk rt p w))

  -- `WriteCmd` appends the wire form of the request, whatever room the array of the writer has, and
  -- does not touch the connection.
  pub write_cmd-Appends :
      (cmd : Bytes) (args : List Bytes) (w : BufioW Snk)
      → Appends (request cmd args) w (write_cmd rt cmd args w)
  unfolding write_cmd
  write_cmd-Appends cmd args w =
      subst (λ l. Appends l w (write_cmd rt cmd args w)) regroup
        (Appends-append (size_line b'*' (length args + 1) ++ bulk cmd) (bulks args)
          (Appends-append (size_line b'*' (length args + 1)) (bulk cmd)
            (append_array_len-Appends (length args + 1) w) (append_bulk-Appends cmd _))
          (append_bulks-Appends args _))
    where
      count : length args + 1 ≡ suc (length args)
      count = omega arith

      regroup : (size_line b'*' (length args + 1) ++ bulk cmd) ++ bulks args ≡ request cmd args
      regroup = ap (λ n. (size_line b'*' n ++ bulk cmd) ++ bulks args) count ∙ simp append_assoc
