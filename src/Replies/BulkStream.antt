-- ===== src/Replies/BulkStream.antt =====
-- resp/bufio.go: `ReadBulk` on a bulk of which only the size line has to be buffered.
use redeo.Base.{
  ◌+◌, ◌≤◌, ◌<◌, ◌≡◌, refl, ap, sym, ◌∙◌, ◌++◌, Bytes, arith, length, length-append, append_assoc,
}
use redeo.Base.Int.{pos}
use redeo.Base.Slices.{append_cut}
use redeo.Errors.{crlf}
use redeo.Io.Stream.{IsStream}
use redeo.Io.{Runtime, IoReader}
use redeo.Monad.{ok, and_then-ok}
use redeo.Reader.Require.{require_stream, pending}
use redeo.Reader.Window.{
  buf_limit, IsValid, window, advanced, advanced_append-IsValid, window-advanced_append,
}
use redeo.Reader.{BufioR, require}
use redeo.Replies.{read_bulk}
use redeo.Wire.{size_text, size_line}
use redeo.Replies.Bulk.{read_bulk_len_buffered, read_body_of}

module _ (rt : Runtime) (rd : IoReader) (st : IsStream rd) where
  open rd use {Src}

  -- On a stream that does not break, let the size line of a bulk be buffered in a valid reader, and
  -- let the body and its CRLF follow in the buffer, in the stream, or across the two, within the
  -- limits of the allocator, the buffer and the fuel. Then `ReadBulk(p)` returns `p` with the body
  -- appended, the reader is valid, and the bytes still to come are those behind the bulk.
  pub read_bulk_stream :
      (b : BufioR Src) (p body more tail : Bytes)
      → IsValid b
      → window b ≡ size_text b'$' (length body) ++ (crlf ++ more)
      → more ++ st.rest b.rd ≡ body ++ (crlf ++ tail)
      → length body + 2 ≤ rt.max_alloc
      → length body + 2 ≤ buf_limit
      → length body + 2 < rt.rounds
      → (b' : BufioR Src) × (read_bulk rt rd p b ≡ ok (p ++ body) b')
        × IsValid b'
        × (pending rd st b' ≡ tail)
  unfolding read_bulk
  read_bulk_stream b p body more tail v e f alloc limit fuel =
      let (b₂, runs, m) =
        require_stream rt rd st b₁ (length body + 2) v₁
          (omega (arith, ap length e₁, length-append body (crlf ++ tail))) alloc limit fuel in
      let cut =
        append_cut (window b₂) (st.rest b₂.rd) (body ++ crlf) tail
          (m.same_pending ∙ e₁ ∙ sym (append_assoc body crlf tail))
          (omega (arith, m.holds, length-append body crlf)) in
      (
        advanced b₂ (length body + 2),
        ran b₂ m.valid runs cut,
        rest_valid b₂ m.valid cut,
        rest_pending b₂ m.valid cut,
      )
    where
      line : Bytes
      line = size_line b'$' (length body)

      split : window b ≡ line ++ more
      split = e ∙ sym (append_assoc (size_text b'$' (length body)) crlf more)

      b₁ : BufioR Src
      b₁ = advanced b (length line)

      v₁ : IsValid b₁
      v₁ = advanced_append-IsValid b line more v split

      e₁ : pending rd st b₁ ≡ body ++ (crlf ++ tail)
      e₁ = ap (λ l. l ++ st.rest b.rd) (window-advanced_append b line more v split) ∙ f

      -- the unread bytes behind `require`: the body, its CRLF, and more
      Cut : BufioR Src → Type 0
      Cut b' = (t : Bytes) × (window b' ≡ (body ++ crlf) ++ t) × (t ++ st.rest b'.rd ≡ tail)

      size : length body + 2 ≡ length (body ++ crlf)
      size = sym (length-append body crlf)

      ran :
          (b' : BufioR Src)
          → IsValid b'
          → require rt rd (pos (length body + 2)) b₁ ≡ ok tt b'
          → Cut b'
          → read_bulk rt rd p b ≡ ok (p ++ body) (advanced b' (length body + 2))
      ran b' v' runs (t, w, _) =
          and_then-ok _ (read_bulk_len_buffered rt rd b (length body) more v e (omega arith)) (
            and_then-ok _
              (read_body_of rt rd b₁ b' body t runs v' (w ∙ append_assoc body crlf t) (omega arith))
              refl)

      rest_valid : (b' : BufioR Src) → IsValid b' → Cut b' → IsValid (advanced b' (length body + 2))
      rest_valid b' v' (t, w, _) = rw size (advanced_append-IsValid b' (body ++ crlf) t v' w)

      rest_pending :
          (b' : BufioR Src)
          → IsValid b'
          → Cut b'
          → pending rd st (advanced b' (length body + 2)) ≡ tail
      rest_pending b' v' (t, w, f') =
          rw size (ap (λ l. l ++ st.rest b'.rd) (window-advanced_append b' (body ++ crlf) t v' w))
          ∙ f'
