-- ===== src/Writer/Flush.antt =====
-- resp/bufio.go: `Flush`.
use redeo.Base.{
  ◌+◌, length-append, ◌≡◌, ◌≢◌, refl, ap, sym, ◌∙◌, false, none, some, [], ◌∷◌, ◌++◌, Bytes, arith,
  length, take, append-nil, append_assoc, ◌==◌,
}
use redeo.Base.Slices.{take_all}
use redeo.Errors.{Error}
use redeo.Io.Sink.{IsSink}
use redeo.Io.{IoWriter}
use redeo.Monad.{ok, err}
use redeo.Writer.Output.{Appends}
use redeo.Writer.{BufioW, flush, flushed, emptied}

pending_test : (p : Bytes) → p ≢ [] → (length p == 0) ≡ false
pending_test [] h = absurd (h refl)
pending_test (c ∷ p) h = ground arith

module _ (wr : IoWriter) (sk : IsSink wr) where
  open wr use {Snk, write}

  -- all that the writer was given: what was sent, and what is pending
  abbrev pub output : BufioW Snk → Bytes
  output w = sk.sent w.out ++ w.buf

  pub output-Appends : (p : Bytes) {w w' : BufioW Snk} → Appends p w w' → output w' ≡ output w ++ p
  output-Appends p {w} {w'} a =
      ap (λ o. sk.sent o ++ w'.buf) a.out_eq
      ∙ ap (◌++◌ (sk.sent w.out)) a.buf_eq
      ∙ sym (append_assoc (sk.sent w.out) w.buf p)

  -- a successful write sends all of it
  pub sent-write :
      (p : Bytes) (s : Snk) → (write p s).error ≡ none → sk.sent (write p s).next ≡ sk.sent s ++ p
  sent-write p s h =
      sk.write-sends p s
      ∙ ap (λ n. sk.sent s ++ take n p) (sk.count-all p s h)
      ∙ ap (◌++◌ (sk.sent s)) (take_all (length p) p (omega arith))

  -- If the connection takes the pending bytes without an error, `Flush` succeeds, all that the
  -- writer was given has been sent in order, nothing is pending, and the array is as long as
  -- before.
  pub flush_ok :
      (w : BufioW Snk)
      → (write w.buf w.out).error ≡ none
      → (w' : BufioW Snk) × (flush wr w ≡ ok tt w')
        × (w'.buf ≡ [])
        × (sk.sent w'.out ≡ output w)
        × (length w'.buf + length w'.spare ≡ length w.buf + length w.spare)
  unfolding flush flushed
  flush_ok w h = go w.buf refl
    where
      go :
          (p : Bytes)
          → w.buf ≡ p
          → (w' : BufioW Snk) × (flush wr w ≡ ok tt w')
            × (w'.buf ≡ [])
            × (sk.sent w'.out ≡ output w)
            × (length w'.buf + length w'.spare ≡ length w.buf + length w.spare)
      go [] e = (w, rw e, e, rw e (sym (append-nil (sk.sent w.out))), refl)
      go (c ∷ p) e = (
        emptied (write w.buf w.out).next w,
        rw (pending_test w.buf (rw e cc)) (rw (h, flushed)),
        refl,
        sent-write w.buf w.out h,
        omega (arith, length-append w.buf w.spare),
      )

module _ (wr : IoWriter) where
  open wr use {Snk, write}

  -- Pending bytes that the connection takes, and pending bytes that it refuses: these stay pending.
  pub flush_taken :
      (w : BufioW Snk)
      → w.buf ≢ []
      → (write w.buf w.out).error ≡ none
      → flush wr w ≡ ok tt (emptied (write w.buf w.out).next w)
  unfolding flush flushed
  flush_taken w ne h = rw (pending_test w.buf ne) (rw (h, flushed))

  pub flush_refused :
      (w : BufioW Snk) {e : Error}
      → w.buf ≢ []
      → (write w.buf w.out).error ≡ some e
      → flush wr w ≡ err e (record w { out = (write w.buf w.out).next })
  unfolding flush flushed
  flush_refused w ne h = rw (pending_test w.buf ne) (rw (h, flushed))
