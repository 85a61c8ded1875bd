-- ===== src/Writer/Copy.antt =====
-- resp/bufio.go: the loop of `CopyBulk` past the buffer.
pub mod Branches
use redeo.Base.{
  ℕ, zero, suc, ◌+◌, ◌-◌, ◌≤◌, ◌<◌, ◌≡◌, ◌≢◌, refl, ap, sym, ◌∙◌, ◌⊎◌, true, false, inl, inr,
  Option, none, some, List, [], ◌∷◌, ◌++◌, Bytes, arith, length, take, drop, append-nil,
  append_assoc, length-append, ◌==◌, ltb, leb, if◌then◌else◌, Bool-cases, Option-cases, lt→ltb,
  le→leb, ltb→lt, le→ltb_false,
}
use redeo.Base.Int.{pos, two63}
use redeo.Base.Slices.{take_all, append_cut}
use redeo.Errors.{Error, eof, crlf}
use redeo.Io.AtLeast.{last_read}
use redeo.Io.Sink.{IsSink, NeverFails}
use redeo.Io.Stream.{IsStream}
use redeo.Io.{Runtime, IoReader, IoWriter, Wrote, Chunk, limited_read, read_at_least, is_eof}
use redeo.Monad.{Outcome, ok, err, and_then-ok}
use redeo.Reader.{put}
use redeo.Wire.{size_line, bulk}
use redeo.Writer.Flush.{output, sent-write}
use redeo.Writer.Output.{Appends}
use redeo.Writer.{BufioW, copy_loop, copied, not_copied, read_into, Both}

not_zero : (n : ℕ) → 0 < n → (n == 0) ≡ false
not_zero n h = ground arith

eq_self : (n : ℕ) → (n == n) ≡ true
eq_self n = ground arith

length-put_front : (a p : Bytes) → 0 < length p → 0 < length (put a 0 p)
unfolding put
length-put_front a p h = omega (arith, length-append p (drop (0 + length p) a))

nil_of : (p : Bytes) → length p ≡ 0 → p ≡ []
nil_of [] h = refl
nil_of (c ∷ p) h = absurd (omega (arith, h))

module _ (rt : Runtime) (wr : IoWriter) (sk : IsSink wr) (rd : IoReader) (st : IsStream rd)
    (good : NeverFails wr) where
  open wr use {Snk, write}
  open rd use {Src, read}

  -- The loop has sent `body`, and `more` is still to be read.
  record Copied (body more : Bytes) (w : BufioW Snk) (s : Both rt wr rd) : Type 0 where
    sends : sk.sent s.1.out ≡ sk.sent w.out ++ body
    same_buf : s.1.buf ≡ w.buf
    leaves : st.rest s.0 ≡ more

  -- a round that reads some bytes
  record Round (x : ℕ) (src : Src) (w : BufioW Snk) (body more : Bytes) (c : Chunk Src)
      : Type 0 where
    is_read : limited_read rd x (length w.spare) src ≡ c
    some_bytes : 0 < length c.bytes
    tail : Bytes
    splits : body ≡ c.bytes ++ tail
    leaves : tail ++ more ≡ st.rest c.next
    ends : (c.error ≡ none) ⊎ ((c.error ≡ some eof) × (length (st.rest c.next) ≡ 0))

  read-Round :
      (src : Src) (w : BufioW Snk) (body more : Bytes)
      → 0 < length body
      → 0 < length w.spare
      → st.rest src ≡ body ++ more
      → (c : Chunk Src) × Round (length body) src w body more c
  unfolding limited_read
  read-Round src w body more some_left room e = (
    read k src,
    record {
      is_read = rw (not_zero (length body) some_left);
      some_bytes =
          st.read-progress k src (ground arith)
            (omega (arith, ap length e, length-append body more));
      tail = cut.0;
      splits = cut.1;
      leaves = cut.2;
      ends = ends (Option-cases (read k src).error);
    },
  )
    where
      k : ℕ
      k = if ltb (length body) (length w.spare) then length body else length w.spare

      within : k ≤ length body
      within = ground arith

      cut : (t : Bytes) × (body ≡ (read k src).bytes ++ t) × (t ++ more ≡ st.rest (read k src).next)
      cut =
          append_cut body more (read k src).bytes (st.rest (read k src).next)
            (sym e ∙ st.read-splits k src) (omega (arith, st.read-fits k src, within))

      ends :
          ((read k src).error ≡ none) ⊎ ((e : Error) × ((read k src).error ≡ some e))
          → ((read k src).error ≡ none)
            ⊎ (((read k src).error ≡ some eof) × (length (st.rest (read k src).next) ≡ 0))
      ends (inl h) = inl h
      ends (inr (e, h)) = inr (h ∙ ap some (st.read-only_eof k src h), last_read rd st k src h)

  -- the writer after a chunk went through it
  after : Chunk Src → BufioW Snk → BufioW Snk
  after c w = record w { out = (write c.bytes w.out).next; spare = put w.spare 0 c.bytes }

  module _ (f : ℕ) (src : Src) (w : BufioW Snk) (body more : Bytes) (c : Chunk Src)
      (r : Round (length body) src w body more c) where
    round_copied :
        copy_loop rt wr rd (suc f) (length body) (src, w)
        ≡ copied rt wr rd c
            (write c.bytes w.out)
            (read_into rt wr rd w c.bytes)
            (copy_loop rt wr rd f (length body - length c.bytes) (c.next, after c w))
    unfolding copy_loop read_into after
    round_copied = rw r.is_read (rw (lt→ltb 0 (length c.bytes) r.some_bytes))

    round_more :
        c.error ≡ none
        → copy_loop rt wr rd (suc f) (length body) (src, w)
          ≡ copy_loop rt wr rd f (length body - length c.bytes) (c.next, after c w)
    round_more h =
        round_copied
        ∙ unfold copied read_into after in
          rw (good c.bytes w.out, sk.count-all c.bytes w.out (good c.bytes w.out), eq_self) (rw h)

    round_end :
        c.error ≡ some eof
        → copy_loop rt wr rd (suc f) (length body) (src, w) ≡ ok tt (c.next, after c w)
    round_end h =
        round_copied
        ∙ unfold copied read_into after in
          rw (good c.bytes w.out, sk.count-all c.bytes w.out (good c.bytes w.out), eq_self) (rw h)

    rest_length : length body - length c.bytes ≡ length r.tail
    rest_length = omega (arith, ap length r.splits, length-append c.bytes r.tail)

    after_sends : sk.sent (after c w).out ≡ sk.sent w.out ++ c.bytes
    unfolding after
    after_sends = sent-write wr sk c.bytes w.out (good c.bytes w.out)

    Copied-after : {s : Both rt wr rd} → Copied r.tail more (after c w) s → Copied body more w s
    unfolding after
    Copied-after m = record {
      sends =
          m.sends
          ∙ ap (λ l. l ++ r.tail) after_sends
          ∙ append_assoc (sk.sent w.out) c.bytes r.tail
          ∙ ap (◌++◌ (sk.sent w.out)) (sym r.splits);
      same_buf = m.same_buf;
      leaves = m.leaves;
    }

    -- at the end of the input, the chunk was the rest of the body
    Copied-end : length (st.rest c.next) ≡ 0 → Copied body more w (c.next, after c w)
    Copied-end none_left = Copied-after (record {
      sends =
          sym (append-nil (sk.sent (after c w).out))
          ∙ ap (◌++◌ (sk.sent (after c w).out))
              (sym (nil_of r.tail (omega (arith, none_left, sums))));
      same_buf = unfold after in refl;
      leaves =
          nil_of (st.rest c.next) none_left ∙ sym (nil_of more (omega (arith, none_left, sums)));
    })
      where
        sums : length r.tail + length more ≡ length (st.rest c.next)
        sums = sym (length-append r.tail more) ∙ ap length r.leaves

  copy_loop-Copied :
      (f : ℕ) (src : Src) (w : BufioW Snk) (body more : Bytes)
      → length body < f
      → 0 < length w.spare
      → st.rest src ≡ body ++ more
      → (s : Both rt wr rd) × (copy_loop rt wr rd f (length body) (src, w) ≡ ok tt s)
        × Copied body more w s
  copy_loop-Copied zero src w body more fuel room e = elim fuel [ ]
  copy_loop-Copied (suc f) src w [] more fuel room e = (
    (src, read_into rt wr rd w []),
    unfold copy_loop limited_read not_copied in refl,
    unfold read_into in
        record { sends = sym (append-nil (sk.sent w.out)); same_buf = refl; leaves = e },
  )
  copy_loop-Copied (suc f) src w (x ∷ xs) more fuel room e =
      let (c, r) = read-Round src w (x ∷ xs) more (omega arith) room e in
      go c r (
        copy_loop-Copied f c.next (after c w) r.tail more
          (omega (arith, ap length r.splits, length-append c.bytes r.tail, r.some_bytes))
          (unfold after in length-put_front w.spare c.bytes r.some_bytes) (sym r.leaves))
    where
      Done : Type 0
      Done =
          (s : Both rt wr rd) × (copy_loop rt wr rd (suc f) (suc (length xs)) (src, w) ≡ ok tt s)
          × Copied (x ∷ xs) more w s

      go :
          (c : Chunk Src) (r : Round (suc (length xs)) src w (x ∷ xs) more c)
          → (s : Both rt wr rd) × (copy_loop rt wr rd f (length r.tail) (c.next, after c w)
              ≡ ok tt s)
            × Copied r.tail more (after c w) s
          → Done
      go c r (s, runs, m) = elim r.ends [
        | inl none_yet ↦ (
          s,
          round_more f src w (x ∷ xs) more c r none_yet
              ∙ ap (λ n. copy_loop rt wr rd f n (c.next, after c w))
                  (rest_length f src w (x ∷ xs) more c r)
              ∙ runs,
          Copied-after f src w (x ∷ xs) more c r m,
        )
        | inr (at_eof, none_left) ↦ (
          (c.next, after c w),
          round_end f src w (x ∷ xs) more c r at_eof,
          Copied-end f src w (x ∷ xs) more c r none_left,
        )
      ]
