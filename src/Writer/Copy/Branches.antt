-- ===== src/Writer/Copy/Branches.antt =====
-- resp/bufio.go: both branches of `CopyBulk`.
use redeo.Base.{
  ℕ, ◌+◌, ◌≤◌, ◌<◌, ◌≡◌, refl, ap, sym, ◌∙◌, true, false, inl, inr, none, ◌++◌, Bytes, arith,
  length, take, drop, append-nil, append_assoc, length-append, length-take, leb, Bool-cases, le→leb,
  leb→le,
}
use redeo.Base.Int.{pos, two63}
use redeo.Base.Slices.{drop_all, append_cut}
use redeo.Decimal.{format_int}
use redeo.Errors.{Error, crlf}
use redeo.Io.AtLeast.{read_at_least-Reads}
use redeo.Io.Sink.{IsSink, NeverFails}
use redeo.Io.Stream.{IsStream}
use redeo.Io.{Runtime, IoReader, IoWriter, Chunk}
use redeo.Monad.{Outcome, ok, and_then-ok}
use redeo.Reader.{put}
use redeo.Wire.{size_line, bulk}
use redeo.Writer.Copy.{Copied, copy_loop-Copied, nil_of}
use redeo.Writer.Flush.{output, output-Appends, flush_ok}
use redeo.Writer.Output.{Appends, append-Appends, append_size-Appends}
use redeo.Writer.{
  BufioW, append, append_size, flush, emptied, copy_bulk, copy_of, copy_fast, copy_fast_of,
  copy_slow, copy_loop, Both,
}

lt→leb_false : (a b : ℕ) → b < a → leb a b ≡ false
lt→leb_false a b h = ground arith

-- a slice that is overwritten as a whole
put_all : (a p : Bytes) → length a ≡ length p → put a 0 p ≡ p
unfolding put
put_all a p h = ap (◌++◌ p) (drop_all (0 + length p) a (omega (arith, h))) ∙ append-nil p

module _ (rt : Runtime) (wr : IoWriter) (sk : IsSink wr) (rd : IoReader) (st : IsStream rd)
    (good : NeverFails wr) where
  open wr use {Snk, write}
  open rd use {Src, read}

  -- The body and its CRLF have come out behind `w`.
  record Sends (body more : Bytes) (w : BufioW Snk) (s : Both rt wr rd) : Type 0 where
    puts : output wr sk s.1 ≡ output wr sk w ++ (body ++ crlf)
    leaves : st.rest s.0 ≡ more

  module _ (src : Src) (w : BufioW Snk) (body more : Bytes) (e : st.rest src ≡ body ++ more)
      (rounds : length body + 1 < rt.rounds) where
    fast :
        length body ≤ length w.spare
        → (s : Both rt wr rd) × (copy_fast rt wr rd (length body) (src, w) ≡ ok tt s)
          × Sends body more w s
    unfolding copy_fast copy_fast_of
    fast room =
        let (c, runs, good_read, reads) =
          read_at_least-Reads rd st rt.rounds (length body) (length body) src (omega arith)
            (omega (arith, ap length e, length-append body more)) (omega arith) in
        rw (le→leb (length body) (length w.spare) room) (
          rw runs (
            go c good_read reads.enough
              (append_cut body more c.bytes (st.rest c.next) (sym e ∙ reads.splits) reads.fits)))
      where
        go :
            (c : Chunk Src)
            → c.error ≡ none
            → length body ≤ length c.bytes
            → (t : Bytes) × (body ≡ c.bytes ++ t) × (t ++ more ≡ st.rest c.next)
            → (s : Both rt wr rd) × (copy_fast_of rt wr rd (length body) w c ≡ ok tt s)
              × Sends body more w s
        go c fine enough (t, cut, rest) =
            let none_left =
              nil_of t (omega (arith, enough, ap length cut, length-append c.bytes t)) in
            let all_of : c.bytes ≡ body =
              sym (cut ∙ ap (◌++◌ c.bytes) none_left ∙ append-nil c.bytes) in
            let w' : BufioW Snk = record w {
              buf = w.buf ++ put (take (length body) w.spare) 0 c.bytes;
              spare = drop (length body) w.spare;
            } in
            let a = append-Appends rt crlf w' in
            (
              (c.next, append rt crlf w'),
              rw fine,
              record {
                puts =
                    output-Appends wr sk crlf a
                    ∙ ap (λ l. (sk.sent w.out ++ (w.buf ++ l)) ++ crlf)
                        (put_all (take (length body) w.spare) c.bytes (
                            omega
                              (arith, length-take (length body) w.spare, room, ap length all_of))
                          ∙ all_of)
                    ∙ simp append_assoc;
                leaves = sym rest ∙ ap (λ l. l ++ more) none_left;
              },
            )

    Copied-output :
        (w' : BufioW Snk) (s : Both rt wr rd)
        → Copied rt wr sk rd st good body more (emptied w'.out w') s
        → sk.sent w'.out ≡ output wr sk w
        → output wr sk s.1 ≡ output wr sk w ++ body
    Copied-output w' s m sent =
        ap (◌++◌ (sk.sent s.1.out)) m.same_buf
        ∙ append-nil (sk.sent s.1.out)
        ∙ m.sends
        ∙ ap (λ l. l ++ body) sent

    slow_runs :
        (w' : BufioW Snk) (s : Both rt wr rd)
        → flush wr w ≡ ok tt w'
        → copy_loop rt wr rd rt.rounds (length body) (src, emptied w'.out w') ≡ ok tt s
        → copy_slow rt wr rd (length body) (src, w) ≡ ok tt (s.0, append rt crlf s.1)
    unfolding copy_slow
    slow_runs w' s flushes copies = rw (flushes, copy_slow) (and_then-ok _ copies refl)

    slow :
        0 < length w.buf + length w.spare
        → (s : Both rt wr rd) × (copy_slow rt wr rd (length body) (src, w) ≡ ok tt s)
          × Sends body more w s
    slow room =
        let (w', runs, empty, sent, same) = flush_ok wr sk w (good w.buf w.out) in
        let (s, copies, m) =
          copy_loop-Copied rt wr sk rd st good rt.rounds src (emptied w'.out w') body more
            (omega arith) (omega (arith, same, length-append w'.buf w'.spare)) e in
        let a = append-Appends rt crlf s.1 in
        (
          (s.0, append rt crlf s.1),
          slow_runs w' s runs copies,
          record {
            puts =
                output-Appends wr sk crlf a
                ∙ ap (λ l. l ++ crlf) (Copied-output w' s m sent)
                ∙ append_assoc (output wr sk w) body crlf;
            leaves = m.leaves;
          },
        )

  -- If the source is a stream that does not break and holds a body of `n` bytes and more, the
  -- connection takes all it is given, there is fuel for `n + 1` reads and `n + 2` is an int64, then
  -- `CopyBulk(src, n)` ends with no error, has put the same bytes as a bulk of that body behind
  -- what the writer had, on the way through the buffer and on the way past it, and leaves the
  -- source behind the body.
  pub copy_bulk-output :
      (src : Src) (w : BufioW Snk) (body more : Bytes)
      → st.rest src ≡ body ++ more
      → length body + 1 < rt.rounds
      → length body + 2 < two63
      → (s : Both rt wr rd) × (copy_bulk rt wr rd (pos (length body)) (src, w) ≡ ok tt s)
        × (output wr sk s.1 ≡ output wr sk w ++ bulk body)
        × (st.rest s.0 ≡ more)
  unfolding copy_bulk copy_of
  copy_bulk-output src w body more e rounds small =
      elim (Bool-cases (leb (length body + 2) (length w1.spare))) [
        | inl fits ↦ done (fits_branch fits) (
            fast src w1 body more e rounds
              (omega (arith, leb→le (length body + 2) (length w1.spare) fits)))
        | inr full ↦
            done (full_branch full) (slow src w1 body more e rounds (omega (arith, some_pending)))
      ]
    where
      w1 : BufioW Snk
      w1 = append_size rt b'$' (pos (length body)) w

      a : Appends (size_line b'$' (length body)) w w1
      a = unfold format_int in append_size-Appends rt b'$' (pos (length body)) w

      some_pending : 0 < length w1.buf
      some_pending =
          omega (arith, ap length a.buf_eq, length-append w.buf (size_line b'$' (length body)))

      fits_branch :
          leb (length body + 2) (length w1.spare) ≡ true
          → copy_bulk rt wr rd (pos (length body)) (src, w)
            ≡ copy_fast rt wr rd (length body) (src, w1)
      fits_branch h = rw h

      full_branch :
          leb (length body + 2) (length w1.spare) ≡ false
          → copy_bulk rt wr rd (pos (length body)) (src, w)
            ≡ copy_slow rt wr rd (length body) (src, w1)
      full_branch h = rw h (rw (lt→leb_false two63 (length body + 2) small))

      done :
          {r : Outcome Error (Both rt wr rd) (Unit {0})}
          → copy_bulk rt wr rd (pos (length body)) (src, w) ≡ r
          → (s : Both rt wr rd) × (r ≡ ok tt s) × Sends body more w1 s
          → (s : Both rt wr rd) × (copy_bulk rt wr rd (pos (length body)) (src, w) ≡ ok tt s)
            × (output wr sk s.1 ≡ output wr sk w ++ bulk body)
            × (st.rest s.0 ≡ more)
      done branch (s, runs, sends) = (
        s,
        branch ∙ runs,
        sends.puts
            ∙ ap (λ l. l ++ (body ++ crlf)) (output-Appends wr sk (size_line b'$' (length body)) a)
            ∙ simp append_assoc,
        sends.leaves,
      )
