-- ===== src/Reader/Require.antt =====
-- resp/bufio.go: `require`, with enough bytes buffered and on a stream.
use redeo.Base.{
  ℕ, ◌+◌, ◌-◌, ◌≤◌, ◌<◌, ◌≡◌, refl, ap, sym, ◌∙◌, true, none, some, [], ◌++◌, Bytes, arith, length,
  length-append, append_assoc, le→ltb_false,
}
use native.Mathlib.Decide.{dec_le}
use mathlib.Core.Path.{ap₂}
use redeo.Base.Int.{pos, sub64, lt_one, two63, add64_pos, sub64_pos}
use redeo.Io.AtLeast.{Reads, read_at_least-Reads}
use redeo.Io.Stream.{IsStream}
use redeo.Io.{Runtime, IoReader, Chunk, read_at_least}
use redeo.Errors.{Error}
use redeo.Monad.{Outcome, ok, and_then-ok}
use redeo.Reader.Grow.{Grown, grow_buf-Grown}
use redeo.Reader.Refill.{received, received-IsValid, window-received, compact_lem}
use redeo.Reader.Window.{buf_limit, IsValid, window, length-window, buffered-window, Compacted}
use redeo.Reader.{BufioR, grow_buf, read_more, grow_and_read, require}

-- `sz - Buffered() < 1`
pub sub64-lt_one : (n l : ℕ) → n ≤ l → l < two63 → lt_one (sub64 (pos n) (pos l)) ≡ true
unfolding sub64
sub64-lt_one n l h k = ground arith

module _ (rt : Runtime) (rd : IoReader) where
  open rd use {Src}

  pub require_buffered :
      (b : BufioR Src) (n : ℕ)
      → IsValid b
      → n ≤ length (window b)
      → require rt rd (pos n) b ≡ ok tt b
  unfolding require
  require_buffered b n v h =
      rw (
        buffered-window b v,
        sub64-lt_one n (length (window b)) h (omega (arith, length-window b v)),
      )

  -- With too few bytes buffered `require` compacts, then grows the array and reads.
  pub require_short :
      (b : BufioR Src) (n : ℕ)
      → IsValid b
      → length (window b) < n
      → (b₁ : BufioR Src) → Compacted b b₁
      → n ≤ buf_limit
      → {p : Outcome Error (BufioR Src) (Unit {0})}
      → grow_and_read rt rd (n - length (window b)) b₁ ≡ p
      → require rt rd (pos n) b ≡ p
  unfolding require
  require_short b n v short b₁ c limit runs =
      rw
        (
          buffered-window b v,
          sub64_pos n (length (window b)) (omega arith) (omega arith),
          le→ltb_false (n - length (window b)) 1 (omega arith),
        )
        (and_then-ok _ c.runs runs)

module _ (rd : IoReader) (st : IsStream rd) where
  open rd use {Src}

  -- all bytes still to come: the unread ones, then the stream
  abbrev pub pending : BufioR Src → Bytes
  pending b = window b ++ st.rest b.rd

  -- A state in which the next `n` bytes are buffered, and the same bytes are to come.
  pub record Buffers (n : ℕ) (b b' : BufioR Src) : Type 0 where
    pub valid : IsValid b'
    pub holds : n ≤ length (window b')
    pub same_pending : pending b' ≡ pending b

module _ (rt : Runtime) (rd : IoReader) (st : IsStream rd) where
  open rd use {Src}

  read_more-Buffers :
      (b : BufioR Src) (extra : ℕ)
      → IsValid b
      → b.r ≡ 0
      → b.w + extra ≤ length b.buf
      → extra ≤ length (st.rest b.rd)
      → extra < rt.rounds
      → (b' : BufioR Src) × (read_more rt rd extra b ≡ ok tt b') × Buffers rd st (b.w + extra) b b'
  unfolding read_more
  read_more-Buffers b extra v front room has fuel =
      let (c, runs, good, reads) =
        read_at_least-Reads rd st rt.rounds (length b.buf - b.w) extra b.rd (omega arith) has
          fuel in
      (received b c.next c.bytes, received_ok c runs good, buffers c reads)
    where
      received_ok :
          (c : Chunk Src)
          → read_at_least rd rt.rounds (length b.buf - b.w) extra b.rd ≡ some c
          → c.error ≡ none
          → read_more rt rd extra b ≡ ok tt (received b c.next c.bytes)
      received_ok c runs good = rw (runs, read_more) (rw good)

      buffers :
          (c : Chunk Src)
          → Reads rd st (length b.buf - b.w) extra [] b.rd c
          → Buffers rd st (b.w + extra) b (received b c.next c.bytes)
      buffers c reads = record {
        valid = received-IsValid b c.next c.bytes v reads.fits;
        holds = omega (
          arith,
          ap length (window-received b c.next c.bytes v front),
          length-append (window b) c.bytes,
          length-window b v,
          reads.enough,
          front,
        );
        same_pending =
            rw (window-received b c.next c.bytes v front, append_assoc)
              (ap (◌++◌ (window b)) (sym reads.splits));
      }

  -- behind `compact`
  grow_and_read-Buffers :
      (b : BufioR Src) (extra : ℕ)
      → IsValid b
      → b.r ≡ 0
      → extra ≤ length (st.rest b.rd)
      → b.w + extra ≤ rt.max_alloc
      → b.w + extra ≤ buf_limit
      → extra < rt.rounds
      → (b' : BufioR Src) × (grow_and_read rt rd extra b ≡ ok tt b')
        × Buffers rd st (b.w + extra) b b'
  unfolding grow_and_read
  grow_and_read-Buffers b extra v front has alloc limit fuel =
      let (b', g) = grow_buf-Grown rt rd b (b.w + extra) v (omega arith) front alloc limit in
      let (b'', runs, m) =
        read_more-Buffers b' extra g.valid (g.same_r ∙ front) (omega (arith, g.same_w, g.has_room))
          (omega (arith, has, ap (λ s. length (st.rest s)) g.same_rd)) fuel in
      (
        b'',
        run b' g runs,
        record {
          valid = m.valid;
          holds = omega (arith, m.holds, g.same_w);
          same_pending = m.same_pending ∙ ap₂ ◌++◌ g.same_window (ap st.rest g.same_rd);
        },
      )
    where
      run :
          (b' : BufioR Src) {b'' : BufioR Src}
          → Grown rt rd (b.w + extra) b b'
          → read_more rt rd extra b' ≡ ok tt b''
          → grow_and_read rt rd extra b ≡ ok tt b''
      run b' g runs =
          and_then-ok _ (ap (λ n. grow_buf rt rd n b) (add64_pos b.w extra (omega arith)) ∙ g.runs)
            runs

  -- On a stream that does not break, if at least `n` bytes are still to come (in the buffer of a
  -- valid reader or behind it), within the limits of the allocator, the buffer and the fuel, then
  -- `require` returns no error, the reader is valid and holds at least `n` unread bytes, and the
  -- bytes still to come are the same.
  pub require_stream :
      (b : BufioR Src) (n : ℕ)
      → IsValid b
      → n ≤ length (pending rd st b)
      → n ≤ rt.max_alloc
      → n ≤ buf_limit
      → n < rt.rounds
      → (b' : BufioR Src) × (require rt rd (pos n) b ≡ ok tt b') × Buffers rd st n b b'
  require_stream b n v has alloc limit fuel = go (dec_le n (length (window b)))
    where
      more :
          length (window b) < n
          → (b₁ : BufioR Src) → Compacted b b₁
          → (b' : BufioR Src) × (require rt rd (pos n) b ≡ ok tt b') × Buffers rd st n b b'
      more short b₁ c =
          let extra = n - length (window b) in
          let w_eq : b₁.w ≡ length (window b) =
            omega (arith, length-window b₁ c.valid, ap length c.same_window, c.at_front) in
          let size : b₁.w + extra ≡ n = omega (arith, w_eq) in
          let (b', runs, m) =
            grow_and_read-Buffers b₁ extra c.valid c.at_front
              (omega (
                arith,
                has,
                length-append (window b) (st.rest b.rd),
                ap (λ s. length (st.rest s)) c.same_rd,
              ))
              (omega (arith, size)) (omega (arith, size)) (omega arith) in
          (
            b',
            require_short rt rd b n v short b₁ c limit runs,
            record {
              valid = m.valid;
              holds = omega (arith, m.holds, size);
              same_pending = m.same_pending ∙ ap₂ ◌++◌ c.same_window (ap st.rest c.same_rd);
            },
          )

      go :
          Dec (n ≤ length (window b))
          → (b' : BufioR Src) × (require rt rd (pos n) b ≡ ok tt b') × Buffers rd st n b b'
      go (yes le) = (
        b,
        require_buffered rt rd b n v le,
        record { valid = v; holds = le; same_pending = refl },
      )
      go (no gt) = let (b₁, c) = compact_lem b v in more (omega arith) b₁ c
