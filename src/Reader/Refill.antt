-- ===== src/Reader/Refill.antt =====
-- resp/bufio.go: `compact`, and a read into the free end of the buffer.
use redeo.Base.{
  ℕ, ◌+◌, ◌-◌, ◌≤◌, ◌<◌, ◌≡◌, refl, ap, sym, ◌∙◌, inl, inr, some, ◌++◌, Bytes, arith, ltb, length,
  take, drop, length-take, length-drop, length-append, Bool-cases, ltb→lt, lt→ltb, le→leb, subst,
}
use redeo.Base.Slices.{take-append, take-append_ge}
use redeo.Reader.{BufioR, slice, put, compact}
use redeo.Reader.Window.{IsValid, window, length-window, Compacted}

pub length-put :
    (a : Bytes) (i : ℕ) (p : Bytes) → i + length p ≤ length a → length (put a i p) ≡ length a
unfolding put
length-put a i p h = omega (
  arith,
  length-append (take i a) (p ++ drop (i + length p) a),
  length-append p (drop (i + length p) a),
  length-take i a,
  length-drop (i + length p) a,
)

take-put :
    (a : Bytes) (i : ℕ) (p : Bytes) → i ≤ length a → take (i + length p) (put a i p) ≡ take i a ++ p
unfolding put
take-put a i p h =
    ap (λ k. take (k + length p) (put a i p)) (omega (arith, length-take i a))
    ∙ take-append_ge (length p) (take i a) (p ++ drop (i + length p) a)
    ∙ ap (◌++◌ (take i a)) (take-append p (drop (i + length p) a))

module _ {Src : Type 0} where
  slice_all : (b : BufioR Src) → IsValid b → slice b.r b.w b.buf ≡ some (window b)
  unfolding slice
  slice_all b v = rw (le→leb b.r b.w v.r-le-w, le→leb b.w (length b.buf) v.w-le-length)

  moved : BufioR Src → BufioR Src
  moved b = record b { buf = put b.buf 0 (window b); w = b.w - b.r; r = 0 }

  -- Bytes `p` are read into the buffer behind `w`.
  abbrev pub received : BufioR Src → Src → Bytes → BufioR Src
  received b rd p = record b { rd = rd; buf = put b.buf b.w p; w = b.w + length p }

  moved-Compacted : (b : BufioR Src) → IsValid b → 0 < b.r → Compacted b (moved b)
  unfolding compact moved
  moved-Compacted b v h = record {
    runs = rw (lt→ltb 0 b.r h) (rw (slice_all b v));
    valid = omega (arith, same);
    same_window =
        ap (λ k. take k (put b.buf 0 (window b))) (omega (arith, length-window b v))
        ∙ take-put b.buf 0 (window b) (omega arith);
    at_front = refl;
    same_length = same;
    same_rd = refl;
  }
    where
      same : length (put b.buf 0 (window b)) ≡ length b.buf
      same = length-put b.buf 0 (window b) (omega (arith, length-window b v))

  pub compact_lem : (b : BufioR Src) → IsValid b → (b' : BufioR Src) × Compacted b b'
  compact_lem b v = elim (Bool-cases (ltb 0 b.r)) [
    | inl h ↦ (moved b, moved-Compacted b v (ltb→lt 0 b.r h))
    | inr h ↦ (
      b,
      record {
        runs = unfold compact in rw h;
        valid = v;
        same_window = refl;
        at_front = ground arith;
        same_length = refl;
        same_rd = refl;
      },
    )
  ]

  pub received-IsValid :
      (b : BufioR Src) (rd : Src) (p : Bytes)
      → IsValid b
      → length p ≤ length b.buf - b.w
      → IsValid (received b rd p)
  received-IsValid b rd p v h = omega (arith, length-put b.buf b.w p (omega arith))

  pub window-received :
      (b : BufioR Src) (rd : Src) (p : Bytes)
      → IsValid b
      → b.r ≡ 0
      → window (received b rd p) ≡ window b ++ p
  window-received b rd p v e =
      subst
        (λ r.
          take (b.w + length p - r) (drop r (put b.buf b.w p)) ≡ take (b.w - r) (drop r b.buf) ++ p)
        (sym e)
        (ap (λ k. take k (put b.buf b.w p)) (omega arith)
          ∙ take-put b.buf b.w p v.w-le-length
          ∙ ap (λ k. take k b.buf ++ p) (omega arith))
