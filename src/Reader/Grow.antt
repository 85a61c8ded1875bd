-- ===== src/Reader/Grow.antt =====
-- resp/bufio.go: the new array of `require`.
use redeo.Base.{
  ℕ, ◌-◌, ◌≤◌, ◌≡◌, refl, ◌∙◌, inl, inr, ◌++◌, arith, ltb, if◌then◌else◌, length, take, drop,
  replicate, length-take, length-append, length-replicate, Bool-cases, le→ltb_false,
}
use redeo.Base.Slices.{take-append_le, drop-append_le, take-take, drop-take}
use redeo.Base.Int.{pos}
use redeo.Io.{Runtime, IoReader}
use redeo.Monad.{ok}
use redeo.Reader.Window.{buf_limit, IsValid, window, length-window}
use redeo.Reader.{BufioR, grow_buf}

module _ (rt : Runtime) (rd : IoReader) where
  open rd use {Src}

  -- room for `n` bytes from `r` on
  grown : ℕ → BufioR Src → BufioR Src
  grown n b =
      if ltb (length b.buf) n then record b { buf = take b.w b.buf ++ replicate (n - b.w) 0 } else b

  pub record Grown (n : ℕ) (b b' : BufioR Src) : Type 0 where
    pub runs : grow_buf rt rd (pos n) b ≡ ok tt b'
    pub valid : IsValid b'
    pub same_window : window b' ≡ window b
    pub has_room : n ≤ length b'.buf
    pub same_r : b'.r ≡ b.r
    pub same_w : b'.w ≡ b.w
    pub same_rd : b'.rd ≡ b.rd

  pub grow_buf-Grown :
      (b : BufioR Src) (n : ℕ)
      → IsValid b
      → b.w ≤ n
      → b.r ≡ 0
      → n ≤ rt.max_alloc
      → n ≤ buf_limit
      → (b' : BufioR Src) × Grown n b b'
  unfolding grow_buf
  grow_buf-Grown b n v w_fits front alloc limit = elim (Bool-cases (ltb (length b.buf) n)) [
    | inr fits ↦ (
      b,
      record {
        runs = rw fits;
        valid = v;
        same_window = refl;
        has_room = ground arith;
        same_r = refl;
        same_w = refl;
        same_rd = refl;
      },
    )
    | inl more ↦ (
      record b { buf = take b.w b.buf ++ replicate (n - b.w) 0 },
      record {
        runs = rw (more, le→ltb_false rt.max_alloc n alloc);
        valid = omega (arith, len);
        same_window = kept;
        has_room = omega (arith, len);
        same_r = refl;
        same_w = refl;
        same_rd = refl;
      },
    )
  ]
    where
      len : length (take b.w b.buf ++ replicate (n - b.w) 0) ≡ n
      len = omega (
        arith,
        length-append (take b.w b.buf) (replicate (n - b.w) 0),
        length-take b.w b.buf,
        length-replicate {A = ℕ} (n - b.w) 0,
      )

      kept : take (b.w - b.r) (drop b.r (take b.w b.buf ++ replicate (n - b.w) 0)) ≡ window b
      kept =
          rw
            (
              drop-append_le b.r (take b.w b.buf) (replicate (n - b.w) 0)
                  (omega (arith, v.r-le-w, length-take b.w b.buf)),
              drop-take b.r b.w b.buf,
            )
            (take-append_le (b.w - b.r) (window b) (replicate (n - b.w) 0)
                (omega (arith, length-window b v))
              ∙ take-take (b.w - b.r) (b.w - b.r) (drop b.r b.buf) (omega arith))
