-- ===== src/Reader/AtEnd.antt =====
-- resp/bufio.go: `require` of one byte where nothing is buffered: on a source that is exhausted, and
-- on a `bytes.Reader` that fits into the array.
use redeo.Base.{
  ℕ, zero, suc, ◌+◌, ◌-◌, ◌≤◌, ◌<◌, ◌≡◌, refl, ap, sym, ◌∙◌, [], ◌∷◌, Bytes, arith, length, none,
  some, le→ltb_false, lt→ltb, append-nil, subst,
}
use redeo.Base.Int.{pos, add64_pos}
use redeo.Base.Slices.{take_all, drop_all}
use redeo.Errors.{eof}
use redeo.Io.Memory.{bytes_reader}
use redeo.Io.{Runtime, IoReader, read_at_least}
use redeo.Monad.{ok, err, and_then-ok}
use redeo.Reader.Refill.{length-put, received, received-IsValid, window-received, compact_lem}
use redeo.Reader.Require.{require_short}
use redeo.Reader.Window.{buf_limit, IsValid, window, length-window, Compacted}
use redeo.Reader.{BufioR, compact, fill, require, grow_buf, grow_and_read, read_more}

-- `Read` gives nothing but the end of the input.
abbrev pub IsExhausted : (io : IoReader) → io.Src → Type 0
IsExhausted io s = (n : ℕ) → io.read n s ≡ record { bytes = []; error = some eof; next = s }

pub bytes_reader-IsExhausted : IsExhausted bytes_reader []
bytes_reader-IsExhausted zero = refl
bytes_reader-IsExhausted (suc n) = refl

-- Nothing is buffered, nothing is to come, and there is room to read into.
pub record IsAtEnd (rd : IoReader) (b : BufioR rd.Src) : Type 0 where
  pub valid : IsValid b
  pub empty : window b ≡ []
  pub room : 0 < length b.buf
  pub ends : IsExhausted rd b.rd

module _ (rd : IoReader) where
  -- A `Read` that gives nothing leaves the reader at the end.
  received-IsAtEnd :
      (b b₁ : BufioR rd.Src)
      → IsAtEnd rd b
      → Compacted b b₁
      → (b₁.w ≡ 0) × IsAtEnd rd (received b₁ b₁.rd [])
  received-IsAtEnd b b₁ h c =
      let front : b₁.w ≡ 0 =
        omega (arith, length-window b₁ c.valid, ap length (c.same_window ∙ h.empty), c.at_front) in
      (
        front,
        record {
          valid = received-IsValid b₁ b₁.rd [] c.valid (omega arith);
          empty =
              window-received b₁ b₁.rd [] c.valid c.at_front
              ∙ append-nil (window b₁)
              ∙ c.same_window
              ∙ h.empty;
          room = omega (arith, h.room, c.same_length, length-put b₁.buf b₁.w [] (omega arith));
          ends = subst (IsExhausted rd) (sym c.same_rd) h.ends;
        },
      )

module _ (rt : Runtime) (rd : IoReader) where
  open rd use {Src}

  nothing_left :
      (f room : ℕ) (s : Src)
      → IsExhausted rd s
      → 0 < f
      → 0 < room
      → read_at_least rd f room 1 s ≡ some (record { bytes = []; error = some eof; next = s })
  unfolding read_at_least
  nothing_left zero room s h f r = elim f [ ]
  nothing_left (suc f) zero s h _ r = elim r [ ]
  nothing_left (suc f) (suc room) s h _ r =
      rw (le→ltb_false (suc room) 1 (omega arith), h (suc room - 0), h (suc room - 0))

  -- There is room for one byte more.
  no_growth : (b : BufioR Src) → b.w + 1 ≤ length b.buf → grow_buf rt rd (pos (b.w + 1)) b ≡ ok tt b
  unfolding grow_buf
  no_growth b h = rw (le→ltb_false (length b.buf) (b.w + 1) h)

  -- `require` returns the end of the input, and stays there.
  pub require_eof :
      (b : BufioR Src)
      → IsAtEnd rd b
      → 0 < rt.rounds
      → (b' : BufioR Src) × (require rt rd (pos 1) b ≡ err eof b') × IsAtEnd rd b'
  unfolding grow_and_read read_more
  require_eof b h fuel =
      let (b₁, c) = compact_lem b h.valid in
      let (front, stays) = received-IsAtEnd rd b b₁ h c in
      let space : b₁.w + 1 ≤ length b₁.buf = omega (arith, c.same_length, front, h.room) in
      let extra : 1 - length (window b) ≡ 1 = omega (arith, ap length h.empty) in
      let reads : read_at_least rd rt.rounds (length b₁.buf - b₁.w) 1 b₁.rd
          ≡ some (record { bytes = []; error = some eof; next = b₁.rd }) =
        nothing_left rt.rounds (length b₁.buf - b₁.w) b₁.rd
          (subst (IsExhausted rd) (sym c.same_rd) h.ends) fuel (omega arith) in
      (
        received b₁ b₁.rd [],
        require_short rt rd b 1 h.valid (omega (arith, ap length h.empty)) b₁ c (omega arith) (
            ap (λ n. grow_and_read rt rd n b₁) extra
            ∙ and_then-ok _
                (ap (λ n. grow_buf rt rd n b₁) (add64_pos b₁.w 1 (omega arith))
                  ∙ no_growth b₁ space)
                (rw (reads, read_more) refl)),
        stays,
      )

  -- So does `fill`.
  pub fill_eof :
      (b : BufioR Src)
      → IsAtEnd rd b
      → (b' : BufioR Src) × (fill rt rd b ≡ err eof b') × IsAtEnd rd b'
  unfolding fill
  fill_eof b h =
      let (b₁, c) = compact_lem b h.valid in
      let (front, stays) = received-IsAtEnd rd b b₁ h c in
      let ends : IsExhausted rd b₁.rd = subst (IsExhausted rd) (sym c.same_rd) h.ends in
      (
        received b₁ b₁.rd [],
        and_then-ok _ c.runs (
            rw
              (
                lt→ltb b₁.w (length b₁.buf) (omega (arith, c.same_length, front, h.room)),
                ends (length b₁.buf - b₁.w),
              )
              refl),
        stays,
      )

module _ (rd : IoReader) where
  open rd use {Src, read}

  -- One `Read` gives a byte or more.
  one_read :
      (f room : ℕ) (s s' : Src) (c : ℕ) (p : Bytes)
      → 1 < f
      → 0 < room
      → read (room - 0) s ≡ record { bytes = c ∷ p; error = none; next = s' }
      → read_at_least rd f room 1 s ≡ some (record { bytes = c ∷ p; error = none; next = s' })
  unfolding read_at_least
  one_read zero room s s' c p h r e = elim h [ ]
  one_read (suc zero) room s s' c p h r e = absurd (omega arith)
  one_read (suc (suc f)) room s s' c p h r e =
      rw (le→ltb_false room 1 r, e, e) (rw (le→ltb_false (suc (length p)) 1 (omega arith)))

-- a reader with nothing buffered, in front of the bytes of a `bytes.Reader`
abbrev pub unread : Bytes → Bytes → BufioR Bytes
unread text buf = record { rd = text; buf = buf; r = 0; w = 0 }

module _ (rt : Runtime) (buf : Bytes) (c : ℕ) (text : Bytes) (small : length buf ≤ buf_limit)
    (fits : length (c ∷ text) ≤ length buf) (fuel : 1 < rt.rounds) where
  pub unread-IsValid : IsValid (unread (c ∷ text) buf)
  unread-IsValid = record { r-le-w = omega arith; w-le-length = omega arith; length-le = small }

  unread-Compacted : Compacted (unread (c ∷ text) buf) (unread (c ∷ text) buf)
  unfolding compact
  unread-Compacted = record {
    runs = refl;
    valid = unread-IsValid;
    same_window = refl;
    at_front = refl;
    same_length = refl;
    same_rd = refl;
  }

  read_whole :
      (n : ℕ)
      → length (c ∷ text) ≤ n
      → bytes_reader.read n (c ∷ text) ≡ record { bytes = c ∷ text; error = none; next = [] }
  read_whole n h = λ i. record {
    bytes = take_all n (c ∷ text) h i;
    error = none;
    next = drop_all n (c ∷ text) h i;
  }

  reads :
      read_at_least bytes_reader rt.rounds (length buf - 0) 1 (c ∷ text)
      ≡ some (record { bytes = c ∷ text; error = none; next = [] })
  reads =
      one_read bytes_reader rt.rounds (length buf - 0) (c ∷ text) [] c text fuel (omega arith)
        (read_whole (length buf - 0 - 0) (omega arith))

  -- The first byte is wanted, and all are read.
  pub require_all :
      require rt bytes_reader (pos 1) (unread (c ∷ text) buf)
      ≡ ok tt (received (unread (c ∷ text) buf) [] (c ∷ text))
  unfolding grow_and_read read_more
  require_all =
      require_short rt bytes_reader (unread (c ∷ text) buf) 1 unread-IsValid (omega arith)
        (unread (c ∷ text) buf) unread-Compacted (omega arith)
        (and_then-ok _
          (ap (λ n. grow_buf rt bytes_reader n (unread (c ∷ text) buf))
              (add64_pos 0 1 (omega arith))
            ∙ no_growth rt bytes_reader (unread (c ∷ text) buf) (omega arith))
          (rw (reads, read_more) refl))

  pub received-window : window (received (unread (c ∷ text) buf) [] (c ∷ text)) ≡ c ∷ text
  received-window = window-received (unread (c ∷ text) buf) [] (c ∷ text) unread-IsValid refl

  pub received_all-IsValid : IsValid (received (unread (c ∷ text) buf) [] (c ∷ text))
  received_all-IsValid =
      received-IsValid (unread (c ∷ text) buf) [] (c ∷ text) unread-IsValid (omega arith)
