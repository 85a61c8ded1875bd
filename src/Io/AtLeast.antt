-- ===== src/Io/AtLeast.antt =====
-- `io.ReadAtLeast` on a stream that holds enough bytes.
use redeo.Base.{
  ℕ, zero, suc, ◌+◌, ◌-◌, ◌≤◌, ◌<◌, ◌≡◌, refl, ap, sym, ◌∙◌, ◌⊎◌, inl, inr, true, Option, none,
  some, [], ◌∷◌, ◌++◌, Bytes, arith, ltb, length, length-append, append_assoc, Bool-cases,
  Option-cases, ltb→lt, le→leb, le→ltb_false,
}
use redeo.Errors.{Error}
use redeo.Io.{IoReader, Chunk, read_loop, read_at_least, at_least_error}
use redeo.Io.Stream.{IsStream}

at_least_error-none : (e : Option Error) (least n : ℕ) → least ≤ n → at_least_error least n e ≡ none
unfolding at_least_error
at_least_error-none none least n h = refl
at_least_error-none (some e) least n h = rw (le→leb least n h)

module _ (io : IoReader) (st : IsStream io) where
  open io use {Src, read}
  open st use {rest, read-splits, read-fits, read-progress, read-no_error}

  -- What the loop gives: `got` and the stream, cut behind the bytes of the result.
  pub record Reads (room least : ℕ) (got : Bytes) (src : Src) (c : Chunk Src) : Type 0 where
    pub splits : got ++ rest src ≡ c.bytes ++ rest c.next
    pub fits : length c.bytes ≤ room
    pub enough : least ≤ length c.bytes

  -- A `Read` with an error has reached the end.
  pub last_read :
      (n : ℕ) (s : Src) {e : Error} → (read n s).error ≡ some e → length (rest (read n s).next) ≡ 0
  last_read n s e = elim (rest_cases (rest (read n s).next)) [
    | inl z ↦ z
    | inr p ↦ cc (read-no_error n s p, e)
  ]
    where
      rest_cases : (l : Bytes) → (length l ≡ 0) ⊎ (0 < length l)
      rest_cases [] = inl refl
      rest_cases (x ∷ l) = inr (omega arith)

  read_loop-Reads :
      (f room least : ℕ) (got : Bytes) (src : Src)
      → length got ≤ room
      → least ≤ room
      → least ≤ length got + length (rest src)
      → least < f + length got
      → 0 < f
      → (c : Chunk Src) × (read_loop io f room least got src ≡ some c) × Reads room least got src c
  unfolding read_loop
  read_loop-Reads zero room least got src fit room_fits has fuel some_fuel = elim some_fuel [ ]
  read_loop-Reads (suc f) room least got src fit room_fits has fuel some_fuel =
      elim (Bool-cases (ltb (length got) least)) [
        | inr full ↦ (
          record { bytes = got; error = none; next = src },
          rw full,
          record { splits = refl; fits = fit; enough = ground arith },
        )
        | inl short ↦
            let c = read (room - length got) src in
            round short (read_loop-Reads f room least (got ++ c.bytes) c.next)
              (Option-cases c.error)
      ]
    where
      k : ℕ
      k = room - length got

      chunk : Chunk Src
      chunk = read k src

      cut : got ++ rest src ≡ (got ++ chunk.bytes) ++ rest chunk.next
      cut = ap (◌++◌ got) (read-splits k src) ∙ sym (append_assoc got chunk.bytes (rest chunk.next))

      -- what the loop gives from the next round on
      Rest : Type 0
      Rest =
          length (got ++ chunk.bytes) ≤ room
          → least ≤ room
          → least ≤ length (got ++ chunk.bytes) + length (rest chunk.next)
          → least < f + length (got ++ chunk.bytes)
          → 0 < f
          → (c : Chunk Src) × (read_loop io f room least (got ++ chunk.bytes) chunk.next ≡ some c)
            × Reads room least (got ++ chunk.bytes) chunk.next c

      total :
          length got + length (rest src) ≡ length (got ++ chunk.bytes) + length (rest chunk.next)
      total = omega (
        arith,
        ap length cut,
        length-append got (rest src),
        length-append (got ++ chunk.bytes) (rest chunk.next),
      )

      grows : ltb (length got) least ≡ true → length got < length (got ++ chunk.bytes)
      grows short =
          let lt = ltb→lt (length got) least short in
          omega
            (arith, length-append got chunk.bytes, read-progress k src (omega arith) (omega arith))

      round :
          ltb (length got) least ≡ true
          → Rest
          → (chunk.error ≡ none) ⊎ ((e : Error) × (chunk.error ≡ some e))
          → (c : Chunk Src) × (read_loop io (suc f) room least got src ≡ some c)
            × Reads room least got src c
      round short _ (inr (e, bad)) = (
        record { bytes = got ++ chunk.bytes; error = some e; next = chunk.next },
        rw (short, bad),
        record {
          splits = cut;
          fits = omega (arith, read-fits k src, length-append got chunk.bytes);
          enough = omega (arith, last_read k src bad, total);
        },
      )
      round short later (inl good) =
          let (c, runs, reads) =
            later (omega (arith, read-fits k src, length-append got chunk.bytes)) room_fits
              (omega (arith, total)) (omega (arith, grows short))
              (omega (arith, ltb→lt (length got) least short)) in
          (
            c,
            rw (short, good) runs,
            record { splits = cut ∙ reads.splits; fits = reads.fits; enough = reads.enough },
          )

  -- `io.ReadAtLeast` with room and fuel for the bytes that the stream has.
  pub read_at_least-Reads :
      (fuel room least : ℕ) (src : Src)
      → least ≤ room
      → least ≤ length (rest src)
      → least < fuel
      → (c : Chunk Src) × (read_at_least io fuel room least src ≡ some c)
        × (c.error ≡ none)
        × Reads room least [] src c
  unfolding read_at_least
  read_at_least-Reads fuel room least src fits has fuelled =
      let (c, runs, reads) =
        read_loop-Reads fuel room least [] src (omega arith) fits (omega arith) (omega arith)
          (omega arith) in
      (
        record c { error = none },
        rw (le→ltb_false room least fits, runs)
            (ap (λ e. some (record c { error = e }))
              (at_least_error-none c.error least (length c.bytes) reads.enough)),
        refl,
        record { splits = reads.splits; fits = reads.fits; enough = reads.enough },
      )
