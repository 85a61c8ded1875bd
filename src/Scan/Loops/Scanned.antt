-- ===== src/Scan/Loops/Scanned.antt =====
-- resp/scan.go: the loops of `scanArray` where every reply is scanned.
use redeo.Base.{
  ◌≤◌, ℕ, zero, suc, ◌-◌, ◌*◌, ◌/◌, ◌%◌, ◌≡◌, refl, ap, sym, ◌∙◌, Bool, true, false, none, arith,
  ltb, ◌==◌, ◌&&◌, le→ltb_false,
}
use redeo.Io.{Runtime}
use redeo.Monad.{ok}
use redeo.Reader.Window.{advanced}
use redeo.Reader.{BufioR}
use redeo.Scan.Loops.{
  OneOf, after, element_step, scan_elements, value_step, key_step, pair_step, scan_pairs,
  scan_array,
}
use redeo.Scan.Variables.{
  Var, slice_var, map_var, nil_map_var, Vars, no_vars, var, Entries, no_entries, count_vars,
  size_of, pointer, add_entry, add_zeros, element_dst, element_of,
}

module _ {Float : Type 0} where
  zeros_none : (xs : Vars Float) (z : Var Float) → add_zeros 0 z xs ≡ xs
  zeros_none no_vars z = refl
  zeros_none (var x xs) z = ap (var x) (zeros_none xs z)

  zeros_var :
      (n : ℕ) (z x : Var Float) (xs : Vars Float)
      → add_zeros n z (var x xs) ≡ var x (add_zeros n z xs)
  zeros_var zero z x xs = refl
  zeros_var (suc n) z x xs = refl

  -- How many elements are missing, before each round of the loop.
  pub zeros_done : (z : Var Float) (xs : Vars Float) → add_zeros (0 - count_vars xs) z xs ≡ xs
  zeros_done z xs = ap (λ n. add_zeros n z xs) {y = 0} (omega arith) ∙ zeros_none xs z

  pub zeros_more :
      (n : ℕ) (z : Var Float)
      → add_zeros (suc n - 0) z no_vars ≡ var z (add_zeros (n - 0) z no_vars)
  zeros_more n z = ap (λ m. add_zeros m z no_vars) {y = suc (n - 0)} (omega arith)

  pub zeros_next :
      (n : ℕ) (z x : Var Float) (xs : Vars Float)
      → add_zeros (suc n - suc (count_vars xs)) z (var x xs)
        ≡ var x (add_zeros (n - count_vars xs) z xs)
  zeros_next n z x xs =
      ap (λ m. add_zeros m z (var x xs)) {y = n - count_vars xs} (omega arith)
      ∙ zeros_var (n - count_vars xs) z x xs

module _ {Src Float : Type 0} (one : OneOf Src Float) where
  -- One element, and the rest.
  pub next_element :
      (n : ℕ) (x : Var Float) (xs : Vars Float) (b : BufioR Src) (y : Var Float) (ys : Vars Float)
      (b' b'' : BufioR Src)
      → (element_dst x ≡ pointer x) × (element_of x (pointer y) ≡ y)
      → one (pointer x) b ≡ ok tt (b', pointer y)
      → scan_elements one n xs b' ≡ ok none (b'', ys)
      → scan_elements one (suc n) (var x xs) b ≡ ok none (b'', var y ys)
  unfolding scan_elements
  next_element n x xs b y ys b' b'' (at, back) e h =
      ap (λ d. element_step x (one d b) (scan_elements one n xs)) at
      ∙ ap (λ o. element_step x o (scan_elements one n xs)) e
      ∙ ap (after none (var (element_of x (pointer y)))) h
      ∙ ap (λ v. ok none (b'', var v ys)) back

  pub no_elements_scanned :
      (xs ys : Vars Float) (b : BufioR Src)
      → ys ≡ xs
      → scan_elements one 0 xs b ≡ ok none (advanced b 0, ys)
  unfolding scan_elements
  no_elements_scanned xs ys b e =
      ap (λ r. ok none (record b { r = r }, xs)) (omega arith)
      ∙ ap (λ vs. ok none (advanced b 0, vs)) (sym e)

  pub no_pairs_scanned :
      (kz vz : Var Float) (es es' : Entries Float) (b : BufioR Src)
      → es' ≡ es
      → scan_pairs one kz vz 0 none es b ≡ ok none (advanced b 0, es')
  unfolding scan_pairs
  no_pairs_scanned kz vz es es' b e =
      ap (λ r. ok none (record b { r = r }, es)) (omega arith)
      ∙ ap (λ vs. ok none (advanced b 0, vs)) (sym e)

  -- One pair, and the rest.
  pub next_pair :
      (n : ℕ) (kz vz : Var Float) (es es' : Entries Float) (k v : Var Float)
      (b b₁ b₂ b₃ : BufioR Src)
      → one (pointer kz) b ≡ ok tt (b₁, pointer k)
      → one (pointer vz) b₁ ≡ ok tt (b₂, pointer v)
      → scan_pairs one kz vz n none (add_entry k v es) b₂ ≡ ok none (b₃, es')
      → scan_pairs one kz vz (suc n) none es b ≡ ok none (b₃, es')
  unfolding scan_pairs
  next_pair n kz vz es es' k v b b₁ b₂ b₃ e e' h =
      ap (λ o. pair_step none es (key_step one kz vz o) (scan_pairs one kz vz n)) e
      ∙ ap (λ o. pair_step none es (value_step k vz o) (scan_pairs one kz vz n)) e'
      ∙ h

and_false : (t : Bool) → (t && false) ≡ false
and_false true = refl
and_false false = refl

even : (n : ℕ) → ((n * 2) % 2 == 0) ≡ true
even n = ground arith

half : (n : ℕ) → (n * 2) / 2 ≡ n
half n = omega arith

module _ (rt : Runtime) {Src Float : Type 0} (one : OneOf Src Float) where
  pub slice_scanned :
      (n : ℕ) (z : Var Float) (xs ys : Vars Float) (b b' : BufioR Src)
      → size_of z * n ≤ rt.max_alloc
      → scan_elements one n (add_zeros (n - count_vars xs) z xs) b ≡ ok none (b', ys)
      → scan_array rt one n (pointer (slice_var z xs)) b ≡ ok tt (b', pointer (slice_var z ys))
  unfolding scan_array
  slice_scanned n z xs ys b b' alloc h =
      rw (le→ltb_false rt.max_alloc (size_of z * n) alloc, and_false (ltb (count_vars xs) n), h)

  pub map_scanned :
      (n : ℕ) (kz vz : Var Float) (es es' : Entries Float) (b b' : BufioR Src)
      → scan_pairs one kz vz n none es b ≡ ok none (b', es')
      → scan_array rt one (n * 2) (pointer (map_var kz vz es)) b
        ≡ ok tt (b', pointer (map_var kz vz es'))
  unfolding scan_array
  map_scanned n kz vz es es' b b' h = rw (even n, half n, h)

  pub nil_map_scanned :
      (n : ℕ) (kz vz : Var Float) (es' : Entries Float) (b b' : BufioR Src)
      → scan_pairs one kz vz n none no_entries b ≡ ok none (b', es')
      → scan_array rt one (n * 2) (pointer (nil_map_var kz vz)) b
        ≡ ok tt (b', pointer (map_var kz vz es'))
  unfolding scan_array
  nil_map_scanned n kz vz es' b b' h = rw (even n, half n, h)
