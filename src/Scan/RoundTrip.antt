-- ===== src/Scan/RoundTrip.antt =====
-- resp/value.go and resp/scan.go: `Scan` on what `Append` writes.
use redeo.Base.{
  ◌+◌, List, [], ◌∷◌, ℕ, zero, suc, ◌-◌, ◌*◌, ◌≡◌, refl, ap, sym, ◌∙◌, true, false, none, ◌++◌,
  Bytes, arith, length,
}
use redeo.Base.Int.{signed-IsInt64}
use redeo.Io.{Runtime, IoReader}
use redeo.Monad.{ok}
use redeo.Reader.Window.{advanced_twice, behind, IsValid, window, advanced}
use redeo.Reader.{BufioR}
use redeo.Recorder.Decoded.{IsReadable, AreReadable, PairsAreReadable}
use redeo.Recorder.Responses.{AreReadable-AreStandard}
use redeo.Writer.{BufioW}
use redeo.Scan.Assign.{Floats}
use redeo.Scan.Leaves.{int_leaf, uint_leaf, bool_leaf, nil_leaf, float_leaf, text_leaf, array_leaf}
use redeo.Scan.Loops.Scanned.{
  next_element, next_pair, zeros_done, zeros_more, zeros_next, slice_scanned, map_scanned,
  nil_map_scanned, no_elements_scanned, no_pairs_scanned,
}
use redeo.Scan.Loops.{Result, scan_elements, scan_pairs}
use redeo.Scan.Receives.{ReceiveEach, pointers, Receives, ReceiveAll, ReceivePairs}
use redeo.Scan.Variables.{
  Var, slice_var, map_var, nil_map_var, pointer_var, nil_pointer_var, Vars, no_vars, var, Entries,
  no_entries, count_vars, Dst, pointer, add_zeros, add_entry, element_dst, element_of,
}
use redeo.Scan.{scan, scan_rest, scan_all}
use redeo.Value.Output.{append_elements-Appends, shown, shown_elements, shown_pairs}
use redeo.Value.{
  append_elements, GoValue, nil_value, custom, error_value, bool, int, uint, bulk_string,
  byte_slice, float, slice_value, map_value, unsupported, Elements, no_elements, element, Pairs,
  no_pairs, key_value, count_elements, count_pairs,
}
use redeo.Wire.{size_line}

-- A variable that takes a value is no pointer, so `scanArray` passes on the element itself.
module _ {Snk : Type 0} (rt : Runtime) (fl : Floats) where
  element_dst-same :
      (v : GoValue Snk) (x y : Var fl.Float)
      → Receives rt fl v x y
      → (element_dst x ≡ pointer x) × (element_of x (pointer y) ≡ y)
  element_dst-same (slice_value vs) (pointer_var x) y h = absurd h
  element_dst-same (map_value ps) (pointer_var x) y h = absurd h
  element_dst-same v (pointer_var x) y h = absurd h
  element_dst-same v (nil_pointer_var x) y h = absurd h
  element_dst-same v x y h = (refl, refl)

-- Behind two parts, with what is left there.
module _ {Src A B : Type 0} where
  joined :
      (g : BufioR Src → A → B) (b : BufioR Src) (p q : Bytes) {x y : A}
      → y ≡ x
      → g (advanced (advanced b (length p)) (length q)) x ≡ g (advanced b (length (p ++ q))) y
  joined g b p q {x} e =
      ap (λ c. g c x) (advanced_twice b p q) ∙ ap (g (advanced b (length (p ++ q)))) (sym e)

module _ (rt : Runtime) (rd : IoReader) (fl : Floats) where
  open fl use {Float}

  -- The destinations behind the first one.
  rest_scanned :
      (ds ds' : List (Dst Float)) (d : Dst Float) (b b' : BufioR rd.Src)
      (rest : BufioR rd.Src → Result rd.Src (List (Dst Float)))
      → rest b ≡ ok tt (b', ds')
      → scan_rest rt rd fl ds (ok tt (b, d)) rest ≡ ok tt (b', d ∷ ds')
  unfolding scan_rest
  rest_scanned ds ds' d b b' rest e = rw (e, scan_rest)

module _ (rt : Runtime) (rd : IoReader) (fl : Floats) {Snk : Type 0} where
  open fl use {Float}

  mutual
    pub value_lem :
        (d : ℕ) (v : GoValue Snk) (x y : Var Float) (b : BufioR rd.Src) (more : Bytes)
        → IsReadable rt d v
        → Receives rt fl v x y
        → IsValid b
        → window b ≡ shown v ++ more
        → scan rt rd fl (suc d) (pointer x) b ≡ ok tt (advanced b (length (shown v)), pointer y)
    value_lem d nil_value x y b more h t v e = nil_leaf rt rd fl d b more v x y t e
    value_lem d (custom append_to) x y b more h t v e = absurd h
    value_lem d (error_value msg) x y b more h t v e = absurd t
    value_lem d (bool true) x y b more h t v e =
        bool_leaf rt rd fl d b more v true x y t (omega arith) e
    value_lem d (bool false) x y b more h t v e =
        bool_leaf rt rd fl d b more v false x y t (omega arith) e
    value_lem d (int n) x y b more h t v e = int_leaf rt rd fl d b more v n x y t h e
    value_lem d (uint n) x y b more h t v e =
        uint_leaf rt rd fl d b more v n x y t (signed-IsInt64 n h) e
    value_lem d (bulk_string p) x y b more h t v e = text_leaf rt rd fl d b more v p x y t e
    value_lem d (byte_slice p) x y b more h t v e = text_leaf rt rd fl d b more v p x y t e
    value_lem d (float text) x y b more h t v e = float_leaf rt rd fl d b more v text x y t h e
    value_lem zero (slice_value vs) x y b more h t v e = absurd h
    value_lem (suc d) (slice_value vs) (slice_var z xs) y b more (fits, h) (ys, eq, alloc, t) v e =
        let mark = size_line b'*' (count_elements vs) in
        let (_, v', e') = behind b mark (shown_elements vs) more v e in
        array_leaf rt rd fl (suc d) b more v (count_elements vs) (shown_elements vs)
          (slice_var z xs) y _ fits e
          (slice_scanned rt (scan rt rd fl (suc d)) (count_elements vs) z xs ys _ _ alloc
              (elements_lem d vs z xs ys (advanced b (length mark)) more h t v' e')
            ∙ joined (λ c u. ok tt (c, pointer u)) b mark (shown_elements vs) eq)
    value_lem (suc d) (slice_value vs) x y b more h t v e = absurd t
    value_lem zero (map_value ps) x y b more h t v e = absurd h
    value_lem (suc d) (map_value ps) (map_var kz vz es) y b more (fits, h) (es', eq, t) v e =
        let mark = size_line b'*' (count_pairs ps * 2) in
        let (_, v', e') = behind b mark (shown_pairs ps) more v e in
        array_leaf rt rd fl (suc d) b more v (count_pairs ps * 2) (shown_pairs ps)
          (map_var kz vz es) y _ fits e
          (map_scanned rt (scan rt rd fl (suc d)) (count_pairs ps) kz vz es es' _ _
              (pairs_lem d ps kz vz es es' (advanced b (length mark)) more h t v' e')
            ∙ joined (λ c u. ok tt (c, pointer u)) b mark (shown_pairs ps) eq)
    value_lem (suc d) (map_value ps) (nil_map_var kz vz) y b more (fits, h) (es', eq, t) v e =
        let mark = size_line b'*' (count_pairs ps * 2) in
        let (_, v', e') = behind b mark (shown_pairs ps) more v e in
        array_leaf rt rd fl (suc d) b more v (count_pairs ps * 2) (shown_pairs ps)
          (nil_map_var kz vz) y _ fits e
          (nil_map_scanned rt (scan rt rd fl (suc d)) (count_pairs ps) kz vz es' _ _
              (pairs_lem d ps kz vz no_entries es' (advanced b (length mark)) more h t v' e')
            ∙ joined (λ c u. ok tt (c, pointer u)) b mark (shown_pairs ps) eq)
    value_lem (suc d) (map_value ps) x y b more h t v e = absurd t
    value_lem d (unsupported name) x y b more h t v e = absurd h

    elements_lem :
        (d : ℕ) (vs : Elements Snk) (z : Var Float) (xs ys : Vars Float) (b : BufioR rd.Src)
        (more : Bytes)
        → AreReadable rt d vs
        → ReceiveAll rt fl vs z xs ys
        → IsValid b
        → window b ≡ shown_elements vs ++ more
        → scan_elements
            (scan rt rd fl (suc d))
            (count_elements vs)
            (add_zeros (count_elements vs - count_vars xs) z xs)
            b
          ≡ ok none (advanced b (length (shown_elements vs)), ys)
    elements_lem d no_elements z xs ys b more h t v e =
        ap (λ us. scan_elements (scan rt rd fl (suc d)) 0 us b) (zeros_done z xs)
        ∙ no_elements_scanned (scan rt rd fl (suc d)) xs ys b t
    elements_lem d (element x vs) z no_vars ys b more (h, hs) (y, ys', eq, t, ts) v e =
        let (split, v', e') = behind b (shown x) (shown_elements vs) more v e in
        let at = value_lem d x z y b (shown_elements vs ++ more) h t v split in
        let rest =
          elements_lem d vs z no_vars ys' (advanced b (length (shown x))) more hs ts v' e' in
        ap (λ us. scan_elements (scan rt rd fl (suc d)) (suc (count_elements vs)) us b)
          (zeros_more (count_elements vs) z)
        ∙ next_element (scan rt rd fl (suc d)) (count_elements vs) z _ b y ys' _ _
            (element_dst-same rt fl x z y t) at rest
        ∙ joined (λ c us. ok none (c, us)) b (shown x) (shown_elements vs) eq
    elements_lem d (element x vs) z (var w xs) ys b more (h, hs) (y, ys', eq, t, ts) v e =
        let (split, v', e') = behind b (shown x) (shown_elements vs) more v e in
        let at = value_lem d x w y b (shown_elements vs ++ more) h t v split in
        let rest = elements_lem d vs z xs ys' (advanced b (length (shown x))) more hs ts v' e' in
        ap (λ xs'. scan_elements (scan rt rd fl (suc d)) (suc (count_elements vs)) xs' b)
          (zeros_next (count_elements vs) z w xs)
        ∙ next_element (scan rt rd fl (suc d)) (count_elements vs) w _ b y ys' _ _
            (element_dst-same rt fl x w y t) at rest
        ∙ joined (λ c us. ok none (c, us)) b (shown x) (shown_elements vs) eq

    pairs_lem :
        (d : ℕ) (ps : Pairs Snk) (kz vz : Var Float) (es es' : Entries Float) (b : BufioR rd.Src)
        (more : Bytes)
        → PairsAreReadable rt d ps
        → ReceivePairs rt fl ps kz vz es es'
        → IsValid b
        → window b ≡ shown_pairs ps ++ more
        → scan_pairs (scan rt rd fl (suc d)) kz vz (count_pairs ps) none es b
          ≡ ok none (advanced b (length (shown_pairs ps)), es')
    pairs_lem d no_pairs kz vz es es' b more h t v e =
        no_pairs_scanned (scan rt rd fl (suc d)) kz vz es es' b t
    pairs_lem d (key_value k x ps) kz vz es es' b more (hk, hx, hs) (k', x', tk, tx, ts) v e =
        let rest = shown x ++ shown_pairs ps in
        let (split, v', e') = behind b (shown k) rest more v e in
        let b' = advanced b (length (shown k)) in
        let (split', v'', e'') = behind b' (shown x) (shown_pairs ps) more v' e' in
        next_pair (scan rt rd fl (suc d)) (count_pairs ps) kz vz es es' k' x' b b'
          (advanced b' (length (shown x)))
          (advanced (advanced b' (length (shown x))) (length (shown_pairs ps)))
          (value_lem d k kz k' b (rest ++ more) hk tk v split)
          (value_lem d x vz x' b' (shown_pairs ps ++ more) hx tx v' split')
          (pairs_lem d ps kz vz (add_entry k' x' es) es' (advanced b' (length (shown x))) more hs ts
            v'' e'')
        ∙ ap (λ c. ok none (c, es')) (advanced_twice b' (shown x) (shown_pairs ps))
        ∙ ap (λ c. ok none (c, es')) (advanced_twice b (shown k) rest)

  each_lem :
      (d : ℕ) (vs : Elements Snk) (xs ys : Vars Float) (b : BufioR rd.Src) (more : Bytes)
      → AreReadable rt d vs
      → ReceiveEach rt fl vs xs ys
      → IsValid b
      → window b ≡ shown_elements vs ++ more
      → scan_all rt rd fl (suc d) (pointers xs) b
        ≡ ok tt (advanced b (length (shown_elements vs)), pointers ys)
  unfolding scan_all
  each_lem d no_elements no_vars no_vars b more h t v e =
      ap (λ r. ok tt (record b { r = r }, [])) {y = b.r + 0} (omega arith)
  each_lem d (element x vs) (var w xs) (var y ys) b more (h, hs) (t, ts) v e =
      let (split, v', e') = behind b (shown x) (shown_elements vs) more v e in
      ap (λ o. scan_rest rt rd fl (pointers xs) o (scan_all rt rd fl (suc d) (pointers xs)))
        (value_lem d x w y b (shown_elements vs ++ more) h t v split)
      ∙ rest_scanned rt rd fl (pointers xs) (pointers ys) (pointer y)
          (advanced b (length (shown x))) _ (scan_all rt rd fl (suc d) (pointers xs))
          (each_lem d vs xs ys (advanced b (length (shown x))) more hs ts v' e')
      ∙ ap (λ c. ok tt (c, pointer y ∷ pointers ys))
          (advanced_twice b (shown x) (shown_elements vs))
  each_lem d vs xs ys b more h t v e = absurd t

  -- Let values be appended to a writer with nothing pending, one after the other: values that print
  -- in a standard way, with texts that a line can carry, integers in the range of their types, and
  -- arrays that can be allocated and are nested `d` deep at most. Let a valid reader hold what is
  -- pending, with anything behind it, and let `Scan` get a pointer to one variable for every value,
  -- of a type that takes the value (an integer in its width, nil in a `[]byte` or an `interface{}`
  -- and not in a `NullString`, a slice or a map of elements that take those of the value, where an
  -- array for the elements of the slice can be made), and fuel for the depth. Then `Scan` succeeds,
  -- reads exactly what was appended, and every variable holds its value: a text, nil, number,
  -- boolean or float replaces what was there (an empty text replaces a `[]byte` by nil), a slice is
  -- overwritten from its start and made longer where it is too short, and a map gets the pairs as
  -- new assignments.
  pub scan_all-append_elements :
      (d : ℕ) (vs : Elements Snk) (xs ys : Vars Float) (w : BufioW Snk) (b : BufioR rd.Src)
      (more : Bytes)
      → AreReadable rt d vs
      → ReceiveEach rt fl vs xs ys
      → w.buf ≡ []
      → IsValid b
      → window b ≡ (append_elements rt vs w).buf ++ more
      → scan_all rt rd fl (suc d) (pointers xs) b
        ≡ ok tt (advanced b (length (append_elements rt vs w).buf), pointers ys)
  scan_all-append_elements d vs xs ys w b more h t idle v e =
      let p = append_elements-Appends rt vs w (AreReadable-AreStandard rt d vs h) in
      let wrote : (append_elements rt vs w).buf ≡ shown_elements vs =
        p.buf_eq ∙ ap (λ l. l ++ shown_elements vs) idle in
      each_lem d vs xs ys b more h t v (e ∙ ap (λ l. l ++ more) wrote)
      ∙ ap (λ l. ok tt (advanced b (length l), pointers ys)) (sym wrote)
