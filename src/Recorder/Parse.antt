-- ===== src/Recorder/Parse.antt =====
-- redeotest/redeotest.go: `parseResult` on what `Append` of resp/value.go writes.
use redeo.Base.{ℕ, zero, suc, ◌*◌, ◌≡◌, ap, ◌∙◌, true, false, ◌++◌, Bytes, arith, length}
use redeo.Base.Int.{pos, signed, signed-IsInt64}
use redeo.Io.{Runtime, IoReader}
use redeo.Monad.{ok, and_then-ok}
use redeo.Reader.Window.{IsValid, window, advanced, advanced_twice, behind}
use redeo.Reader.{BufioR, R}
use redeo.Recorder.{Item, Items, no_items, item, parse_items, parse_result}
use redeo.Value.Output.{shown, shown_elements, shown_pairs}
use redeo.Value.{
  GoValue, nil_value, custom, error_value, bool, int, uint, bulk_string, byte_slice, float,
  slice_value, map_value, unsupported, Elements, no_elements, element, Pairs, no_pairs, key_value,
  error_text, count_elements, count_pairs,
}
use redeo.Wire.{size_line}
use redeo.Recorder.Leaves.{
  parse_number, parse_inline, parse_error, parse_nil, parse_bulk, parse_entries,
}
use redeo.Recorder.Decoded.{
  decoded, decoded_elements, decoded_pairs, IsReadable, AreReadable, PairsAreReadable,
}

module _ (rd : IoReader) where
  -- One entry, and the rest.
  next_item :
      (one : R rd.Src Item) (n : ℕ) (b : BufioR rd.Src) (p q : Bytes) {x : Item} {xs : Items}
      → one b ≡ ok x (advanced b (length p))
      → parse_items one n (advanced b (length p))
        ≡ ok xs (advanced (advanced b (length p)) (length q))
      → parse_items one (suc n) b ≡ ok (item x xs) (advanced b (length (p ++ q)))
  unfolding parse_items
  next_item one n b p q {x} {xs} e h =
      and_then-ok _ e (and_then-ok _ h (ap (ok (item x xs)) (advanced_twice b p q)))

  no_more :
      (one : R rd.Src Item) (b : BufioR rd.Src) → parse_items one 0 b ≡ ok no_items (advanced b 0)
  unfolding parse_items
  no_more one b = ap (λ n. ok no_items (record b { r = n })) (omega arith)

module _ (rt : Runtime) (rd : IoReader) {Snk : Type 0} where
  mutual
    value_lem :
        (d : ℕ) (v : GoValue Snk) (b : BufioR rd.Src) (more : Bytes)
        → IsReadable rt d v
        → IsValid b
        → window b ≡ shown v ++ more
        → parse_result rt rd (suc d) b ≡ ok (decoded v) (advanced b (length (shown v)))
    value_lem d nil_value b more h v e = parse_nil rt rd d b more v e
    value_lem d (custom append_to) b more h v e = absurd h
    value_lem d (error_value msg) b more h v e = parse_error rt rd d b more v (error_text msg) h e
    value_lem d (bool true) b more h v e = parse_number rt rd d b more v (pos 1) (omega arith) e
    value_lem d (bool false) b more h v e = parse_number rt rd d b more v (pos 0) (omega arith) e
    value_lem d (int n) b more h v e = parse_number rt rd d b more v n h e
    value_lem d (uint n) b more h v e =
        parse_number rt rd d b more v (signed n) (signed-IsInt64 n h) e
    value_lem d (bulk_string p) b more h v e = parse_bulk rt rd d b more v p e
    value_lem d (byte_slice p) b more h v e = parse_bulk rt rd d b more v p e
    value_lem d (float t) b more h v e = parse_inline rt rd d b more v t h e
    value_lem zero (slice_value vs) b more h v e = absurd h
    value_lem (suc d) (slice_value vs) b more (fits, h) v e =
        let mark = size_line b'*' (count_elements vs) in
        let (_, v', e') = behind b mark (shown_elements vs) more v e in
        parse_entries rt rd (suc d) b more v (count_elements vs) (shown_elements vs) fits e (
          elements_lem d vs (advanced b (length mark)) more h v' e'
          ∙ ap (ok (decoded_elements vs)) (advanced_twice b mark (shown_elements vs)))
    value_lem zero (map_value ps) b more h v e = absurd h
    value_lem (suc d) (map_value ps) b more (fits, h) v e =
        let mark = size_line b'*' (count_pairs ps * 2) in
        let (_, v', e') = behind b mark (shown_pairs ps) more v e in
        parse_entries rt rd (suc d) b more v (count_pairs ps * 2) (shown_pairs ps) fits e (
          pairs_lem d ps (advanced b (length mark)) more h v' e'
          ∙ ap (ok (decoded_pairs ps)) (advanced_twice b mark (shown_pairs ps)))
    value_lem d (unsupported name) b more h v e = absurd h

    elements_lem :
        (d : ℕ) (vs : Elements Snk) (b : BufioR rd.Src) (more : Bytes)
        → AreReadable rt d vs
        → IsValid b
        → window b ≡ shown_elements vs ++ more
        → parse_items (parse_result rt rd (suc d)) (count_elements vs) b
          ≡ ok (decoded_elements vs) (advanced b (length (shown_elements vs)))
    elements_lem d no_elements b more h v e = no_more rd (parse_result rt rd (suc d)) b
    elements_lem d (element x vs) b more (h, hs) v e =
        let (split, v', e') = behind b (shown x) (shown_elements vs) more v e in
        next_item rd (parse_result rt rd (suc d)) (count_elements vs) b (shown x)
          (shown_elements vs) (value_lem d x b (shown_elements vs ++ more) h v split)
          (elements_lem d vs (advanced b (length (shown x))) more hs v' e')

    pairs_lem :
        (d : ℕ) (ps : Pairs Snk) (b : BufioR rd.Src) (more : Bytes)
        → PairsAreReadable rt d ps
        → IsValid b
        → window b ≡ shown_pairs ps ++ more
        → parse_items (parse_result rt rd (suc d)) (count_pairs ps * 2) b
          ≡ ok (decoded_pairs ps) (advanced b (length (shown_pairs ps)))
    pairs_lem d no_pairs b more h v e =
        ap (λ n. parse_items (parse_result rt rd (suc d)) n b) (omega arith)
        ∙ no_more rd (parse_result rt rd (suc d)) b
    pairs_lem d (key_value k x ps) b more (hk, hx, hs) v e =
        let one = parse_result rt rd (suc d) in
        let rest = shown x ++ shown_pairs ps in
        let (split, v', e') = behind b (shown k) rest more v e in
        let b' = advanced b (length (shown k)) in
        let (split', v'', e'') = behind b' (shown x) (shown_pairs ps) more v' e' in
        ap (λ n. parse_items one n b) (omega arith)
        ∙ next_item rd one (suc (count_pairs ps * 2)) b (shown k) rest
            (value_lem d k b (rest ++ more) hk v split)
            (next_item rd one (count_pairs ps * 2) b' (shown x) (shown_pairs ps)
              (value_lem d x b' (shown_pairs ps ++ more) hx v' split')
              (pairs_lem d ps (advanced b' (length (shown x))) more hs v'' e''))

  -- `parseResult` on a valid reader that holds what `Append` writes for a readable value, with
  -- anything behind it, returns that value, with every entry of its slices and maps in order, and
  -- stops behind it, if the fuel exceeds the depth of the nested arrays.
  pub parse_result-shown :
      (d : ℕ) (x : GoValue Snk) (b : BufioR rd.Src) (more : Bytes)
      → IsReadable rt d x
      → IsValid b
      → window b ≡ shown x ++ more
      → parse_result rt rd (suc d) b ≡ ok (decoded x) (advanced b (length (shown x)))
  parse_result-shown d x b more h v e = value_lem d x b more h v e
