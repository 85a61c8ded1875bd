-- ===== src/Scan/ErrorReply.antt =====
-- resp/scan.go: `Scan` of several replies, one of which is an error.
use redeo.Base.{List, [], ◌∷◌, ℕ, suc, ◌≡◌, refl, ap, sym, ◌∙◌, ◌++◌, Bytes, length, append_assoc}
use redeo.Io.{Runtime, IoReader}
use redeo.Monad.{ok, err}
use redeo.Reader.Window.{advanced_twice, behind, IsValid, window, advanced}
use redeo.Reader.{BufioR}
use redeo.Recorder.Decoded.{IsLine, AreReadable}
use redeo.Recorder.Responses.{AreReadable-AreStandard}
use redeo.Scan.Assign.{Floats}
use redeo.Scan.Leaves.{error_leaf}
use redeo.Scan.Loops.{Failure, Result, server_error}
use redeo.Scan.Receives.{ReceiveEach, pointers}
use redeo.Scan.RoundTrip.{value_lem}
use redeo.Scan.Variables.{Vars, no_vars, var, Dst, pointer}
use redeo.Scan.{scan_rest, scan_all}
use redeo.Value.Output.{append_elements-Appends, line, shown, shown_elements}
use redeo.Value.{Elements, no_elements, element, append_elements}
use redeo.Writer.Output.{Appends-append, append_error-Appends}
use redeo.Writer.{BufioW, append_error}

module _ (rt : Runtime) (rd : IoReader) (fl : Floats) where
  open fl use {Float}

  -- `Scan` stops at an error, wherever it is.
  stops_at_first :
      (ds : List (Dst Float)) (d : Dst Float) (b b' : BufioR rd.Src) (x : Failure)
      (rest : BufioR rd.Src → Result rd.Src (List (Dst Float))) {o : Result rd.Src (Dst Float)}
      → o ≡ err x (b', d)
      → scan_rest rt rd fl ds o rest ≡ err x (b', d ∷ ds)
  unfolding scan_rest
  stops_at_first ds d b b' x rest e = ap (λ o. scan_rest rt rd fl ds o rest) e

  stops_behind :
      (ds ds' : List (Dst Float)) (d : Dst Float) (b b' b'' : BufioR rd.Src) (x : Failure)
      (rest : BufioR rd.Src → Result rd.Src (List (Dst Float))) {o : Result rd.Src (Dst Float)}
      → o ≡ ok tt (b', d)
      → rest b' ≡ err x (b'', ds')
      → scan_rest rt rd fl ds o rest ≡ err x (b'', d ∷ ds')
  unfolding scan_rest
  stops_behind ds ds' d b b' b'' x rest e h =
      ap (λ o. scan_rest rt rd fl ds o rest) e ∙ rw (h, scan_rest) refl

module _ (rt : Runtime) (rd : IoReader) (fl : Floats) {Snk : Type 0} (msg : Bytes)
    (sayable : IsLine msg) (last : Dst fl.Float) (ds : List (Dst fl.Float)) where
  open fl use {Float}

  each_lem :
      (d : ℕ) (vs : Elements Snk) (xs ys : Vars Float) (b : BufioR rd.Src) (more : Bytes)
      → AreReadable rt d vs
      → ReceiveEach rt fl vs xs ys
      → IsValid b
      → window b ≡ (shown_elements vs ++ line b'-' msg) ++ more
      → scan_all rt rd fl (suc d) (pointers xs ++ last ∷ ds) b
        ≡ err
            (server_error msg)
            (advanced b (length (shown_elements vs ++ line b'-' msg)), pointers ys ++ last ∷ ds)
  unfolding scan_all
  each_lem d no_elements no_vars no_vars b more h t v e =
      stops_at_first rt rd fl ds last b _ (server_error msg) (scan_all rt rd fl (suc d) ds)
        (error_leaf rt rd fl d b more v msg last sayable e)
  each_lem d (element x vs) (var w xs) (var y ys) b more (h, hs) (t, ts) v e =
      let rest = shown_elements vs ++ line b'-' msg in
      let (split, v', e') =
        behind b (shown x) rest more v
          (e ∙ ap (λ l. l ++ more) (append_assoc (shown x) (shown_elements vs) (line b'-' msg))) in
      stops_behind rt rd fl (pointers xs ++ last ∷ ds) (pointers ys ++ last ∷ ds) (pointer y) b
        (advanced b (length (shown x))) _ (server_error msg)
        (scan_all rt rd fl (suc d) (pointers xs ++ last ∷ ds))
        (value_lem rt rd fl d x w y b (rest ++ more) h t v split)
        (each_lem d vs xs ys (advanced b (length (shown x))) more hs ts v' e')
      ∙ ap (λ c. err (server_error msg) (c, pointer y ∷ (pointers ys ++ last ∷ ds)))
          (advanced_twice b (shown x) rest
            ∙ ap (λ l. advanced b (length l))
                (sym (append_assoc (shown x) (shown_elements vs) (line b'-' msg))))
  each_lem d vs xs ys b more h t v e = absurd t

  -- Let values and then an error, with a text that a line can carry, be appended to a writer with
  -- nothing pending, the values with the conditions of the round trip: they print in a standard way
  -- and can be read, and the variables at the front take them. Let a valid reader hold what is
  -- pending, with anything behind it, and let `Scan` get pointers to those variables, then any
  -- further destinations, one at least. Then `Scan` returns the error of the server with its text,
  -- the reader is exactly behind the error, every variable at the front holds its value, and the
  -- other destinations are as they were.
  pub scan_all-append_error :
      (d : ℕ) (vs : Elements Snk) (xs ys : Vars Float) (w : BufioW Snk) (b : BufioR rd.Src)
      (more : Bytes)
      → AreReadable rt d vs
      → ReceiveEach rt fl vs xs ys
      → w.buf ≡ []
      → IsValid b
      → window b ≡ (append_error rt msg (append_elements rt vs w)).buf ++ more
      → scan_all rt rd fl (suc d) (pointers xs ++ last ∷ ds) b
        ≡ err (server_error msg) (
          advanced b (length (append_error rt msg (append_elements rt vs w)).buf),
          pointers ys ++ last ∷ ds,
        )
  scan_all-append_error d vs xs ys w b more h t idle v e =
      let p =
        Appends-append (shown_elements vs) (line b'-' msg)
          (append_elements-Appends rt vs w (AreReadable-AreStandard rt d vs h))
          (append_error-Appends rt msg (append_elements rt vs w)) in
      let wrote : (append_error rt msg (append_elements rt vs w)).buf
          ≡ shown_elements vs ++ line b'-' msg =
        p.buf_eq ∙ ap (λ l. l ++ (shown_elements vs ++ line b'-' msg)) idle in
      each_lem d vs xs ys b more h t v (e ∙ ap (λ l. l ++ more) wrote)
      ∙ ap (λ l. err (server_error msg) (advanced b (length l), pointers ys ++ last ∷ ds))
          (sym wrote)
