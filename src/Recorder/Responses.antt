-- ===== src/Recorder/Responses.antt =====
-- redeotest/redeotest.go: `Responses` and `Response` of a recorder to which values were appended.
use redeo.Base.{
  ℕ, zero, suc, ◌-◌, ◌≤◌, ◌<◌, ◌≡◌, refl, ap, sym, ◌∙◌, List, [], ◌++◌, Bytes, arith, length,
  replicate, length-replicate,
}
use redeo.Errors.{max_buffer_size}
use redeo.Io.Memory.{bytes_reader, bytes_buffer, bytes_buffer-IsSink}
use redeo.Io.{Runtime}
use redeo.Monad.{ok, and_then-ok}
use redeo.Reader.{BufioR, reset}
use redeo.Recorder.Collect.{replies, collect_all}
use redeo.Recorder.Decoded.{AreReadable, IsReadable, PairsAreReadable}
use redeo.Recorder.{
  Recorder, new_recorder, flush_recorder, after_flush, Item, collect, collected,
  new_response_reader, responses, response, last_item,
}
use redeo.Value.Output.{
  shown_elements, IsStandard, AreStandard, PairsAreStandard, append_elements-Appends,
}
use redeo.Value.{
  GoValue, nil_value, custom, error_value, bool, int, uint, bulk_string, byte_slice, float,
  slice_value, map_value, unsupported, Elements, no_elements, element, Pairs, no_pairs, key_value,
  append_elements, count_elements,
}
use redeo.Writer.Output.{Appends}
use redeo.Writer.Flush.{flush_ok}
use redeo.Writer.{BufioW, new_writer, reset as reset_writer, flush}

mutual
  IsReadable-IsStandard :
      {Snk : Type 0} (rt : Runtime) (d : ℕ) (x : GoValue Snk) → IsReadable rt d x → IsStandard x
  IsReadable-IsStandard rt d nil_value h = tt
  IsReadable-IsStandard rt d (custom append_to) h = h
  IsReadable-IsStandard rt d (error_value msg) h = tt
  IsReadable-IsStandard rt d (bool b) h = tt
  IsReadable-IsStandard rt d (int n) h = tt
  IsReadable-IsStandard rt d (uint n) h = tt
  IsReadable-IsStandard rt d (bulk_string p) h = tt
  IsReadable-IsStandard rt d (byte_slice p) h = tt
  IsReadable-IsStandard rt d (float t) h = tt
  IsReadable-IsStandard rt zero (slice_value vs) h = absurd h
  IsReadable-IsStandard rt (suc d) (slice_value vs) (_, h) = AreReadable-AreStandard rt d vs h
  IsReadable-IsStandard rt zero (map_value ps) h = absurd h
  IsReadable-IsStandard rt (suc d) (map_value ps) (_, h) = PairsAreReadable-IsStandard rt d ps h
  IsReadable-IsStandard rt d (unsupported name) h = absurd h

  pub AreReadable-AreStandard :
      {Snk : Type 0} (rt : Runtime) (d : ℕ) (vs : Elements Snk)
      → AreReadable rt d vs
      → AreStandard vs
  AreReadable-AreStandard rt d no_elements h = tt
  AreReadable-AreStandard rt d (element x vs) (h, hs) =
      (IsReadable-IsStandard rt d x h, AreReadable-AreStandard rt d vs hs)

  PairsAreReadable-IsStandard :
      {Snk : Type 0} (rt : Runtime) (d : ℕ) (ps : Pairs Snk)
      → PairsAreReadable rt d ps
      → PairsAreStandard ps
  PairsAreReadable-IsStandard rt d no_pairs h = tt
  PairsAreReadable-IsStandard rt d (key_value k x ps) (h, i, hs) = (
    IsReadable-IsStandard rt d k h,
    IsReadable-IsStandard rt d x i,
    PairsAreReadable-IsStandard rt d ps hs,
  )

new_writer_clean :
    ((new_writer {Snk = Bytes} []).buf ≡ []) × ((new_writer {Snk = Bytes} []).out ≡ [])
unfolding new_writer reset_writer
new_writer_clean = (refl, refl)

-- What was appended to a writer with nothing pending is what `Flush` leaves in the buffer.
flush_appended :
    (text : Bytes) (w w' : BufioW Bytes)
    → w.buf ≡ []
    → w.out ≡ []
    → Appends text w w'
    → (w'' : BufioW Bytes) × (flush bytes_buffer w' ≡ ok tt w'') × (w''.buf ≡ []) × (w''.out ≡ text)
unfolding bytes_buffer-IsSink
flush_appended text w w' idle clean p =
    let (w'', runs, empty, sent, _) = flush_ok bytes_buffer bytes_buffer-IsSink w' refl in
    (
      w'',
      runs,
      empty,
      sent ∙ ap (λ o. o ++ w'.buf) (p.out_eq ∙ clean) ∙ p.buf_eq ∙ ap (λ l. l ++ text) idle,
    )

flush_recorder_lem :
    (rec : Recorder) (w : BufioW Bytes)
    → flush bytes_buffer rec.writer ≡ ok tt w
    → flush_recorder rec ≡ record { writer = w }
unfolding flush_recorder
flush_recorder_lem rec w runs = ap (λ o. after_flush o rec) runs

-- `Flush`, then the loop on what it left.
responses-flush :
    (rt : Runtime) (rec : Recorder) (w : BufioW Bytes) {vv : List Item} {b : BufioR Bytes}
    → flush bytes_buffer rec.writer ≡ ok tt w
    → collect rt bytes_reader rt.rounds (new_response_reader w.out) ≡ ok vv b
    → responses rt rec ≡ ok vv (record { writer = w })
unfolding responses
responses-flush rt rec w runs replied =
    ap (λ r. collected (collect rt bytes_reader rt.rounds (new_response_reader r.writer.out)) r)
      (flush_recorder_lem rec w runs)
    ∙ ap (λ o. collected o (record { writer = w })) replied

module _ (rt : Runtime) (vs : Elements Bytes) (h : AreReadable rt (rt.rounds - 1) vs)
    (fits : length (shown_elements vs) ≤ max_buffer_size) (fuel : count_elements vs < rt.rounds)
    (more : 1 < rt.rounds) where
  collect_recorded :
      (text : Bytes)
      → text ≡ shown_elements vs
      → (b : BufioR Bytes) × (collect rt bytes_reader rt.rounds (new_response_reader text)
          ≡ ok (replies vs) b)
  unfolding new_response_reader reset
  collect_recorded text e =
      let size : length (replicate {A = ℕ} max_buffer_size 0) ≡ max_buffer_size =
        length-replicate {A = ℕ} max_buffer_size 0 in
      collect_all rt (rt.rounds - 1) (omega arith) (replicate max_buffer_size 0) vs h
        (omega (arith, size)) (omega (arith, size)) (omega (arith, size)) fuel more text (sym e)
        (omega (arith, size, ap length e))

  -- Let values be appended to a new recorder, one after the other: values that print in a standard
  -- way, with texts that a line can carry, integers in the range of their types, and arrays that
  -- can be allocated and are not nested deeper than the fuel allows; 64 KiB of them at most, and
  -- fewer than the fuel. Then `Responses` returns, and gives every value in order, with every entry
  -- of its slices and maps; `Response` gives the last one, or nil; nothing is pending, and what is
  -- recorded is what the values print.
  pub responses-append_elements :
      (rec : Recorder) × (responses rt
          (record { writer = append_elements rt vs new_recorder.writer })
        ≡ ok (replies vs) rec)
      × (response rt (record { writer = append_elements rt vs new_recorder.writer })
          ≡ ok (last_item (replies vs)) rec)
      × (rec.writer.buf ≡ [])
      × (rec.writer.out ≡ shown_elements vs)
  unfolding new_recorder response
  responses-append_elements =
      let (w, runs, empty, sent) =
        flush_appended (shown_elements vs) (new_writer []) (append_elements rt vs (new_writer []))
          new_writer_clean.0 new_writer_clean.1
          (append_elements-Appends rt vs (new_writer [])
            (AreReadable-AreStandard rt (rt.rounds - 1) vs h)) in
      let (b, replied) = collect_recorded w.out sent in
      let all =
        responses-flush rt (record { writer = append_elements rt vs (new_writer []) }) w runs
          replied in
      (record { writer = w }, all, and_then-ok _ all refl, empty, sent)
