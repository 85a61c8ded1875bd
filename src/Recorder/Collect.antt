-- ===== src/Recorder/Collect.antt =====
-- redeotest/redeotest.go: `Responses`, from the recorder's first reply to the end of the input.
use redeo.Base.{
  All, codes, ℕ, zero, suc, ◌≤◌, ◌<◌, ◌≡◌, ◌≢◌, refl, ap, sym, ◌∙◌, List, [], ◌∷◌, Bytes, arith,
  length,
}
use redeo.Base.Int.{pos}
use redeo.Errors.{eof, unexpected_response}
use redeo.Io.Memory.{bytes_reader}
use redeo.Io.{Runtime, IoReader}
use redeo.Monad.{ok, err, return, and_then, and_then-ok, timeout}
use redeo.Reader.AtEnd.{
  bytes_reader-IsExhausted, IsExhausted, require_eof, require_all, unread, received-window,
  received_all-IsValid,
}
use redeo.Reader.Refill.{received}
use redeo.Reader.Require.{require_buffered}
use redeo.Reader.Window.{
  buf_limit, IsValid, window, advanced, window-advanced_append, advanced_append-IsValid,
}
use redeo.Reader.{BufioR, require, type_unknown}
use redeo.Recorder.Decoded.{decoded, AreReadable}
use redeo.Recorder.Parse.{parse_result-shown}
use redeo.Recorder.{Item, nothing, parse_typed, parse_result, collect, collect_step, error_item}
use redeo.Replies.{peek_type, type_of}
use redeo.Replies.Buffered.{peek_type_buffered}
use redeo.Value.Output.{shown, shown_elements}
use redeo.Value.{Elements, no_elements, element, count_elements}

-- The replies that the elements are read back as.
abbrev pub replies : {Snk : Type 0} → Elements Snk → List Item
replies no_elements = []
replies (element v vs) = decoded v ∷ replies vs

module _ (rt : Runtime) (rd : IoReader) where
  -- A reader that `require` turns into another one gives the same reply.
  parse_result-require :
      (f : ℕ) (b b' : BufioR rd.Src)
      → require rt rd (pos 1) b ≡ ok tt b'
      → require rt rd (pos 1) b' ≡ ok tt b'
      → parse_result rt rd f b ≡ parse_result rt rd f b'
  unfolding parse_result peek_type
  parse_result-require zero b b' e e' = refl
  parse_result-require (suc f) b b' e e' = rw (e, e')

  peek_type-require :
      (b b' : BufioR rd.Src)
      → require rt rd (pos 1) b ≡ ok tt b'
      → require rt rd (pos 1) b' ≡ ok tt b'
      → peek_type rt rd b ≡ peek_type rt rd b'
  unfolding peek_type
  peek_type-require b b' e e' = rw (e, e')

  collect-require :
      (f : ℕ) (b b' : BufioR rd.Src)
      → require rt rd (pos 1) b ≡ ok tt b'
      → require rt rd (pos 1) b' ≡ ok tt b'
      → collect rt rd f b ≡ collect rt rd f b'
  unfolding collect
  collect-require zero b b' e e' = refl
  collect-require (suc f) b b' e e' =
      ap
        (λ o.
          collect_step rt rd (collect rt rd f) (error_item rt rd o)
            (parse_result rt rd rt.rounds b))
        (peek_type-require b b' e e')
      ∙ ap (collect_step rt rd (collect rt rd f) (error_item rt rd (peek_type rt rd b')))
          (parse_result-require rt.rounds b b' e e')

  -- At the end of the input the loop is left.
  collect_eof :
      (f : ℕ) (b : BufioR rd.Src)
      → IsValid b
      → window b ≡ []
      → 0 < length b.buf
      → IsExhausted rd b.rd
      → 0 < f
      → 0 < rt.rounds
      → (b' : BufioR rd.Src) × (collect rt rd f b ≡ ok [] b')
  unfolding collect collect_step parse_result peek_type
  collect_eof zero b v none_left room ends h fuel = elim h [ ]
  collect_eof (suc f) b v none_left room ends h fuel =
      let (b', e, _) =
        require_eof rt rd b (record { valid = v; empty = none_left; room = room; ends = ends })
          fuel in
      (
        b',
        ap (collect_step rt rd (collect rt rd f) (error_item rt rd (peek_type rt rd b)))
            (stops rt.rounds fuel e),
      )
    where
      stops :
          (n : ℕ)
          → 0 < n
          → {b' : BufioR rd.Src} → require rt rd (pos 1) b ≡ err eof b'
          → parse_result rt rd n b ≡ err eof b'
      stops zero h e = elim h [ ]
      stops (suc n) h e = rw e

module _ (rt : Runtime) (rd : IoReader) {Snk : Type 0} (d : ℕ) (deep : suc d ≡ rt.rounds) where
  -- The loop on a reader that holds the replies, at the end of its input.
  pub collect-shown :
      (f : ℕ) (vs : Elements Snk) (b : BufioR rd.Src)
      → AreReadable rt d vs
      → IsValid b
      → window b ≡ shown_elements vs
      → 0 < length b.buf
      → IsExhausted rd b.rd
      → count_elements vs < f
      → (b' : BufioR rd.Src) × (collect rt rd f b ≡ ok (replies vs) b')
  unfolding collect collect_step
  collect-shown zero vs b h v e room ends fuel = elim fuel [ ]
  collect-shown (suc f) no_elements b h v e room ends fuel =
      collect_eof rt rd (suc f) b v e room ends (omega arith) (omega arith)
  collect-shown (suc f) (element x vs) b (h, hs) v e room ends fuel =
      let after = advanced b (length (shown x)) in
      let (b', rest) =
        collect-shown f vs after hs (advanced_append-IsValid b (shown x) (shown_elements vs) v e)
          (window-advanced_append b (shown x) (shown_elements vs) v e) room ends (omega arith) in
      (
        b',
        ap (collect_step rt rd (collect rt rd f) (error_item rt rd (peek_type rt rd b))) (
              ap (λ n. parse_result rt rd n b) (sym deep)
              ∙ parse_result-shown rt rd d x b (shown_elements vs) h v e)
            ∙ and_then-ok _ rest refl,
      )

-- `NewResponseReader` on a `bytes.Reader` that holds the replies, and the loop.
module _ (rt : Runtime) {Snk : Type 0} (d : ℕ) (deep : suc d ≡ rt.rounds) (buf : Bytes)
    (vs : Elements Snk) (h : AreReadable rt d vs) (small : length buf ≤ buf_limit)
    (room : 0 < length buf) (fits : length (shown_elements vs) ≤ length buf)
    (fuel : count_elements vs < rt.rounds) (more : 1 < rt.rounds) where
  pub collect_all :
      (text : Bytes)
      → shown_elements vs ≡ text
      → length text ≤ length buf
      → (b' : BufioR Bytes) × (collect rt bytes_reader rt.rounds (unread text buf)
          ≡ ok (replies vs) b')
  collect_all [] e k =
      collect-shown rt bytes_reader d deep rt.rounds vs (unread [] buf) h
        (record { r-le-w = omega arith; w-le-length = omega arith; length-le = small }) (sym e) room
        bytes_reader-IsExhausted fuel
  collect_all (c ∷ text) e k =
      let b = received (unread (c ∷ text) buf) [] (c ∷ text) in
      let w = received-window rt buf c text small k more in
      let v = received_all-IsValid rt buf c text small k more in
      let (b', runs) =
        collect-shown rt bytes_reader d deep rt.rounds vs b h v (w ∙ sym e)
          (omega (arith, v.w-le-length)) bytes_reader-IsExhausted fuel in
      (
        b',
        collect-require rt bytes_reader rt.rounds (unread (c ∷ text) buf) b
              (require_all rt buf c text small k more)
              (require_buffered rt bytes_reader b 1 v (omega (arith, ap length w)))
            ∙ runs,
      )

module _ (rt : Runtime) (rd : IoReader) (b : BufioR rd.Src) (v : IsValid b) (c : ℕ) (ys : Bytes)
    (e : window b ≡ c ∷ ys) (unknown : All (λ mark. c ≢ mark) (codes "*$+-:")) where
  type_of_unknown : type_of rt rd c b ≡ ok type_unknown b
  unfolding type_of
  type_of_unknown = ground arith

  peek_unknown : peek_type rt rd b ≡ ok type_unknown b
  peek_unknown = peek_type_buffered rt rd b v e ∙ type_of_unknown

  parse_result_unknown : (f : ℕ) → 0 < f → parse_result rt rd f b ≡ err unexpected_response b
  unfolding parse_result parse_typed
  parse_result_unknown zero h = elim h [ ]
  parse_result_unknown (suc f) h = and_then-ok _ peek_unknown refl

  -- If the next byte of a valid reader begins no reply and there is fuel for one reply, then the
  -- loop of `Responses` gets nowhere: it does not return with any number of rounds.
  pub collect_unknown : 0 < rt.rounds → (f : ℕ) → collect rt rd f b ≡ timeout
  unfolding collect collect_step error_item
  collect_unknown h zero = refl
  collect_unknown h (suc f) =
      ap
        (λ o.
          collect_step rt rd (collect rt rd f) (error_item rt rd o)
            (parse_result rt rd rt.rounds b))
        peek_unknown
      ∙ ap (collect_step rt rd (collect rt rd f) nothing) (parse_result_unknown rt.rounds h)
      ∙ ap (λ o. and_then o (λ vv. return (nothing ∷ vv))) (collect_unknown h f)
