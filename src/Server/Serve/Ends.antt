-- ===== src/Server/Serve/Ends.antt =====
-- server.go: `serveClient` on a client that sends requests and then ends its side of the connection.
use redeo.Base.{
  ◌-◌, ℕ, zero, suc, ◌≤◌, ◌<◌, ◌≡◌, refl, ap, sym, ◌∙◌, inl, inr, Bool, true, false, Bool-cases,
  List, [], ◌∷◌, ◌++◌, Bytes, codes, arith, length, All, append-nil, subst, length-append,
  if◌then◌else◌,
}
use redeo.Errors.{eof, error_message, is_protocol_error}
use redeo.Info.{register, deregister}
use redeo.Io.Sink.{IsSink, NeverFails}
use redeo.Io.{Runtime, IoReader, IoWriter}
use redeo.Monad.{ok, err, and_then, and_then-ok}
use redeo.Reader.AtEnd.{IsAtEnd, IsExhausted}
use redeo.Reader.Window.{IsValid, window, length-window}
use redeo.Reader.{BufioR}
use redeo.Request.{skip_cmd}
use redeo.Request.AtEnd.{peek_cmd_eof, skip_cmd_eof}
use redeo.Request.Buffered.{IsRecyclable}
use redeo.Server.Perform.{error_line, flush_runs}
use redeo.Server.Pipeline.{Exchange, requests, replies, Served, IsServed, pipeline_buffered}
use redeo.Server.Serve.{after_pipeline, serve_loop, serve_client}
use redeo.Server.{Session, Env, Cmds, pipeline, skip_then, flush_reply}
use redeo.Wire.{request, le-length-request}
use redeo.Writer.Flush.{output, output-Appends, flush_ok}
use redeo.Writer.Output.{append_error-Appends}
use redeo.Writer.{BufioW, append_error}

-- What the server says at the end of the input to a client that no handler has closed.
abbrev pub last_words : Bool → Bytes
last_words true = []
last_words false = error_line (codes "ERR EOF")

module _ {Ctx : Type 0} (rt : Runtime) (rd : IoReader) (wr : IoWriter) (sk : IsSink wr)
    (good : NeverFails wr) (env : Env Ctx) (cmds : Cmds Ctx rd.Src wr.Snk) where
  open rd use {Src}
  open wr use {Snk}

  -- A flush that empties the writer.
  flushes :
      (s : Session Ctx Src Snk)
      → (w : BufioW Snk) × (flush_reply rt rd wr env cmds s ≡ ok tt (record s { wr = w }))
        × (w.buf ≡ [])
        × (output wr sk w ≡ output wr sk s.wr)
  flushes s =
      let (w, runs, empty, sent, _) = flush_ok wr sk s.wr (good s.wr.buf s.wr.out) in
      (
        w,
        flush_runs rt rd wr sk good env cmds s w runs,
        empty,
        ap (◌++◌ (sk.sent w.out)) empty ∙ append-nil (sk.sent w.out) ∙ sent,
      )

  skip_fails :
      (s : Session Ctx Src Snk) (b : BufioR Src)
      → skip_cmd rt rd s.rd ≡ err eof b
      → skip_then rt rd wr env cmds (err eof) s ≡ err eof (record s { rd = b })
  unfolding skip_then
  skip_fails s b e = rw (e, skip_then) refl

  pipeline_eof :
      (f : ℕ) (s : Session Ctx Src Snk)
      → IsAtEnd rd s.rd
      → 0 < f
      → 0 < rt.rounds
      → (b : BufioR Src) × (pipeline rt rd wr env cmds f s ≡ err eof (record s { rd = b }))
  unfolding pipeline
  pipeline_eof zero s h enough fuel = elim enough [ ]
  pipeline_eof (suc f) s h enough fuel =
      let (b, peeks, h') = peek_cmd_eof rt rd s.rd h fuel in
      let (b', skips, _) = skip_cmd_eof rt rd b h' fuel in
      (b', rw (peeks, pipeline) (skip_fails (record s { rd = b }) b' skips))

  one_round :
      (f : ℕ) (s : Session Ctx Src Snk)
      → s.closed ≡ false
      → serve_loop rt rd wr env cmds (suc f) s
        ≡ and_then
            (after_pipeline rt rd wr env cmds (pipeline rt rd wr env cmds rt.rounds s))
            (λ go t. if go then serve_loop rt rd wr env cmds f t else ok tt t)
  unfolding serve_loop
  one_round f s is_open = rw is_open refl

  -- a round that served requests, and one at the end of the input
  served_round :
      (f : ℕ) (s t : Session Ctx Src Snk) (w : BufioW Snk)
      → s.closed ≡ false
      → pipeline rt rd wr env cmds rt.rounds s ≡ ok tt t
      → flush_reply rt rd wr env cmds t ≡ ok tt (record t { wr = w })
      → serve_loop rt rd wr env cmds (suc f) s
        ≡ serve_loop rt rd wr env cmds f (record t { wr = w })
  unfolding after_pipeline
  served_round f s t w is_open runs flushed = one_round f s is_open ∙ rw (runs, flushed) refl

  -- `ERR EOF` is appended
  hung_up : BufioR Src → Session Ctx Src Snk → Session Ctx Src Snk
  hung_up b s = record s {
    rd = b;
    wr = append_error rt (codes "ERR " ++ error_message env.error_text eof) s.wr;
  }

  last_round :
      (f : ℕ) (s : Session Ctx Src Snk) (b : BufioR Src) (w : BufioW Snk)
      → s.closed ≡ false
      → pipeline rt rd wr env cmds rt.rounds s ≡ err eof (record s { rd = b })
      → flush_reply rt rd wr env cmds (hung_up b s) ≡ ok tt (record (hung_up b s) { wr = w })
      → serve_loop rt rd wr env cmds (suc f) s ≡ ok tt (record (hung_up b s) { wr = w })
  unfolding after_pipeline is_protocol_error hung_up
  last_round f s b w is_open runs flushed =
      one_round f s is_open ∙ rw (runs, after_pipeline, is_protocol_error, flushed) refl

  -- From the end of the input on.
  loop_eof :
      (f : ℕ) (s : Session Ctx Src Snk)
      → IsAtEnd rd s.rd
      → s.wr.buf ≡ []
      → 0 < f
      → 0 < rt.rounds
      → (t : Session Ctx Src Snk) × (serve_loop rt rd wr env cmds f s ≡ ok tt t)
        × (t.wr.buf ≡ [])
        × (output wr sk t.wr ≡ output wr sk s.wr ++ last_words t.closed)
  unfolding serve_loop hung_up error_message
  loop_eof zero s h idle enough fuel = elim enough [ ]
  loop_eof (suc f) s h idle enough fuel = elim (Bool-cases s.closed) [
    | inl is_closed ↦ (
      s,
      rw is_closed refl,
      idle,
      sym (ap (λ c. output wr sk s.wr ++ last_words c) is_closed ∙ append-nil (output wr sk s.wr)),
    )
    | inr is_open ↦
        let (b, runs) = pipeline_eof rt.rounds s h fuel fuel in
        let (w, flushed, empty, same) = flushes (hung_up b s) in
        (
          record (hung_up b s) { wr = w },
          last_round f s b w is_open runs flushed,
          empty,
          same
              ∙ output-Appends wr sk (error_line (codes "ERR EOF"))
                  (append_error-Appends rt (codes "ERR EOF") s.wr)
              ∙ ap (λ c. output wr sk s.wr ++ last_words c) (sym is_open),
        )
  ]

  -- The reader behind the requests, with nothing to come.
  Served-IsAtEnd :
      (x : Exchange) (xs : List Exchange) (s t : Session Ctx Src Snk)
      → IsValid s.rd
      → window s.rd ≡ requests (x ∷ xs)
      → IsExhausted rd s.rd.rd
      → Served rt rd wr sk good env cmds (x ∷ xs) s t
      → IsAtEnd rd t.rd
  Served-IsAtEnd x xs s t v e ends r = record {
    valid = r.valid;
    empty = r.all_read;
    room = omega (
      arith,
      ap length r.same_buf,
      length-window s.rd v,
      ap length e,
      length-append (request x.name x.args) (requests xs),
      le-length-request x.name x.args,
      v.r-le-w,
      v.w-le-length,
    );
    ends = subst (IsExhausted rd) (sym r.same_source) ends;
  }

  -- Let the connection take all it is given, let a valid reader hold the requests of `x ∷ xs` and
  -- nothing else, with the end of the input behind them, let the kept command have nothing in its
  -- spare slots, let the client be open, let the server answer each command with the listed reply
  -- (the error line for a command with no handler, what a plain handler always appends for one with
  -- a handler; stream handlers are left out), with arrays for the arguments that can be made, and
  -- let there be fuel for two rounds of the loop and for one round of the pipeline for each
  -- request. Then `serveClient` returns, nothing is pending, and the connection was given what it
  -- had, then the replies in the order of the requests, then `-ERR EOF` unless a handler closed the
  -- client.
  pub serve_client_ends :
      (x : Exchange) (xs : List Exchange) (addr : Bytes) (s : Session Ctx Src Snk)
      → All (IsServed rt rd wr sk good env cmds) (x ∷ xs)
      → IsValid s.rd
      → window s.rd ≡ requests (x ∷ xs)
      → IsExhausted rd s.rd.rd
      → IsRecyclable s.cmd
      → s.closed ≡ false
      → length (x ∷ xs) ≤ rt.rounds
      → 1 < rt.rounds
      → (t : Session Ctx Src Snk) × (serve_client rt rd wr env cmds addr s ≡ ok tt t)
        × (t.wr.buf ≡ [])
        × (output wr sk t.wr ≡ (output wr sk s.wr ++ replies (x ∷ xs)) ++ last_words t.closed)
  unfolding serve_client
  serve_client_ends x xs addr s served v e ends clean is_open enough fuel =
      let s₁ = record s { info = register s.id addr s.info } in
      let (t, runs, r) =
        pipeline_buffered rt rd wr sk good env cmds x xs rt.rounds s₁ served v e clean enough
          (omega arith) in
      let (w, flushed, empty, same) = flushes t in
      let (u, loops, idle, sent) =
        loop_eof (rt.rounds - 1) (record t { wr = w }) (Served-IsAtEnd x xs s₁ t v e ends r) empty
          (omega arith) (omega arith) in
      (
        record u { info = deregister u.id u.info },
        and_then-ok _
            (ap (λ n. serve_loop rt rd wr env cmds n s₁) {y = suc (rt.rounds - 1)} (omega arith)
              ∙ served_round (rt.rounds - 1) s₁ t w is_open runs flushed
              ∙ loops)
            refl,
        idle,
        sent ∙ ap (λ o. o ++ last_words u.closed) (same ∙ r.replied),
      )
