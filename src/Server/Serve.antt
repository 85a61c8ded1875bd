-- ===== src/Server/Serve.antt =====
-- server.go: `serveClient`, the loop around `pipeline`.
pub mod Ends
use redeo.Base.{ℕ, zero, suc, Bool, true, false, ◌++◌, Bytes, codes, if◌then◌else◌}
use redeo.Errors.{Error, error_message, is_protocol_error}
use redeo.Info.{register, deregister}
use redeo.Io.{Runtime, IoReader, IoWriter}
use redeo.Monad.{Outcome, ok, err, panic, timeout, and_then}
use redeo.Server.{Session, Env, Cmds, Result, pipeline, flush_reply}
use redeo.Writer.{append_error}

module _ {Ctx Src Snk : Type 0} where
  -- what follows the flush at the end of a round
  abbrev and_continue :
      Outcome Error (Session Ctx Src Snk) (Unit {0}) → Outcome Error (Session Ctx Src Snk) Bool
  and_continue (ok _ s) = ok true s
  and_continue (err _ s) = ok false s
  and_continue panic = panic
  and_continue timeout = timeout

  abbrev and_stop :
      Outcome Error (Session Ctx Src Snk) (Unit {0}) → Outcome Error (Session Ctx Src Snk) Bool
  and_stop (ok _ s) = ok false s
  and_stop (err _ s) = ok false s
  and_stop panic = panic
  and_stop timeout = timeout

module _ {Ctx : Type 0} (rt : Runtime) (rd : IoReader) (wr : IoWriter) (env : Env Ctx)
    (cmds : Cmds Ctx rd.Src wr.Snk) where
  open rd use {Src}
  open wr use {Snk}

  -- one round of `serveClient` behind `pipeline`; the flag says whether the loop goes on
  after_pipeline : Result rt rd wr env cmds → Outcome Error (Session Ctx Src Snk) Bool
  after_pipeline (ok _ s) = and_continue (flush_reply rt rd wr env cmds s)
  after_pipeline (err e s) =
      let t = record s {
        wr = append_error rt (codes "ERR " ++ error_message env.error_text e) s.wr;
      } in
      if is_protocol_error e
      then and_continue (flush_reply rt rd wr env cmds t)
      else and_stop (flush_reply rt rd wr env cmds t)
  after_pipeline panic = panic
  after_pipeline timeout = timeout

  -- the loop of `serveClient`, on fuel
  serve_loop : ℕ → Session Ctx Src Snk → Result rt rd wr env cmds
  unfolding after_pipeline
  serve_loop zero s = timeout
  serve_loop (suc f) s =
      let next = serve_loop f in
      if s.closed
      then ok tt s
      else and_then (after_pipeline (pipeline rt rd wr env cmds rt.rounds s))
          (λ go t. if go then next t else ok tt t)

  -- `serveClient`: the client is registered, served and, at the end, deregistered.
  unfoldable pub serve_client : Bytes → Session Ctx Src Snk → Result rt rd wr env cmds
  unfolding serve_loop
  serve_client addr s =
      and_then (serve_loop rt.rounds (record s { info = register s.id addr s.info }))
        (λ _ t. ok tt (record t { info = deregister t.id t.info }))
