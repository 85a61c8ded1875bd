-- ===== src/Server/Perform.antt =====
-- server.go: `perform` on a request that is buffered whole.
use redeo.Base.{
  ◌*◌, ◌/◌, ◌≤◌, ◌<◌, ◌≡◌, refl, ap, sym, ◌∙◌, inl, inr, Option, none, some, List, ◌∷◌, ◌++◌, Bytes,
  length, ltb, append-nil, Bool-cases,
}
use redeo.Command
use redeo.Command.Slots.{IsClean}
use redeo.Command.{Command, args}
use redeo.Errors.{crlf, max_buffer_size}
use redeo.Io.Sink.{IsSink, NeverFails}
use redeo.Io.{Runtime, IoReader, IoWriter}
use redeo.Monad.{ok, and_then-ok}
use redeo.Reader.Window.{IsValid, window, advanced}
use redeo.Reader.{BufioR}
use redeo.Request.Buffered.{IsRecyclable, read_cmd_buffered, skip_cmd_buffered}
use redeo.Request.{read_cmd, skip_cmd}
use redeo.Server.{
  Registered, handler, stream_handler, Cmds, Session, Env, Reply, reply_of, lookup, run_handler,
  flush_reply, flush_large, skip_then, count_call, perform_of, perform, unknown_command,
}
use redeo.Wire.{request}
use redeo.Writer.Flush.{output, output-Appends, flush_ok}
use redeo.Writer.Output.{Appends, append_error-Appends}
use redeo.Writer.{BufioW, append_error, flush, pending_bytes}

-- the line of an error
abbrev pub error_line : Bytes → Bytes
error_line msg = b'-' ∷ msg ++ crlf

set_context-IsClean :
    {Ctx : Type 0} (x : Option Ctx) (c : Command Ctx)
    → IsClean c
    → IsClean (Command.set_context x c)
unfolding Command.set_context
set_context-IsClean none c h = h
set_context-IsClean (some x) c h = h

set_context-name :
    {Ctx : Type 0} (x : Option Ctx) (c : Command Ctx) → (Command.set_context x c).name ≡ c.name
unfolding Command.set_context
set_context-name none c = refl
set_context-name (some x) c = refl

set_context-len :
    {Ctx : Type 0} (x : Option Ctx) (c : Command Ctx) → (Command.set_context x c).len ≡ c.len
unfolding Command.set_context
set_context-len none c = refl
set_context-len (some x) c = refl

set_context-args :
    {Ctx : Type 0} (x : Option Ctx) (c : Command Ctx) → args (Command.set_context x c) ≡ args c
unfolding Command.set_context
set_context-args none c = refl
set_context-args (some x) c = refl

module _ {Ctx : Type 0} (rt : Runtime) (rd : IoReader) (wr : IoWriter) (sk : IsSink wr)
    (good : NeverFails wr) (env : Env Ctx) (cmds : Cmds Ctx rd.Src wr.Snk) where
  open rd use {Src}
  open wr use {Snk}

  -- A handler that always appends `p` to the reply when it is called with this command.
  abbrev pub Replies : (Command Ctx → Reply Snk → Reply Snk) → Bytes → List Bytes → Bytes → Type 0
  Replies h name xs p =
      (c : Command Ctx) (r : Reply Snk)
      → c.name ≡ name
      → args c ≡ xs
      → c.len ≡ length xs
      → Appends p r.wr (h c r).wr

  -- The server's answer to a command: an error if there is no handler for it, what the handler appends if there is one; it says
  -- nothing of stream handlers.
  abbrev pub AnswersOf : Option (Registered Ctx Src Snk) → Bytes → List Bytes → Bytes → Type 0
  AnswersOf none name xs p = p ≡ error_line (unknown_command name)
  AnswersOf (some (handler h)) name xs p = Replies h name xs p
  AnswersOf (some (stream_handler h)) name xs p = ⊥

  abbrev pub Answers : Bytes → List Bytes → Bytes → Type 0
  Answers name xs p = AnswersOf (lookup (env.to_lower name) cmds) name xs p

  -- What the call leaves: the reply appended, the request read.
  pub record Performed (name : Bytes) (xs : List Bytes) (p : Bytes) (s s' : Session Ctx Src Snk)
      : Type 0 where
    pub replied : output wr sk s'.wr ≡ output wr sk s.wr ++ p
    pub read : s'.rd ≡ advanced s.rd (length (request name xs))
    pub clean : IsRecyclable s'.cmd

  pub flush_runs :
      (s : Session Ctx Src Snk) (w : BufioW Snk)
      → flush wr s.wr ≡ ok tt w
      → flush_reply rt rd wr env cmds s ≡ ok tt (record s { wr = w })
  unfolding flush_reply
  flush_runs s w h = rw (h, flush_reply) refl

  -- The flush of a large reply changes nothing but where its bytes are.
  flush_large-output :
      (s : Session Ctx Src Snk)
      → (w : BufioW Snk) × (flush_large rt rd wr env cmds s ≡ ok tt (record s { wr = w }))
        × (output wr sk w ≡ output wr sk s.wr)
  unfolding flush_large
  flush_large-output s = elim (Bool-cases (ltb (max_buffer_size / 2) (pending_bytes s.wr))) [
    | inr small ↦ (s.wr, rw small refl, refl)
    | inl large ↦
        let (w, runs, empty, sent, _) = flush_ok wr sk s.wr (good s.wr.buf s.wr.out) in
        (
          w,
          rw large (flush_runs s w runs),
          ap (◌++◌ (sk.sent w.out)) empty ∙ append-nil (sk.sent w.out) ∙ sent,
        )
  ]

  -- the session after the handler
  abbrev handled :
      (Command Ctx → Reply Snk → Reply Snk)
      → Command Ctx
      → BufioR Src
      → Session Ctx Src Snk
      → Session Ctx Src Snk
  handled h c b s =
      let c' = Command.set_context (some (env.with_client (Command.context env.background c))) c in
      let reply = h c' (reply_of s) in
      record s { rd = b; cmd = some c'; wr = reply.wr; closed = reply.closed }

  handler_runs :
      (h : Command Ctx → Reply Snk → Reply Snk) (s : Session Ctx Src Snk) (c : Command Ctx)
      (b : BufioR Src)
      → read_cmd rt rd s.cmd s.rd ≡ ok tt (c, b)
      → run_handler rt rd wr env cmds h s ≡ ok tt (handled h c b s)
  unfolding run_handler
  handler_runs h s c b e = rw (e, run_handler) refl

  skip_runs :
      (s : Session Ctx Src Snk) (b : BufioR Src)
      → skip_cmd rt rd s.rd ≡ ok tt b
      → skip_then rt rd wr env cmds (ok tt) s ≡ ok tt (record s { rd = b })
  unfolding skip_then
  skip_runs s b e = rw (e, skip_then) refl

  module _ (name : Bytes) (xs : List Bytes) (p : Bytes) (s : Session Ctx Src Snk) (more : Bytes)
      (v : IsValid s.rd) (e : window s.rd ≡ request name xs ++ more) (clean : IsRecyclable s.cmd)
      (alloc : 24 * length xs ≤ rt.max_alloc) (fuel : 0 < rt.rounds) where
    abbrev Goal : Option (Registered Ctx Src Snk) → Type 0
    Goal h =
        (s' : Session Ctx Src Snk) × (perform_of rt rd wr env cmds name h s ≡ ok tt s')
        × Performed name xs p s s'

    perform_of_buffered : (h : Option (Registered Ctx Src Snk)) → AnswersOf h name xs p → Goal h
    unfolding perform_of count_call
    perform_of_buffered none a =
        let w = append_error rt (unknown_command name) s.wr in
        let b = advanced s.rd (length (request name xs)) in
        (
          record s { wr = w; rd = b },
          skip_runs (record s { wr = w }) b (skip_cmd_buffered rt rd name xs s.rd more v e fuel),
          record {
            replied =
                output-Appends wr sk (error_line (unknown_command name))
                  (append_error-Appends rt (unknown_command name) s.wr)
                ∙ ap (◌++◌ (output wr sk s.wr)) (sym a);
            read = refl;
            clean = clean;
          },
        )
    perform_of_buffered (some (stream_handler h)) a = absurd a
    perform_of_buffered (some (handler h)) a =
        let (c, runs, name_eq, args_eq, len_eq, is_clean) =
          read_cmd_buffered rt rd s.cmd name xs s.rd more v e clean alloc fuel in
        answered h a c runs name_eq args_eq len_eq is_clean
      where
        answered :
            (h : Command Ctx → Reply Snk → Reply Snk)
            → Replies h name xs p
            → (c : Command Ctx)
            → read_cmd rt rd s.cmd s.rd ≡ ok tt (c, advanced s.rd (length (request name xs)))
            → c.name ≡ name
            → args c ≡ xs
            → c.len ≡ length xs
            → IsClean c
            → Goal (some (handler h))
        answered h a c runs name_eq args_eq len_eq is_clean =
            let x = some (env.with_client (Command.context env.background c)) in
            let t =
              handled h c (advanced s.rd (length (request name xs)))
                (count_call rt rd wr env cmds (env.to_lower name) s) in
            let (w, flushes, same) = flush_large-output t in
            (
              record t { wr = w },
              and_then-ok _
                  (handler_runs h (count_call rt rd wr env cmds (env.to_lower name) s) c
                    (advanced s.rd (length (request name xs))) runs)
                  flushes,
              record {
                replied =
                    same
                    ∙ output-Appends wr sk p (
                        a (Command.set_context x c) (reply_of s) (set_context-name x c ∙ name_eq)
                          (set_context-args x c ∙ args_eq) (set_context-len x c ∙ len_eq));
                read = refl;
                clean = set_context-IsClean x c is_clean;
              },
            )

    -- Let the connection take all it is given, let a valid reader hold a request with anything
    -- behind it, let the kept command have nothing in its spare slots, let the array of the
    -- arguments be possible to make and let there be fuel for one round. Then `perform` ends
    -- without an error, the answer stands behind what the writer had (the error line if no handler
    -- is registered, what a plain handler always appends if there is one; stream handlers are left
    -- out), also when a large reply is flushed, the reader is exactly behind the request and the
    -- kept command can be reused.
    pub perform_buffered :
        Answers name xs p
        → (s' : Session Ctx Src Snk) × (perform rt rd wr env cmds name s ≡ ok tt s')
          × Performed name xs p s s'
    unfolding perform
    perform_buffered a = perform_of_buffered (lookup (env.to_lower name) cmds) a
