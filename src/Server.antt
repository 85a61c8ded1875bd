-- ===== src/Server.antt =====
-- server.go and client.go: one connection of the server, from its registration to its end.
-- `strings.ToLower`, the contexts and the handlers are parameters. A deadline of `Config.Timeout` shows
-- as an error of the connection's `Read` or `Write`.
pub mod Perform
pub mod Pipeline
pub mod Serve
pub mod Clients
use redeo.Base.{
  ℕ, zero, suc, ◌/◌, Bool, true, false, not, Option, none, some, List, [], ◌∷◌, ◌++◌, Bytes, codes,
  ltb, ◌==◌, if◌then◌else◌,
}
use redeo.Base.Int.{ℤ, pos, negsuc}
use redeo.Command
use redeo.Command.{Command}
use redeo.CommandStream
use redeo.CommandStream.{CommandStream}
use redeo.Errors.{Error, error_message, is_protocol_error, max_buffer_size}
use redeo.Info.{ServerInfo, register, deregister, command}
use redeo.Io.{Runtime, IoReader, IoWriter}
use redeo.Monad.{Outcome, ok, err, panic, timeout, and_then}
use redeo.Reader.{BufioR, buffered}
use redeo.Replies.{equal}
use redeo.Request.{read_cmd, stream_cmd, skip_cmd, peek_cmd}
use redeo.Writer.{BufioW, append_error, flush, pending_bytes}

-- redeo.go: `UnknownCommand`
abbrev pub unknown_command : Bytes → Bytes
unknown_command cmd = codes "ERR unknown command '" ++ (cmd ++ codes "'")

abbrev is_zero : ℤ → Bool
is_zero (pos n) = n == 0
is_zero (negsuc n) = false

-- What a handler can change: the writer, and `closed`, by way of the client in its context.
pub record Reply (Snk : Type 0) : Type 0 where
  pub wr : BufioW Snk
  pub closed : Bool

-- The values of `cmds`. A stream handler reads its arguments off the connection; `none` is a panic.
pub data Registered (Ctx Src Snk : Type 0) : Type 0 where
  handler : (Command Ctx → Reply Snk → Reply Snk) → Registered Ctx Src Snk
  stream_handler :
      (CommandStream Ctx × BufioR Src
        → Reply Snk
        → Option ((CommandStream Ctx × BufioR Src) × Reply Snk))
      → Registered Ctx Src Snk

-- `cmds`, the newest entry of a key first
abbrev pub Cmds : Type 0 → Type 0 → Type 0 → Type 0
Cmds Ctx Src Snk = List (Bytes × Registered Ctx Src Snk)

-- A client, and the part of the server that it changes.
pub record Session (Ctx Src Snk : Type 0) : Type 0 where
  pub id : ℕ
  pub rd : BufioR Src
  pub wr : BufioW Snk
  pub closed : Bool
  pub cmd : Option (Command Ctx)
  pub scmd : Option (CommandStream Ctx)
  pub info : ServerInfo

-- the parameters of a server
pub record Env (Ctx : Type 0) : Type 0 where
  pub to_lower : Bytes → Bytes
  pub background : Ctx
  -- `context.WithValue(ctx, ctxKeyClient{}, c)`
  pub with_client : Ctx → Ctx
  pub ctx_error : Ctx → Option Error
  -- the text of an error that is not of package resp
  pub error_text : ℕ → Bytes

module _ {Ctx Src Snk : Type 0} where
  -- `srv.cmds[norm]`
  unfoldable pub lookup : Bytes → Cmds Ctx Src Snk → Option (Registered Ctx Src Snk)
  lookup norm [] = none
  lookup norm ((key, h) ∷ cmds) =
      let rest = lookup norm cmds in if equal key norm then some h else rest

  -- `Handle` and `HandleStream`
  unfoldable pub handle :
      Env Ctx → Bytes → Registered Ctx Src Snk → Cmds Ctx Src Snk → Cmds Ctx Src Snk
  handle env name h cmds = (env.to_lower name, h) ∷ cmds

  abbrev pub reply_of : Session Ctx Src Snk → Reply Snk
  reply_of s = record { wr = s.wr; closed = s.closed }

module _ {Ctx : Type 0} (rt : Runtime) (rd : IoReader) (wr : IoWriter) (env : Env Ctx)
    (cmds : Cmds Ctx rd.Src wr.Snk) where
  open rd use {Src}
  open wr use {Snk}

  abbrev pub Result : Type 0
  Result = Outcome Error (Session Ctx Src Snk) (Unit {0})

  -- `c.cmd, err = c.readCmd(c.cmd)`, then the handler
  run_handler : (Command Ctx → Reply Snk → Reply Snk) → Session Ctx Src Snk → Result
  run_handler h s = elim (read_cmd rt rd s.cmd s.rd) [
    | ok _ (c, b) ↦
        let c' =
          Command.set_context (some (env.with_client (Command.context env.background c))) c in
        let reply = h c' (reply_of s) in
        ok tt (record s { rd = b; cmd = some c'; wr = reply.wr; closed = reply.closed })
    | err e (c, b) ↦ err e (record s { rd = b; cmd = some c })
    | panic ↦ panic
    | timeout ↦ timeout
  ]

  -- the handler, and the deferred `Discard`, whose error is dropped
  run_stream :
      (CommandStream Ctx × BufioR Src
        → Reply Snk
        → Option ((CommandStream Ctx × BufioR Src) × Reply Snk))
      → CommandStream Ctx × BufioR Src
      → Session Ctx Src Snk
      → Result
  run_stream h t s = elim (h t (reply_of s)) [
    | none ↦ panic
    | some (u, reply) ↦ elim (CommandStream.discard rt rd env.ctx_error u) [
      | ok _ (c, b) ↦
          ok tt (record s { rd = b; scmd = some c; wr = reply.wr; closed = reply.closed })
      | err _ (c, b) ↦
          ok tt (record s { rd = b; scmd = some c; wr = reply.wr; closed = reply.closed })
      | panic ↦ panic
      | timeout ↦ timeout
    ]
  ]

  run_stream_cmd :
      (CommandStream Ctx × BufioR Src
        → Reply Snk
        → Option ((CommandStream Ctx × BufioR Src) × Reply Snk))
      → Session Ctx Src Snk
      → Result
  unfolding run_stream
  run_stream_cmd h s = elim (stream_cmd rt rd s.scmd s.rd) [
    | ok _ (c, b) ↦
        run_stream h
          (
            CommandStream.set_context
                (some (env.with_client (CommandStream.context env.background c))) c,
            b,
          )
          s
    | err e (c, b) ↦ err e (record s { rd = b; scmd = some c })
    | panic ↦ panic
    | timeout ↦ timeout
  ]

  -- `c.wr.Flush()`
  unfoldable flush_reply : Session Ctx Src Snk → Result
  flush_reply s = elim (flush wr s.wr) [
    | ok _ w ↦ ok tt (record s { wr = w })
    | err e w ↦ err e (record s { wr = w })
    | panic ↦ panic
    | timeout ↦ timeout
  ]

  flush_large : Session Ctx Src Snk → Result
  unfolding flush_reply
  flush_large s = if ltb (max_buffer_size / 2) (pending_bytes s.wr) then flush_reply s else ok tt s

  -- `_ = c.rd.SkipCmd()`, and what comes next
  skip_then : (Session Ctx Src Snk → Result) → Session Ctx Src Snk → Result
  skip_then k s = elim (skip_cmd rt rd s.rd) [
    | ok _ b ↦ k (record s { rd = b })
    | err _ b ↦ k (record s { rd = b })
    | panic ↦ panic
    | timeout ↦ timeout
  ]

  count_call : Bytes → Session Ctx Src Snk → Session Ctx Src Snk
  count_call norm s = record s { info = command s.id norm s.info }

  -- the `switch`. The flush of a stream handler's reply comes before its deferred `Discard` in the source; the one
  -- uses the writer, the other the reader.
  perform_of : Bytes → Option (Registered Ctx Src Snk) → Session Ctx Src Snk → Result
  unfolding run_handler run_stream_cmd flush_large skip_then count_call
  perform_of name none s =
      skip_then (ok tt) (record s { wr = append_error rt (unknown_command name) s.wr })
  perform_of name (some (handler h)) s =
      and_then (run_handler h (count_call (env.to_lower name) s)) (λ _. flush_large)
  perform_of name (some (stream_handler h)) s =
      and_then (run_stream_cmd h (count_call (env.to_lower name) s)) (λ _. flush_large)

  unfoldable pub perform : Bytes → Session Ctx Src Snk → Result
  unfolding perform_of
  perform name s = perform_of name (lookup (env.to_lower name) cmds) s

  -- `pipeline(perform)`, on fuel
  unfoldable pub pipeline : ℕ → Session Ctx Src Snk → Result
  unfolding skip_then
  pipeline zero s = timeout
  pipeline (suc f) s =
      let next = pipeline f in
      elim (peek_cmd rt rd s.rd) [
        | ok name b ↦
            and_then (perform name (record s { rd = b }))
              (λ _ t. if is_zero (buffered t.rd) then ok tt t else next t)
        | err e b ↦ skip_then (err e) (record s { rd = b })
        | panic ↦ panic
        | timeout ↦ timeout
      ]
