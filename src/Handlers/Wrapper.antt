-- ===== src/Handlers/Wrapper.antt =====
-- redeo.go: `WrapperFunc`, which answers with a Go value.
use redeo.Base.{Option, none, some, ◌∷◌, ◌++◌, Bytes, codes}
use redeo.Command.{Command}
use redeo.Errors.{crlf}
use redeo.Handlers.{Handler, on_writer}
use redeo.Io.{Runtime}
use redeo.Server.{Reply}
use redeo.Value.Output.{shown, IsStandard, append_value-Appends}
use redeo.Value.{GoValue, custom, unsupported, append_value, append_value_error}
use redeo.Writer.Output.{Appends, append_error-Appends}
use redeo.Writer.{BufioW, append_error}

wrapper_error : {Snk : Type 0} → Runtime → Option Bytes → BufioW Snk → BufioW Snk
wrapper_error rt none w = w
wrapper_error rt (some msg) w = append_error rt (codes "ERR " ++ msg) w

unfoldable pub wrapper :
    {Ctx Snk : Type 0} → Runtime → (Command Ctx → GoValue Snk) → Handler Ctx Snk
unfolding wrapper_error
wrapper rt f c =
    on_writer (λ w. wrapper_error rt (append_value_error (f c)) (append_value rt (f c) w))

-- a value of a type that is not supported, inside or outside of a slice
abbrev pub wrapped : {Snk : Type 0} → GoValue Snk → Bytes
wrapped (unsupported name) =
    b'-' ∷ (codes "ERR " ++ (codes "resp: unsupported type " ++ name)) ++ crlf
wrapped v = shown v

module _ (rt : Runtime) {Ctx Snk : Type 0} (f : Command Ctx → GoValue Snk) (c : Command Ctx)
    (r : Reply Snk) where
  answer :
      (v : GoValue Snk)
      → IsStandard v
      → Appends (wrapped v) r.wr (wrapper_error rt (append_value_error v) (append_value rt v r.wr))
  unfolding wrapper_error append_value_error append_value
  answer (custom append_to) s = absurd s
  answer (unsupported name) s = append_error-Appends rt _ r.wr
  answer v s = append_value-Appends rt v r.wr s

  -- For a value that prints in a standard way (no part of it has an `AppendTo` of its own), a
  -- `WrapperFunc` appends what the value prints, or, for a value of an unsupported type, the error
  -- line that names the type, and nothing else.
  pub wrapper-Appends : IsStandard (f c) → Appends (wrapped (f c)) r.wr (wrapper rt f c r).wr
  unfolding wrapper
  wrapper-Appends s = answer (f c) s
