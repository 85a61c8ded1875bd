-- ===== src/Handlers.antt =====
-- redeo.go: the handlers that the framework comes with, but for `Info`, which prints the registry, and
-- `WrapperFunc`, which prints any Go value. `strings.ToLower` is a parameter.

pub mod Answers
pub mod Wrapper
use redeo.Base.{
  ℕ, zero, suc, ◌+◌, Option, none, some, List, [], ◌∷◌, ◌++◌, Bytes, codes, if◌then◌else◌, length,
  get_or, drop,
}
use redeo.Base.Int.{ℤ, pos}
use redeo.Command
use redeo.Command.{Command, args, make_command}
use redeo.Io.{Runtime}
use redeo.Replies.{equal}
use redeo.Server.{Reply}
use redeo.Writer.{BufioW, append_array_len, append_bulk, append_inline, append_error, append_int}

abbrev pub wrong_number_of_args : Bytes → Bytes
wrong_number_of_args cmd = codes "ERR wrong number of arguments for '" ++ (cmd ++ codes "' command")

abbrev pub Handler : Type 0 → Type 0 → Type 0
Handler Ctx Snk = Command Ctx → Reply Snk → Reply Snk

-- an operation on the writer of a reply
abbrev pub on_writer : {Snk : Type 0} → (BufioW Snk → BufioW Snk) → Reply Snk → Reply Snk
on_writer f r = record r { wr = f r.wr }

abbrev pub string_of : Option Bytes → Bytes
string_of none = []
string_of (some p) = p

-- `c.Arg(i).String()`
abbrev pub arg_string : {Ctx : Type 0} → Command Ctx → ℕ → Bytes
arg_string c i = string_of (Command.arg c (pos i))

-- `CommandDescription`
pub record CommandDescription : Type 0 where
  pub name : Bytes
  pub arity : ℤ
  pub flags : List Bytes
  pub first_key : ℤ
  pub last_key : ℤ
  pub key_step_count : ℤ

module _ (rt : Runtime) {Snk : Type 0} where
  append_flags : List Bytes → BufioW Snk → BufioW Snk
  append_flags [] w = w
  append_flags (f ∷ fs) w = append_flags fs (append_bulk rt f w)

  module _ (to_lower : Bytes → Bytes) where
    -- one entry of `CommandDescriptions`
    append_description : CommandDescription → BufioW Snk → BufioW Snk
    unfolding append_flags
    append_description d w = append_int rt d.key_step_count (
        append_int rt d.last_key (
          append_int rt d.first_key (
            append_flags d.flags (
              append_array_len rt (pos (length d.flags)) (
                append_int rt d.arity
                  (append_bulk rt (to_lower d.name) (append_array_len rt (pos 6) w)))))))

    append_descriptions : List CommandDescription → BufioW Snk → BufioW Snk
    unfolding append_description
    append_descriptions [] w = w
    append_descriptions (d ∷ ds) w = append_descriptions ds (append_description d w)

-- the command that a sub-command's handler gets
sub_command : {Ctx : Type 0} → Ctx → Command Ctx → Bytes → Command Ctx
sub_command background c first_arg =
    Command.set_context (some (Command.context background c))
      (make_command (c.name ++ (codes " " ++ first_arg)) (drop 1 (args c)))

-- `s[key]`
find_handler : {H : Type 0} → Bytes → List (Bytes × H) → Option H
find_handler key [] = none
find_handler key ((k, h) ∷ hs) =
    let rest = find_handler key hs in if equal k key then some h else rest

module _ (rt : Runtime) {Ctx Snk : Type 0} where
  -- the `switch` on `c.ArgN()`
  ping_of : ℕ → Handler Ctx Snk
  ping_of zero c = on_writer (append_inline rt (codes "PONG"))
  ping_of (suc zero) c = on_writer (append_bulk rt (arg_string c 0))
  ping_of (suc (suc _)) c = on_writer (append_error rt (wrong_number_of_args c.name))

  unfoldable pub ping : Handler Ctx Snk
  unfolding ping_of
  ping c = ping_of (Command.arg_n c) c

  echo_of : ℕ → Handler Ctx Snk
  echo_of zero c = on_writer (append_error rt (wrong_number_of_args c.name))
  echo_of (suc zero) c = on_writer (append_bulk rt (arg_string c 0))
  echo_of (suc (suc _)) c = on_writer (append_error rt (wrong_number_of_args c.name))

  unfoldable pub echo : Handler Ctx Snk
  unfolding echo_of
  echo c = echo_of (Command.arg_n c) c

  module _ (to_lower : Bytes → Bytes) where
    -- `CommandDescriptions.ServeRedeo`
    unfoldable pub command_descriptions : List CommandDescription → Handler Ctx Snk
    unfolding append_descriptions
    command_descriptions ds c =
        on_writer
          (λ w. append_descriptions rt to_lower ds (append_array_len rt (pos (length ds)) w))

    sub_of : Option (Handler Ctx Snk) → Ctx → Bytes → Handler Ctx Snk
    unfolding sub_command
    sub_of (some h) background first_arg c = h (sub_command background c first_arg)
    sub_of none background first_arg c = on_writer (
        append_error rt (
          codes "ERR Unknown "
          ++ (to_lower c.name ++ (codes " subcommand '" ++ (first_arg ++ codes "'")))))

    sub_commands_of : ℕ → List (Bytes × Handler Ctx Snk) → Ctx → Handler Ctx Snk
    unfolding sub_of find_handler
    sub_commands_of zero hs background c = on_writer (append_error rt (wrong_number_of_args c.name))
    sub_commands_of (suc _) hs background c =
        sub_of (find_handler (to_lower (arg_string c 0)) hs) background (arg_string c 0) c

    -- `SubCommands.ServeRedeo`; `background` is the context of a command that has none
    unfoldable pub sub_commands : List (Bytes × Handler Ctx Snk) → Ctx → Handler Ctx Snk
    unfolding sub_commands_of
    sub_commands hs background c = sub_commands_of (Command.arg_n c) hs background c
