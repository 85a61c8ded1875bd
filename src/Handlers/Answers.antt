-- ===== src/Handlers/Answers.antt =====
-- redeo.go: the answers of `Ping` and `Echo`.
use redeo.Base.{◌≡◌, ap, sym, ◌∙◌, List, [], ◌∷◌, ◌++◌, Bytes, codes, length, get_elem?, subst}
use redeo.Command
use redeo.Command.Args.{arg-get_elem?}
use redeo.Command.{Command, args}
use redeo.Errors.{crlf}
use redeo.Handlers.{ping, ping_of, echo, echo_of, wrong_number_of_args, arg_string, string_of}
use redeo.Io.{Runtime}
use redeo.Server.{Reply}
use redeo.Wire.{bulk}
use redeo.Writer.Output.{Appends, append_inline-Appends, append_bulk-Appends, append_error-Appends}

-- The answers as the commands' documentation has them.
abbrev pub wrong_number_line : Bytes → Bytes
wrong_number_line name = b'-' ∷ wrong_number_of_args name ++ crlf

abbrev pub ping_answer : Bytes → List Bytes → Bytes
ping_answer name [] = codes "+PONG\r\n"
ping_answer name (x ∷ []) = bulk x
ping_answer name (_ ∷ _ ∷ _) = wrong_number_line name

abbrev pub echo_answer : Bytes → List Bytes → Bytes
echo_answer name (x ∷ []) = bulk x
echo_answer name [] = wrong_number_line name
echo_answer name (_ ∷ _ ∷ _) = wrong_number_line name

-- the text that a command's first argument is read as
first_arg :
    {Ctx : Type 0} (c : Command Ctx) (x : Bytes) (xs : List Bytes)
    → args c ≡ x ∷ xs
    → c.len ≡ length (x ∷ xs)
    → arg_string c 0 ≡ x
first_arg c x xs e len_eq =
    ap string_of (arg-get_elem? c 0 (len_eq ∙ ap length (sym e)) ∙ ap (λ l. get_elem? l 0) e)

module _ (rt : Runtime) {Ctx Snk : Type 0} (name : Bytes) (xs : List Bytes) (c : Command Ctx)
    (r : Reply Snk) where
  -- For a command with this name, these arguments and this number of them, `Ping` appends PONG if
  -- there are none, the argument as a bulk if there is one, and the error that names the command if
  -- there are more.
  pub ping-Appends :
      c.name ≡ name
      → args c ≡ xs
      → c.len ≡ length xs
      → Appends (ping_answer name xs) r.wr (ping rt c r).wr
  unfolding ping ping_of Command.arg_n
  ping-Appends name_eq args_eq len_eq =
      subst (λ n. Appends (ping_answer name xs) r.wr (ping_of rt n c r).wr) (sym len_eq)
        (go xs args_eq len_eq)
    where
      go :
          (ys : List Bytes)
          → args c ≡ ys
          → c.len ≡ length ys
          → Appends (ping_answer name ys) r.wr (ping_of rt (length ys) c r).wr
      go [] e n = append_inline-Appends rt (codes "PONG") r.wr
      go (x ∷ []) e n =
          rw (sym (first_arg c x [] e n)) (append_bulk-Appends rt (arg_string c 0) r.wr)
      go (x ∷ y ∷ ys) e n =
          rw (sym name_eq) (append_error-Appends rt (wrong_number_of_args c.name) r.wr)

  -- For a command with this name, these arguments and this number of them, `Echo` appends the
  -- argument as a bulk if there is one, and the error that names the command if there are none or
  -- more.
  pub echo-Appends :
      c.name ≡ name
      → args c ≡ xs
      → c.len ≡ length xs
      → Appends (echo_answer name xs) r.wr (echo rt c r).wr
  unfolding echo echo_of Command.arg_n
  echo-Appends name_eq args_eq len_eq =
      subst (λ n. Appends (echo_answer name xs) r.wr (echo_of rt n c r).wr) (sym len_eq)
        (go xs args_eq len_eq)
    where
      go :
          (ys : List Bytes)
          → args c ≡ ys
          → c.len ≡ length ys
          → Appends (echo_answer name ys) r.wr (echo_of rt (length ys) c r).wr
      go [] e n = rw (sym name_eq) (append_error-Appends rt (wrong_number_of_args c.name) r.wr)
      go (x ∷ []) e n =
          rw (sym (first_arg c x [] e n)) (append_bulk-Appends rt (arg_string c 0) r.wr)
      go (x ∷ y ∷ ys) e n =
          rw (sym name_eq) (append_error-Appends rt (wrong_number_of_args c.name) r.wr)
