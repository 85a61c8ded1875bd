-- ===== src/CommandStream.antt =====
-- resp/command.go: `CommandStream`, a command whose arguments are read one by one.
pub mod Discard
use redeo.Base.{
  ℕ, zero, suc, ◌+◌, ◌-◌, Bool, true, false, ◌&&◌, Option, none, some, [], Bytes, ltb,
  if◌then◌else◌, length, get_or,
}
use redeo.BulkReader
use redeo.BulkReader.{BulkReader, ReadResult, stream_bulk, read_bulk_part}
use redeo.Command
use redeo.Command.{Command, S, Target, beside, on_reader, change, new_command}
use redeo.Errors.{Error, no_more_args}
use redeo.Io.{Runtime, IoReader}
use redeo.Monad.{Outcome, ok, err, panic, timeout, ◌>>=◌, and_then}
use redeo.Reader.{BufioR}
use redeo.Replies.{skip_bulk}

-- `attached` says that `rd` is not nil; it is then the reader that the command came from.
pub record CommandStream (Ctx : Type 0) : Type 0 where
  pub name : Bytes
  pub ctx : Option Ctx
  pub inline : Command Ctx
  pub is_inline : Bool
  pub nargs : ℕ
  pub pos : ℕ
  pub arg : Option BulkReader
  pub attached : Bool

-- What `Next` returns: the bytes of an inline argument, or the reader that is also kept in `arg`.
pub data Argument : Type 0 where
  in_memory : Bytes → Argument
  streamed : Argument

module _ {Ctx : Type 0} where
  unfoldable pub with_inline : Command Ctx → CommandStream Ctx
  with_inline c = record {
    name = [];
    ctx = none;
    inline = c;
    is_inline = false;
    nargs = 0;
    pos = 0;
    arg = none;
    attached = false;
  }

  -- `new(CommandStream)`
  abbrev pub new_stream : CommandStream Ctx
  unfolding with_inline
  new_stream = with_inline new_command

  unfoldable pub reset : CommandStream Ctx → CommandStream Ctx
  unfolding with_inline
  reset c = with_inline (Command.reset c.inline)

  unfoldable pub arg_n : CommandStream Ctx → ℕ
  arg_n c = if c.is_inline then Command.arg_n c.inline else c.nargs

  unfoldable pub more : CommandStream Ctx → Bool
  unfolding arg_n
  more c = ltb c.pos (arg_n c)

  unfoldable pub context : Ctx → CommandStream Ctx → Ctx
  context background c = elim c.ctx [ none ↦ background | some x ↦ x ]

  unfoldable pub set_context : Option Ctx → CommandStream Ctx → CommandStream Ctx
  set_context none c = c
  set_context (some x) c = record c { ctx = some x }

-- `ctx_error` is `Err()` of a context.
module _ {Ctx : Type 0} (rt : Runtime) (rd : IoReader) (ctx_error : Ctx → Option Error) where
  open rd use {Src}

  -- the open argument closed, and what `Close` returned
  close_arg :
      Option BulkReader
      → CommandStream Ctx × BufioR Src
      → Outcome Error (CommandStream Ctx × BufioR Src) (Option Error)
  close_arg none (c, b) = ok none (c, b)
  close_arg (some a) (c, b) = elim (BulkReader.close rt rd a b) [
    | ok _ b' ↦ ok none (record c { arg = none }, b')
    | err e b' ↦ ok (some e) (record c { arg = none }, b')
    | panic ↦ panic
    | timeout ↦ timeout
  ]

  -- The loop of `Discard` over the arguments that are left. It goes on behind an error, and keeps
  -- the last one.
  skip_args :
      ℕ
      → Option Error
      → CommandStream Ctx × BufioR Src
      → Outcome Error (CommandStream Ctx × BufioR Src) (Option Error)
  skip_args zero e s = ok e s
  skip_args (suc left) e (c, b) = elim (skip_bulk rt rd b) [
    | ok _ b' ↦ skip_args left e (record c { pos = c.pos + 1 }, b')
    | err e' b' ↦ skip_args left (some e') (record c { pos = c.pos + 1 }, b')
    | panic ↦ panic
    | timeout ↦ timeout
  ]

  discard_rest : S (CommandStream Ctx) Src (Option Error)
  unfolding close_arg skip_args
  discard_rest (c, b) =
      (do e ← close_arg c.arg; λ s. skip_args (if s.0.attached then s.0.nargs - s.0.pos else 0) e s)
        (c, b)

  -- `Discard`: what it returns is its result here.
  unfoldable pub discard : S (CommandStream Ctx) Src (Option Error)
  unfolding discard_rest
  discard (c, b) =
      if c.is_inline && ltb c.pos (length (Command.args c.inline))
      then ok none (record c { pos = length (Command.args c.inline) }, b)
      else discard_rest (c, b)

  next_argument : S (CommandStream Ctx) Src Argument
  next_argument (c, b) =
      if c.is_inline
      then ok (in_memory (get_or c.inline.slots c.pos [])) (record c { pos = c.pos + 1 }, b)
      else (elim (stream_bulk rt rd b) [
        | ok a b' ↦ ok streamed (record c { arg = some a; pos = c.pos + 1 }, b')
        | err e b' ↦ err e (record c { arg = none; pos = c.pos + 1 }, b')
        | panic ↦ panic
        | timeout ↦ timeout
      ])

  next_open : Option Error → S (CommandStream Ctx) Src Argument
  unfolding next_argument
  next_open (some e) s = err e s
  next_open none (c, b) = if more c then next_argument (c, b) else err no_more_args (c, b)

  unfoldable pub next : S (CommandStream Ctx) Src Argument
  unfolding next_open more
  next (c, b) = next_open (elim c.ctx [ none ↦ none | some x ↦ ctx_error x ]) (c, b)

module _ {Ctx : Type 0} (rt : Runtime) (rd : IoReader) where
  open rd use {Src}

  -- `Read` on the reader that `Next` returned last, which is the one in `arg`.
  unfoldable pub read_streamed : ℕ → S (CommandStream Ctx) Src ReadResult
  read_streamed room (c, b) = elim c.arg [
    | none ↦ panic
    | some a ↦
        and_then (beside c (read_bulk_part rt rd a room b))
          (λ res s. ok res (record s.0 { arg = some res.next }, s.1))
  ]

  unfoldable pub read_multi_bulk : Bytes → ℕ → S (CommandStream Ctx) Src (Unit {0})
  read_multi_bulk name nargs =
      change (λ c. record c { name = name; nargs = nargs; attached = true })

  named : Bool → CommandStream Ctx → CommandStream Ctx
  named true c = record c { name = c.inline.name }
  named false c = c

  -- `c.inline.readInline(r)`, the command inside the stream
  unfoldable pub read_inline : S (CommandStream Ctx) Src Bool
  unfolding named
  read_inline (c, b) =
      let put = λ (i : Command Ctx). record c { is_inline = true; inline = i } in
      elim (Command.read_inline rt rd (c.inline, b)) [
        | ok done (i, b') ↦ ok done (named done (put i), b')
        | err e (i, b') ↦ err e (put i, b')
        | panic ↦ panic
        | timeout ↦ timeout
      ]

  -- `*CommandStream` as the target of `readCommand`
  abbrev pub stream_target : Target (CommandStream Ctx) Src
  stream_target = record { on_inline = read_inline; on_multi_bulk = read_multi_bulk }
