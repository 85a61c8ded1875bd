-- ===== src/Request/Stream.antt =====
-- resp/request.go: `StreamCmd` on a request that is buffered whole.
use redeo.Base.{
  ℕ, suc, ◌-◌, ◌<◌, ◌≡◌, refl, ap, ◌∙◌, false, true, Option, none, some, List, [], ◌++◌, Bytes,
  arith, length, le→ltb_false, if◌then◌else◌,
}
use redeo.BulkReader.{BulkReader}
use redeo.Command.Header.{at-Arguments, behind_name, read_command-request}
use redeo.Command
use redeo.Command.{read_command}
use redeo.CommandStream
use redeo.CommandStream.Discard.{Opened, discard_buffered}
use redeo.CommandStream.{CommandStream, with_inline, stream_target}
use redeo.Errors.{Error}
use redeo.Io.{Runtime, IoReader}
use redeo.Monad.{ok, and_then, and_then-ok}
use redeo.Reader.Window.{IsValid, window, advanced}
use redeo.Reader.{BufioR}
use redeo.Request.{recycled_stream, stream_cmd}
use redeo.Wire.{request}

module _ {Ctx : Type 0} (rt : Runtime) (rd : IoReader) where
  open rd use {Src}

  -- a command stream that has just been made or reset
  Fresh : CommandStream Ctx → Type 0
  Fresh c = (c.is_inline ≡ false) × (c.arg ≡ none) × (c.pos ≡ 0) × (c.ctx ≡ none)

  recycled_stream-Fresh : (cmd : Option (CommandStream Ctx)) → Fresh (recycled_stream cmd)
  unfolding recycled_stream Fresh with_inline CommandStream.reset
  recycled_stream-Fresh none = (refl, refl, refl, refl)
  recycled_stream-Fresh (some c) = (refl, refl, refl, refl)

  -- the command that is read: the arguments are still in the reader
  abbrev streaming : Option (CommandStream Ctx) → Bytes → ℕ → CommandStream Ctx
  streaming cmd name n = record (recycled_stream cmd) { name = name; nargs = n; attached = true }

  stream_cmd_buffered :
      (cmd : Option (CommandStream Ctx)) (name : Bytes) (xs : List Bytes) (b : BufioR Src)
      (more : Bytes)
      → IsValid b
      → window b ≡ request name xs ++ more
      → 0 < rt.rounds
      → stream_cmd rt rd cmd b ≡ ok tt (streaming cmd name (length xs), behind_name name xs b)
  unfolding stream_cmd CommandStream.read_multi_bulk
  stream_cmd_buffered cmd name xs b more v e fuel =
      ap (λ n. read_command rt rd (stream_target rt rd) n (recycled_stream cmd, b)) some_fuel
      ∙ read_command-request rt rd (stream_target rt rd) (rt.rounds - 1) name xs
          (recycled_stream cmd) b more v e
    where
      some_fuel : rt.rounds ≡ suc (rt.rounds - 1)
      some_fuel = omega arith

  -- If a valid reader holds the wire form of a request, with anything behind it, and there is fuel
  -- for one round, then `StreamCmd`, into a new command or one that is reset, and `Discard` return
  -- no error and stop exactly behind the request, where `ReadCmd` stops too; the command has the
  -- name and the number of the arguments, and `More` is false.
  pub stream_cmd-discard :
      (ctx_error : Ctx → Option Error) (cmd : Option (CommandStream Ctx)) (name : Bytes)
      (xs : List Bytes) (b : BufioR Src) (more : Bytes)
      → IsValid b
      → window b ≡ request name xs ++ more
      → 0 < rt.rounds
      → (c : CommandStream Ctx) × (and_then
            (stream_cmd rt rd cmd b)
            (λ _ s. CommandStream.discard rt rd ctx_error s)
          ≡ ok none (c, advanced b (length (request name xs))))
        × (c.name ≡ name)
        × (c.nargs ≡ length xs)
        × (CommandStream.more c ≡ false)
  unfolding CommandStream.more CommandStream.arg_n Fresh
  stream_cmd-discard ctx_error cmd name xs b more v e fuel =
      let a = at-Arguments name xs b more v e in
      let (plain, closed, start, _) = recycled_stream-Fresh cmd in
      let c = streaming cmd name (length xs) in
      (
        record c { arg = none; pos = length xs },
        and_then-ok _ (stream_cmd_buffered cmd name xs b more v e fuel) (
            discard_buffered rt rd ctx_error [] xs c (behind_name name xs b) more a.valid a.unread
              (opened c.arg closed) plain refl (omega (arith, start))
            ∙ ap (λ s. ok none (record c { arg = none; pos = length xs }, s)) a.end),
        refl,
        refl,
        none_left (record c { arg = none; pos = length xs }) plain refl,
      )
    where
      opened : (o : Option BulkReader) → o ≡ none → Opened rt rd ctx_error [] o
      opened none h = refl
      opened (some x) h = absurd (cc h)

      none_left :
          (d : CommandStream Ctx)
          → d.is_inline ≡ false
          → d.pos ≡ d.nargs
          → CommandStream.more d ≡ false
      none_left d plain done =
          le→ltb_false d.pos (CommandStream.arg_n d)
            (omega (arith, done, ap (λ z. if z then Command.arg_n d.inline else d.nargs) plain))
