-- ===== src/Request/RoundTrip.antt =====
-- resp/request.go: the bytes of `WriteCmd` as input of `ReadCmd`.
use redeo.Base.{◌*◌, ◌≤◌, ◌<◌, ◌≡◌, ap, sym, ◌∙◌, Option, List, [], ◌++◌, Bytes, length}
use redeo.Command.Slots.{IsClean}
use redeo.Command.{Command, args}
use redeo.Io.{Runtime, IoReader}
use redeo.Monad.{ok}
use redeo.Reader.Window.{IsValid, window, advanced}
use redeo.Reader.{BufioR}
use redeo.Request.Buffered.{IsRecyclable, read_cmd_buffered}
use redeo.Request.{read_cmd}
use redeo.Writer.Output.{Appends, write_cmd-Appends}
use redeo.Writer.{BufioW, write_cmd}

-- what a writer with nothing pending holds after `p` was appended
pub buf-Appends :
    {Snk : Type 0} {p : Bytes} {w w' : BufioW Snk} → w.buf ≡ [] → Appends p w w' → w'.buf ≡ p
buf-Appends {p = p} h a = a.buf_eq ∙ ap (λ l. l ++ p) h

-- `ReadCmd` on a valid reader that holds what `WriteCmd` put into an empty writer, with anything
-- behind it, returns the name and the arguments that were written and stops behind them, if the
-- array of the arguments can be made and there is fuel for one round. It may reuse any command with
-- nothing in its spare slots, and gives one that can be reused.
pub read_cmd-write_cmd :
    {Ctx Snk : Type 0} (rt : Runtime) (rd : IoReader) (cmd : Option (Command Ctx)) (name : Bytes)
    (xs : List Bytes) (w : BufioW Snk) (b : BufioR rd.Src) (more : Bytes)
    → w.buf ≡ []
    → IsValid b
    → window b ≡ (write_cmd rt name xs w).buf ++ more
    → IsRecyclable cmd
    → 24 * length xs ≤ rt.max_alloc
    → 0 < rt.rounds
    → (c : Command Ctx) × (read_cmd rt rd cmd b
        ≡ ok tt (c, advanced b (length (write_cmd rt name xs w).buf)))
      × (c.name ≡ name)
      × (args c ≡ xs)
      × IsClean c
read_cmd-write_cmd rt rd cmd name xs w b more empty v e h alloc fuel =
    let written = buf-Appends empty (write_cmd-Appends rt name xs w) in
    let (c, runs, name_eq, args_eq, _, clean) =
      read_cmd_buffered rt rd cmd name xs b more v (e ∙ ap (λ l. l ++ more) written) h alloc fuel in
    (c, runs ∙ ap (λ l. ok tt (c, advanced b (length l))) (sym written), name_eq, args_eq, clean)
