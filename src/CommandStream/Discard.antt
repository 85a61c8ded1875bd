-- ===== src/CommandStream/Discard.antt =====
-- resp/command.go: `Discard` of a command stream, on arguments that are buffered.
use redeo.Base.{
  ℕ, suc, ◌+◌, ◌-◌, ◌≡◌, refl, ap, sym, ◌∙◌, true, false, ◌&&◌, Option, none, some, List, [], ◌∷◌,
  ◌++◌, Bytes, arith, ltb, length, append_assoc, length-append, if◌then◌else◌,
}
use redeo.Base.Int.{pos}
use redeo.BulkReader
use redeo.BulkReader.Reads.{close_buffered}
use redeo.BulkReader.{BulkReader}
use redeo.Command.Header.{advanced_twice}
use redeo.Command.{args}
use redeo.CommandStream.{CommandStream, close_arg, skip_args, discard_rest, discard}
use redeo.Errors.{Error}
use redeo.Io.{Runtime, IoReader}
use redeo.Monad.{ok, and_then-ok}
use redeo.Reader.Window.{IsValid, window, advanced, advanced_append-IsValid, window-advanced_append}
use redeo.Reader.{BufioR}
use redeo.Replies.Bulk.{skip_bulk_buffered}
use redeo.Replies.{skip_bulk}
use redeo.Wire.{bulk, bulks}

module _ {Ctx : Type 0} (rt : Runtime) (rd : IoReader) (ctx_error : Ctx → Option Error) where
  open rd use {Src}

  skip_step :
      (left : ℕ) (e : Option Error) (c : CommandStream Ctx) (b b' : BufioR Src)
      → skip_bulk rt rd b ≡ ok tt b'
      → skip_args rt rd ctx_error (suc left) e (c, b)
        ≡ skip_args rt rd ctx_error left e (record c { pos = c.pos + 1 }, b')
  unfolding skip_args
  skip_step left e c b b' h = rw (h, skip_args) refl

  -- the command when `n` more arguments are done
  abbrev pub moved : CommandStream Ctx → ℕ → CommandStream Ctx
  moved c n = record c { pos = c.pos + n }

  skip_args_buffered :
      (xs : List Bytes) (e : Option Error) (c : CommandStream Ctx) (b : BufioR Src) (more : Bytes)
      → IsValid b
      → window b ≡ bulks xs ++ more
      → skip_args rt rd ctx_error (length xs) e (c, b)
        ≡ ok e (moved c (length xs), advanced b (length (bulks xs)))
  unfolding skip_args
  skip_args_buffered [] e c b more v h =
      ap (λ n. ok e (record c { pos = n }, b)) (omega arith)
      ∙ ap (λ n. ok e (moved c 0, record b { r = n })) (omega arith)
  skip_args_buffered (x ∷ xs) e c b more v h =
      let split : window b ≡ bulk x ++ (bulks xs ++ more) =
        h ∙ append_assoc (bulk x) (bulks xs) more in
      let b₁ = advanced b (length (bulk x)) in
      skip_step (length xs) e c b b₁ (skip_bulk_buffered rt rd b x (bulks xs ++ more) v split)
      ∙ skip_args_buffered xs e (moved c 1) b₁ more
          (advanced_append-IsValid b (bulk x) (bulks xs ++ more) v split)
          (window-advanced_append b (bulk x) (bulks xs ++ more) v split)
      ∙ ap (λ s. ok e (moved (moved c 1) (length xs), s)) (advanced_twice b (bulk x) (bulks xs))
      ∙ ap (λ n. ok e (record c { pos = n }, advanced b (length (bulks (x ∷ xs))))) (omega arith)

  -- what `Discard` finds open: the argument that `Next` returned last, with `tail` unread, or nothing
  abbrev pub Opened : Bytes → Option BulkReader → Type 0
  Opened tail none = tail ≡ []
  Opened tail (some a) = a ≡ record { n = pos (length tail) }

  abbrev closed : CommandStream Ctx → CommandStream Ctx
  closed c = record c { arg = none }

  close_step :
      (a : BulkReader) (c : CommandStream Ctx) (b b' : BufioR Src)
      → BulkReader.close rt rd a b ≡ ok (record { n = pos 0 }) b'
      → close_arg rt rd ctx_error (some a) (c, b) ≡ ok none (closed c, b')
  unfolding close_arg
  close_step a c b b' h = rw (h, close_arg) refl

  close_arg_buffered :
      (tail : Bytes) (c : CommandStream Ctx) (b : BufioR Src) (more : Bytes)
      → IsValid b
      → window b ≡ tail ++ more
      → (o : Option BulkReader) → Opened tail o
      → c.arg ≡ o
      → close_arg rt rd ctx_error o (c, b) ≡ ok none (closed c, advanced b (length tail))
  unfolding close_arg
  close_arg_buffered tail c b more v h none nil open_arg =
      ap (λ d. ok none (d, b)) (ap (λ x. record c { arg = x }) open_arg)
      ∙ ap (λ n. ok none (closed c, record b { r = n })) (omega (arith, ap length nil))
  close_arg_buffered tail c b more v h (some a) same open_arg =
      close_step a c b (advanced b (length tail)) (
        ap (λ x. BulkReader.close rt rd x b) same
        ∙ close_buffered rt rd b (length tail) v
            (omega (arith, ap length h, length-append tail more)))

  not_inline :
      (c : CommandStream Ctx) (b : BufioR Src)
      → c.is_inline ≡ false
      → discard rt rd ctx_error (c, b) ≡ discard_rest rt rd ctx_error (c, b)
  unfolding discard
  not_inline c b plain =
      ap
        (λ z.
          if z && ltb c.pos (length (args c.inline))
          then ok none (record c { pos = length (args c.inline) }, b)
          else discard_rest rt rd ctx_error (c, b))
        plain

  -- Let a command stream that is not inline have its reader, its open argument (if `Next` left one
  -- open) with exactly the bytes `tail` unread, and the number of arguments that `xs` follow it,
  -- and let a valid reader hold `tail`, the bulks of `xs` and anything behind them. Then `Discard`
  -- returns no error, no argument is open or left, and the reader is exactly behind the last
  -- argument.
  pub discard_buffered :
      (tail : Bytes) (xs : List Bytes) (c : CommandStream Ctx) (b : BufioR Src) (more : Bytes)
      → IsValid b
      → window b ≡ tail ++ (bulks xs ++ more)
      → Opened tail c.arg
      → c.is_inline ≡ false
      → c.attached ≡ true
      → c.nargs ≡ c.pos + length xs
      → discard rt rd ctx_error (c, b)
        ≡ ok none (record c { arg = none; pos = c.nargs }, advanced b (length (tail ++ bulks xs)))
  unfolding discard_rest
  discard_buffered tail xs c b more v h opened plain attached count =
      not_inline c b plain
      ∙ (and_then-ok _ (close_arg_buffered tail c b (bulks xs ++ more) v h c.arg opened refl) (
          ap (λ z. skip_args rt rd ctx_error (if z then c.nargs - c.pos else 0) none (closed c, b₁))
            attached
          ∙ ap (λ n. skip_args rt rd ctx_error n none (closed c, b₁)) (omega (arith, count))
          ∙ skip_args_buffered xs none (closed c) b₁ more
              (advanced_append-IsValid b tail (bulks xs ++ more) v h)
              (window-advanced_append b tail (bulks xs ++ more) v h)
          ∙ ap (λ n. ok none (record c { arg = none; pos = n }, advanced b₁ (length (bulks xs))))
              (sym count)
          ∙ ap (λ s. ok none (record c { arg = none; pos = c.nargs }, s))
              (advanced_twice b tail (bulks xs))))
    where
      b₁ : BufioR Src
      b₁ = advanced b (length tail)
