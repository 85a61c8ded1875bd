-- ===== src/Command.antt =====
-- resp/command.go: `Command` and `readCommand`.
pub mod Buffered
pub mod Header
pub mod Slots
pub mod Args
use redeo.Base.{
  ℕ, zero, suc, ◌+◌, ◌-◌, ◌*◌, Bool, true, false, Option, none, some, List, [], ◌∷◌, ◌++◌, Bytes,
  ltb, leb, ◌==◌, if◌then◌else◌, length, get_or, set, take, drop, replicate,
}
use redeo.Base.Int.{ℤ, pos, negsuc}
use redeo.Argument.{append_argument}
use redeo.Errors.{Error}
use redeo.Io.{Runtime, IoReader}
use redeo.Line.{trim}
use redeo.Monad.{Outcome, ok, err, panic, timeout, return, fail, ◌>>=◌, ◌>>◌, and_then}
use redeo.Reader.{BufioR, R}
use redeo.Replies.{peek_byte, read_line, read_array_len, read_bulk, read_bulk_string}

-- `Args` is the slice of the first `len` of `slots`; the rest of `slots` is its spare capacity. The
-- bytes behind the end of each argument's own slice are not kept: nothing reads them.
pub record Command (Ctx : Type 0) : Type 0 where
  pub name : Bytes
  pub slots : List Bytes
  pub len : ℕ
  pub ctx : Option Ctx

module _ {Ctx : Type 0} where
  abbrev pub args : Command Ctx → List Bytes
  args c = take c.len c.slots

  -- `new(Command)`
  abbrev pub new_command : Command Ctx
  new_command = record { name = []; slots = []; len = 0; ctx = none }

  -- `NewCommand`
  unfoldable pub make_command : Bytes → List Bytes → Command Ctx
  make_command name xs = record { name = name; slots = xs; len = length xs; ctx = none }

  -- `Arg(n)`; `none` is the nil slice
  arg_of : Command Ctx → ℤ → Option Bytes
  arg_of c (negsuc _) = none
  arg_of c (pos n) = if ltb n c.len then some (get_or c.slots n []) else none

  unfoldable pub arg : Command Ctx → ℤ → Option Bytes
  unfolding arg_of
  arg c n = arg_of c n

  unfoldable pub arg_n : Command Ctx → ℕ
  arg_n c = c.len

  -- `Reset`: each argument is cut to length 0, its array and the array of the slice are kept.
  unfoldable pub reset : Command Ctx → Command Ctx
  reset c = record {
    name = [];
    slots = replicate c.len [] ++ drop c.len c.slots;
    len = 0;
    ctx = none;
  }

  unfoldable pub context : Ctx → Command Ctx → Ctx
  context background c = elim c.ctx [ none ↦ background | some x ↦ x ]

  unfoldable pub set_context : Option Ctx → Command Ctx → Command Ctx
  set_context none c = c
  set_context (some x) c = record c { ctx = some x }

-- Operations that change a command of type `C` while they read.
abbrev pub S : Type 0 → Type 0 → Type 0 → Type 0
S C Src A = C × BufioR Src → Outcome Error (C × BufioR Src) A

abbrev pub beside :
    {C Src A : Type 0} → C → Outcome Error (BufioR Src) A → Outcome Error (C × BufioR Src) A
beside c (ok a b) = ok a (c, b)
beside c (err e b) = err e (c, b)
beside c panic = panic
beside c timeout = timeout

-- an operation of the reader alone
abbrev pub on_reader : {C Src A : Type 0} → R Src A → S C Src A
on_reader m (c, b) = beside c (m b)

abbrev pub change : {C Src : Type 0} → (C → C) → S C Src (Unit {0})
change f (c, b) = ok tt (f c, b)

module _ {Ctx : Type 0} (rt : Runtime) where
  -- `grow(n)`. A slice header takes 24 bytes.
  unfoldable pub grow : ℕ → Command Ctx → Option (Command Ctx)
  grow n c =
      if ltb (length c.slots) n
      then if ltb rt.max_alloc (24 * n)
        then none
        else some (record c {
          slots = c.slots ++ replicate (n - length c.slots + rt.grown n) [];
          len = n;
        })
      else some (record c { len = n })

  module _ {Src : Type 0} where
    grow_in : ℕ → S (Command Ctx) Src (Unit {0})
    grow_in n (c, b) = elim (grow n c) [ none ↦ panic | some c' ↦ ok tt (c', b) ]

  module _ (rd : IoReader) where
    open rd use {Src}

    -- `c.Args[i], err = r.ReadBulk(c.Args[i])`
    read_arg : ℕ → S (Command Ctx) Src (Unit {0})
    read_arg i (c, b) =
        (do
          v ← on_reader (read_bulk rt rd (get_or c.slots i []))
          change (λ d. record d { slots = set d.slots i v }))
          (c, b)

    -- the loop from argument `i` on, with `left` to read
    read_args : ℕ → ℕ → S (Command Ctx) Src (Unit {0})
    unfolding read_arg
    read_args i zero = return tt
    read_args i (suc left) = do read_arg i; read_args (i + 1) left

    unfoldable pub read_multi_bulk : Bytes → ℕ → S (Command Ctx) Src (Unit {0})
    unfolding grow_in read_args
    read_multi_bulk name nargs = do
      change (λ c. record c { name = name })
      grow_in nargs
      read_args 0 nargs

    -- The loop of `readInline`, on fuel; a text that is not empty gets shorter in each round.
    inline_args : ℕ → ℕ → Bytes → S (Command Ctx) Src (Unit {0})
    inline_args f at [] s = ok tt s
    inline_args zero at (x ∷ xs) s = timeout
    inline_args (suc f) at (x ∷ xs) s =
        (do
          grow_in (at + 1)
          λ t.
              let taken = append_argument (get_or t.0.slots at []) (x ∷ xs) in
              inline_args f (at + 1) (drop taken.1 (x ∷ xs))
                (record t.0 { slots = set t.0.slots at taken.0 }, t.1))
          s

    inline_of : Bytes → S (Command Ctx) Src Bool
    unfolding inline_args grow_in
    inline_of line =
        let taken = append_argument [] line in
        let rest = drop taken.1 line in
        if length taken.0 == 0 then return false else (do
          inline_args (length rest) 0 rest
          change (λ c. record c { name = taken.0 })
          return true)

    unfoldable pub read_inline : S (Command Ctx) Src Bool
    unfolding inline_of
    read_inline = do line ← on_reader (read_line rt rd); inline_of (trim line)

-- The interface that `readCommand` takes.
pub record Target (C Src : Type 0) : Type 0 where
  pub on_inline : S C Src Bool
  pub on_multi_bulk : Bytes → ℕ → S C Src (Unit {0})

module _ (rt : Runtime) (rd : IoReader) {C : Type 0} (target : Target C rd.Src) where
  open rd use {Src}

  -- `readCommand`, on fuel: it calls itself on each empty line and each empty array.
  unfoldable pub read_command : ℕ → S C Src (Unit {0})
  read_command zero s = timeout
  read_command (suc f) s =
      let again = read_command f in
      (do
        x ← on_reader (peek_byte rt rd)
        if x == b'*'
            then (do
              sz ← on_reader (read_array_len rt rd)
              if ltb sz 1 then again else (do
                name ← on_reader (read_bulk_string rt rd)
                target.on_multi_bulk name (sz - 1)))
            else (do done ← target.on_inline; if done then return tt else again))
        s

-- `*Command` as the target of `readCommand`
abbrev pub command_target :
    {Ctx : Type 0} (rt : Runtime) (rd : IoReader) → Target (Command Ctx) rd.Src
command_target rt rd = record {
  on_inline = read_inline rt rd;
  on_multi_bulk = read_multi_bulk rt rd;
}
