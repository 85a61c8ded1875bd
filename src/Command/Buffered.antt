-- ===== src/Command/Buffered.antt =====
-- resp/command.go: `readCommand` into a `Command`, on a request that is buffered whole.
use redeo.Base.{
  ℕ, suc, ◌+◌, ◌*◌, ◌≤◌, ◌≡◌, ap, sym, ◌∙◌, some, List, [], ◌∷◌, ◌++◌, Bytes, arith, length, take,
  drop, get_or, set, All, append_assoc, subst,
}
use redeo.Command.Header.{
  beside-ok, advanced_twice, at-Arguments, behind_name, read_command-request,
}
use redeo.Command.Slots.{
  IsClean, All-EmptyFrom, All-drop, drop-overwrite, EmptyFrom, set-EmptyFrom, overwrite,
  take-overwrite, grow_lem,
}
use redeo.Command.{
  Command, args, grow, grow_in, read_arg, read_args, read_multi_bulk, read_command, command_target,
}
use redeo.Io.{Runtime, IoReader}
use redeo.Monad.{ok, and_then-ok}
use redeo.Reader.Window.{IsValid, window, advanced, advanced_append-IsValid, window-advanced_append}
use redeo.Reader.{BufioR}
use redeo.Replies.Bulk.{read_bulk_buffered}
use redeo.Wire.{bulk, bulks, request}

module _ {Ctx : Type 0} (rt : Runtime) (rd : IoReader) where
  open rd use {Src}

  read_arg_buffered :
      (i : ℕ) (c : Command Ctx) (b : BufioR Src) (x more : Bytes)
      → IsValid b
      → window b ≡ bulk x ++ more
      → EmptyFrom i c.slots
      → read_arg rt rd i (c, b)
        ≡ ok tt (record c { slots = set c.slots i x }, advanced b (length (bulk x)))
  unfolding read_arg
  read_arg_buffered i c b x more v e h =
      and_then-ok _ (beside-ok c (read_bulk_buffered rt rd b (get_or c.slots i []) x more v e)) (
        ap (λ l. ok tt (record c { slots = set c.slots i (l ++ x) }, advanced b (length (bulk x))))
          (h i (omega arith)))

  read_args_buffered :
      (i : ℕ) (xs : List Bytes) (c : Command Ctx) (b : BufioR Src) (more : Bytes)
      → IsValid b
      → window b ≡ bulks xs ++ more
      → EmptyFrom i c.slots
      → read_args rt rd i (length xs) (c, b)
        ≡ ok tt (record c { slots = overwrite c.slots i xs }, advanced b (length (bulks xs)))
  unfolding read_args
  read_args_buffered i [] c b more v e h = ap (λ n. ok tt (c, record b { r = n })) (omega arith)
  read_args_buffered i (x ∷ xs) c b more v e h =
      let b₁ = advanced b (length (bulk x)) in
      let c₁ = record c { slots = set c.slots i x } in
      let split : window b ≡ bulk x ++ (bulks xs ++ more) =
        e ∙ append_assoc (bulk x) (bulks xs) more in
      and_then-ok _ (read_arg_buffered i c b x (bulks xs ++ more) v split h) (
        ap (λ n. read_args rt rd n (length xs) (c₁, b₁)) add_one
        ∙ read_args_buffered (suc i) xs c₁ b₁ more
            (advanced_append-IsValid b (bulk x) (bulks xs ++ more) v split)
            (window-advanced_append b (bulk x) (bulks xs ++ more) v split)
            (set-EmptyFrom c.slots i x h)
        ∙ ap (λ s. ok tt (record c₁ { slots = overwrite c₁.slots (suc i) xs }, s))
            (advanced_twice b (bulk x) (bulks xs)))
    where
      add_one : i + 1 ≡ suc i
      add_one = omega arith

  -- What reading a request into `c` gives.
  pub record Read (name : Bytes) (xs : List Bytes) (c c' : Command Ctx) : Type 0 where
    pub name_eq : c'.name ≡ name
    pub args_eq : args c' ≡ xs
    pub len_eq : c'.len ≡ length xs
    pub ctx_eq : c'.ctx ≡ c.ctx
    pub clean : IsClean c'

  read_multi_bulk_buffered :
      (name : Bytes) (xs : List Bytes) (c : Command Ctx) (b : BufioR Src) (more : Bytes)
      → IsValid b
      → window b ≡ bulks xs ++ more
      → All (λ v. v ≡ []) c.slots
      → 24 * length xs ≤ rt.max_alloc
      → (c' : Command Ctx) × (read_multi_bulk rt rd name (length xs) (c, b)
          ≡ ok tt (c', advanced b (length (bulks xs))))
        × Read name xs c c'
  unfolding read_multi_bulk
  read_multi_bulk_buffered name xs c b more v e h alloc =
      let (g, grows, gr) = grow_lem rt (length xs) (record c { name = name }) h alloc in
      (
        record g { slots = overwrite g.slots 0 xs },
        and_then-ok _ (grown g grows)
            (read_args_buffered 0 xs g b more v e (All-EmptyFrom g.slots 0 gr.empty)),
        record {
          name_eq = gr.same_name;
          args_eq =
              ap (λ n. take n (overwrite g.slots 0 xs)) gr.len_eq
              ∙ take-overwrite g.slots xs gr.has_room;
          len_eq = gr.len_eq;
          ctx_eq = gr.same_ctx;
          clean =
              subst (λ n. All (λ v. v ≡ []) (drop n (overwrite g.slots 0 xs))) (sym gr.len_eq)
                (subst (All (λ v. v ≡ [])) (sym (drop-overwrite g.slots xs))
                  (All-drop (length xs) g.slots gr.empty));
        },
      )
    where
      grown :
          (g : Command Ctx)
          → grow rt (length xs) (record c { name = name }) ≡ some g
          → grow_in rt (length xs) (record c { name = name }, b) ≡ ok tt (g, b)
      grown g grows = unfold grow_in in rw (grows, grow_in)

  -- A buffered request, read into a command whose slots are all empty.
  pub read_command_buffered :
      (f : ℕ) (name : Bytes) (xs : List Bytes) (c : Command Ctx) (b : BufioR Src) (more : Bytes)
      → IsValid b
      → window b ≡ request name xs ++ more
      → All (λ v. v ≡ []) c.slots
      → 24 * length xs ≤ rt.max_alloc
      → (c' : Command Ctx) × (read_command rt rd (command_target rt rd) (suc f) (c, b)
          ≡ ok tt (c', advanced b (length (request name xs))))
        × Read name xs c c'
  read_command_buffered f name xs c b more v e h alloc =
      let a = at-Arguments name xs b more v e in
      let (c', runs, r) =
        read_multi_bulk_buffered name xs c (behind_name name xs b) more a.valid a.unread h alloc in
      (
        c',
        read_command-request rt rd (command_target rt rd) f name xs c b more v e
            ∙ runs
            ∙ ap (λ s. ok tt (c', s)) a.end,
        r,
      )
