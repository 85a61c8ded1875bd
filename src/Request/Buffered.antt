-- ===== src/Request/Buffered.antt =====
-- resp/request.go: `ReadCmd`, `PeekCmd` and `SkipCmd` on a request that is buffered whole.
use redeo.Base.{
  ℕ, suc, ◌+◌, ◌-◌, ◌*◌, ◌≤◌, ◌<◌, ◌≡◌, ap, sym, ◌∙◌, Option, none, some, List, [], ◌∷◌, ◌++◌,
  Bytes, arith, length, take, drop, All, length-append, length-drop, append_assoc, le→ltb_false,
}
use redeo.Base.Int.{add64_pos}
use redeo.Base.Slices.{drop-append, drop-drop, take-append}
use redeo.Command.Buffered.{read_command_buffered}
use redeo.Command.Header.{advanced_twice}
use redeo.Command.Slots.{IsClean, reset-empty}
use redeo.Command.{Command, args, read_command, command_target}
use redeo.Errors.{crlf, invalid_bulk_length, invalid_multi_bulk_length}
use redeo.Io.{Runtime, IoReader}
use redeo.Line.Numbers.{parse_size-format_nat}
use redeo.Monad.{ok, and_then-ok}
use redeo.Reader.Require.{require_buffered}
use redeo.Reader.Window.{
  buf_limit, IsValid, window, advanced, length-window, slice-window, advanced_append-IsValid,
  window-advanced_append,
}
use redeo.Reader.{BufioR, slice, require}
use redeo.Replies.Bulk.{read_array_len_buffered, skip_bulk_buffered}
use redeo.Replies.Lines.{peek_byte_buffered, peek_line_buffered}
use redeo.Replies.{peek_n}
use redeo.Request.{
  recycled, read_cmd, skip_bulks, skip_cmd_in, skip_cmd, peek_name, peek_cmd_at, peek_cmd,
}
use redeo.Wire.{
  size_text, size_line, bulk, bulks, request, request-append, bulk-append, size_text-Lacks,
  le-length-request,
}

-- A command that is passed to `ReadCmd`: none, or one with nothing in its spare capacity.
abbrev pub IsRecyclable : {Ctx : Type 0} → Option (Command Ctx) → Type 0
IsRecyclable none = Unit
IsRecyclable (some c) = IsClean c

module _ {Ctx : Type 0} where
  recycled-empty :
      (cmd : Option (Command Ctx)) → IsRecyclable cmd → All (λ v. v ≡ []) (recycled cmd).slots
  unfolding recycled
  recycled-empty none h = tt
  recycled-empty (some c) h = reset-empty c h

  -- If a valid reader holds the wire form of a request, with anything behind it, the command that
  -- is reused has nothing in its spare slots, the array of the arguments can be made and there is
  -- fuel for one round, then `ReadCmd` succeeds and stops behind the request; the command has the
  -- name, the arguments and their number, and nothing in its spare slots.
  pub read_cmd_buffered :
      (rt : Runtime) (rd : IoReader) (cmd : Option (Command Ctx)) (name : Bytes) (xs : List Bytes)
      (b : BufioR rd.Src) (more : Bytes)
      → IsValid b
      → window b ≡ request name xs ++ more
      → IsRecyclable cmd
      → 24 * length xs ≤ rt.max_alloc
      → 0 < rt.rounds
      → (c : Command Ctx) × (read_cmd rt rd cmd b
          ≡ ok tt (c, advanced b (length (request name xs))))
        × (c.name ≡ name)
        × (args c ≡ xs)
        × (c.len ≡ length xs)
        × IsClean c
  unfolding read_cmd
  read_cmd_buffered rt rd cmd name xs b more v e h alloc fuel =
      let (c, runs, r) =
        read_command_buffered rt rd (rt.rounds - 1) name xs (recycled cmd) b more v e
          (recycled-empty cmd h) alloc in
      (
        c,
        ap (λ n. read_command rt rd (command_target rt rd) n (recycled cmd, b)) some_fuel ∙ runs,
        r.name_eq,
        r.args_eq,
        r.len_eq,
        r.clean,
      )
    where
      some_fuel : rt.rounds ≡ suc (rt.rounds - 1)
      some_fuel = omega arith

module _ (rt : Runtime) (rd : IoReader) where
  open rd use {Src}

  skip_bulks_buffered :
      (xs : List Bytes) (b : BufioR Src) (more : Bytes)
      → IsValid b
      → window b ≡ bulks xs ++ more
      → skip_bulks rt rd (length xs) b ≡ ok tt (advanced b (length (bulks xs)))
  unfolding skip_bulks
  skip_bulks_buffered [] b more v e = ap (λ n. ok tt (record b { r = n })) (omega arith)
  skip_bulks_buffered (x ∷ xs) b more v e =
      let split : window b ≡ bulk x ++ (bulks xs ++ more) =
        e ∙ append_assoc (bulk x) (bulks xs) more in
      and_then-ok _ (skip_bulk_buffered rt rd b x (bulks xs ++ more) v split) (
        skip_bulks_buffered xs (advanced b (length (bulk x))) more
          (advanced_append-IsValid b (bulk x) (bulks xs ++ more) v split)
          (window-advanced_append b (bulk x) (bulks xs ++ more) v split)
        ∙ ap (ok tt) (advanced_twice b (bulk x) (bulks xs)))

  -- the parts of a buffered request
  module _ (name : Bytes) (xs : List Bytes) (b : BufioR Src) (more : Bytes) (v : IsValid b)
      (e : window b ≡ request name xs ++ more) where
    abbrev count : ℕ
    count = suc (length xs)

    abbrev line : Bytes
    line = size_line b'*' count

    abbrev behind : Bytes
    behind = bulk name ++ (bulks xs ++ more)

    split : window b ≡ size_text b'*' count ++ (crlf ++ behind)
    split = e ∙ request-append name xs more

    split' : window b ≡ line ++ behind
    split' = split ∙ sym (append_assoc (size_text b'*' count) crlf behind)

    small : length xs + length name + 2 ≤ buf_limit
    small = omega (
      arith,
      le-length-request name xs,
      ap length e,
      length-append (request name xs) more,
      length-window b v,
      v.w-le-length,
      v.length-le,
    )

    -- If a valid reader holds the wire form of a request, with anything behind it, and there is
    -- fuel for one round, `SkipCmd` succeeds and stops exactly behind the request.
    pub skip_cmd_buffered :
        0 < rt.rounds → skip_cmd rt rd b ≡ ok tt (advanced b (length (request name xs)))
    unfolding skip_cmd skip_cmd_in
    skip_cmd_buffered fuel =
        ap (λ n. skip_cmd_in rt rd n b) some_fuel
        ∙ and_then-ok _ (peek_byte_buffered rt rd b v e) (
            and_then-ok _
              (read_array_len_buffered rt rd b count behind v split (omega (arith, small)))
              (rw (le→ltb_false count 1 (omega arith)) (
                skip_bulks_buffered (name ∷ xs) (advanced b (length line)) more
                  (advanced_append-IsValid b line behind v split')
                  (window-advanced_append b line behind v split'
                    ∙ sym (append_assoc (bulk name) (bulks xs) more))
                ∙ ap (ok tt) (
                    advanced_twice b line (bulks (name ∷ xs))
                    ∙ ap (λ l. advanced b (length l)) whole))))
      where
        some_fuel : rt.rounds ≡ suc (rt.rounds - 1)
        some_fuel = omega arith

        whole : line ++ bulks (name ∷ xs) ≡ request name xs
        whole = append_assoc (size_text b'*' count) crlf (bulks (name ∷ xs))

    abbrev name_line : Bytes
    name_line = size_line b'$' (length name)

    abbrev rest : Bytes
    rest = crlf ++ (bulks xs ++ more)

    at_bulk :
        drop (0 + length line) (window b) ≡ size_text b'$' (length name) ++ (crlf ++ (name ++ rest))
    at_bulk =
        ap (λ n. drop n (window b)) zero_add
        ∙ ap (drop (length line)) split'
        ∙ drop-append line behind
        ∙ bulk-append name (bulks xs ++ more)
      where
        zero_add : 0 + length line ≡ length line
        zero_add = omega arith

    -- behind both size lines
    at_name : drop (0 + length line + length name_line) (window b) ≡ name ++ rest
    at_name =
        sym (drop-drop (0 + length line) (length name_line) (window b))
        ∙ ap (drop (length name_line))
            (at_bulk ∙ sym (append_assoc (size_text b'$' (length name)) crlf (name ++ rest)))
        ∙ drop-append name_line (name ++ rest)

    peek_n_buffered : peek_n rt rd (0 + length line + length name_line) (length name) b ≡ ok name b
    unfolding peek_n
    peek_n_buffered =
        and_then-ok _
          (ap (λ n. require rt rd n b)
              (add64_pos offset (length name) (omega (arith, fits, small_window)))
            ∙ require_buffered rt rd b (offset + length name) v fits)
          (rw sliced)
      where
        offset : ℕ
        offset = 0 + length line + length name_line

        fits : offset + length name ≤ length (window b)
        fits =
            omega (arith, ap length at_name, length-drop offset (window b), length-append name rest)

        small_window : length (window b) ≤ buf_limit
        small_window = omega (arith, length-window b v, v.w-le-length, v.length-le)

        sliced : slice (b.r + offset) (b.r + offset + length name) b.buf ≡ some name
        sliced =
            slice-window b offset (length name) v fits
            ∙ ap some (ap (take (length name)) at_name ∙ take-append name rest)

    -- If a valid reader holds the wire form of a request, with anything behind it, and there is
    -- fuel for one round, `PeekCmd` returns the name of the request and leaves the reader as it
    -- was.
    pub peek_cmd_buffered : 0 < rt.rounds → peek_cmd rt rd b ≡ ok name b
    unfolding peek_cmd peek_cmd_at peek_name
    peek_cmd_buffered fuel =
        ap (λ n. peek_cmd_at rt rd n 0 b) some_fuel
        ∙ and_then-ok _
            (peek_line_buffered rt rd b 0 (size_text b'*' count) behind v split
              (size_text-Lacks b'*' count (omega arith)))
            (rw
              (
                parse_size-format_nat b'*' count invalid_multi_bulk_length (omega (arith, small)),
                le→ltb_false count 1 (omega arith),
              )
              (and_then-ok _
                (peek_line_buffered rt rd b (0 + length line) (size_text b'$' (length name))
                  (name ++ rest) v at_bulk (size_text-Lacks b'$' (length name) (omega arith)))
                (rw
                  (parse_size-format_nat b'$' (length name) invalid_bulk_length
                    (omega (arith, small)))
                  peek_n_buffered)))
      where
        some_fuel : rt.rounds ≡ suc (rt.rounds - 1)
        some_fuel = omega arith
