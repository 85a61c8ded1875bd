-- ===== src/Command/Header.antt =====
-- The head of a buffered request, for any target of `readCommand`: the array's size and the name.
use redeo.Base.{
  ℕ, suc, ◌<◌, ◌≡◌, ap, sym, ◌∙◌, List, ◌++◌, Bytes, arith, length, length-append, append_assoc,
  le→ltb_false,
}
use redeo.Base.Int.{two63}
use redeo.Command.{beside, Target, read_command}
use redeo.Errors.{Error, crlf}
use redeo.Io.{Runtime, IoReader}
use redeo.Monad.{Outcome, ok, and_then-ok}
use redeo.Reader.Window.{
  IsValid, window, advanced, length-window, advanced_append-IsValid, window-advanced_append,
}
use redeo.Reader.{BufioR}
use redeo.Replies.Lines.{peek_byte_buffered}
use redeo.Replies.Bulk.{read_bulk_string_buffered, read_array_len_buffered}
use redeo.Wire.{size_text, size_line, bulk, bulks, request, request-append, length-le-length-bulks}

pub beside-ok :
    {C Src A : Type 0} (c : C) {o : Outcome Error (BufioR Src) A} {b : BufioR Src} {a : A}
    → o ≡ ok a b
    → beside c o ≡ ok a (c, b)
beside-ok c h = ap (beside c) h

-- reading on behind `xs`, then behind `ys`
pub advanced_twice :
    {Src : Type 0} (b : BufioR Src) (xs ys : Bytes)
    → advanced (advanced b (length xs)) (length ys) ≡ advanced b (length (xs ++ ys))
advanced_twice b xs ys = ap (λ n. record b { r = n }) (omega (arith, length-append xs ys))

-- the size line of the array
abbrev array_line : List Bytes → Bytes
array_line xs = size_line b'*' (suc (length xs))

module _ {Src : Type 0} (name : Bytes) (xs : List Bytes) (b : BufioR Src) where
  abbrev behind_line : BufioR Src
  behind_line = advanced b (length (array_line xs))

  -- the reader behind the name
  abbrev pub behind_name : BufioR Src
  behind_name = advanced behind_line (length (bulk name))

  module _ (more : Bytes) (v : IsValid b) (e : window b ≡ request name xs ++ more) where
    split :
        window b ≡ size_text b'*' (suc (length xs)) ++ (crlf ++ (bulk name ++ (bulks xs ++ more)))
    split = e ∙ request-append name xs more

    split_line : window b ≡ array_line xs ++ (bulk name ++ (bulks xs ++ more))
    split_line = split ∙ sym (append_assoc (size_text b'*' (suc (length xs))) crlf _)

    line-IsValid : IsValid behind_line
    line-IsValid = advanced_append-IsValid b (array_line xs) _ v split_line

    line-window : window behind_line ≡ bulk name ++ (bulks xs ++ more)
    line-window = window-advanced_append b (array_line xs) _ v split_line

  -- What the arguments are read from.
  pub record Arguments (more : Bytes) : Type 0 where
    pub valid : IsValid behind_name
    pub unread : window behind_name ≡ bulks xs ++ more
    pub end : advanced behind_name (length (bulks xs)) ≡ advanced b (length (request name xs))

  pub at-Arguments :
      (more : Bytes) → IsValid b → window b ≡ request name xs ++ more → Arguments more
  at-Arguments more v e = record {
    valid =
        advanced_append-IsValid behind_line (bulk name) _ (line-IsValid more v e)
          (line-window more v e);
    unread =
        window-advanced_append behind_line (bulk name) _ (line-IsValid more v e)
          (line-window more v e);
    end =
        ap (λ s. advanced s (length (bulks xs))) (advanced_twice b (array_line xs) (bulk name))
        ∙ advanced_twice b (array_line xs ++ bulk name) (bulks xs)
        ∙ ap (λ l. advanced b (length l)) whole;
  }
    where
      whole : (array_line xs ++ bulk name) ++ bulks xs ≡ request name xs
      whole = simp append_assoc

module _ {C : Type 0} (rt : Runtime) (rd : IoReader) (target : Target C rd.Src) where
  open rd use {Src}

  -- `readCommand` reads the size and the name, and leaves the arguments to the target.
  pub read_command-request :
      (f : ℕ) (name : Bytes) (xs : List Bytes) (c : C) (b : BufioR Src) (more : Bytes)
      → IsValid b
      → window b ≡ request name xs ++ more
      → read_command rt rd target (suc f) (c, b)
        ≡ target.on_multi_bulk name (length xs) (c, behind_name name xs b)
  unfolding read_command
  read_command-request f name xs c b more v e =
      and_then-ok _ (beside-ok c (peek_byte_buffered rt rd b v e)) (
        and_then-ok _
          (beside-ok c (
            read_array_len_buffered rt rd b (suc (length xs)) (bulk name ++ (bulks xs ++ more)) v
              (split name xs b more v e) small))
          (rw (le→ltb_false (suc (length xs)) 1 (omega arith)) (
            and_then-ok _
              (beside-ok c (
                read_bulk_string_buffered rt rd (behind_line name xs b) name (bulks xs ++ more)
                  (line-IsValid name xs b more v e) (line-window name xs b more v e)))
              (ap (λ n. target.on_multi_bulk name n (c, behind_name name xs b)) (omega arith)))))
    where
      a : Arguments name xs b more
      a = at-Arguments name xs b more v e

      small : suc (length xs) < two63
      small = omega (
        arith,
        length-le-length-bulks xs,
        ap length a.unread,
        length-append (bulks xs) more,
        length-window (behind_name name xs b) a.valid,
        a.valid.w-le-length,
        a.valid.length-le,
      )
