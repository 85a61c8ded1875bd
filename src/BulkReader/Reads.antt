-- ===== src/BulkReader/Reads.antt =====
-- resp/bufio.go: `Read` and `Close` of `bulkReader` on a bulk that is buffered.
use Prim.Native.Nat.{min}
use redeo.Base.{
  ℕ, zero, suc, ◌+◌, ◌-◌, ◌≤◌, ◌≡◌, refl, ap, sym, ◌∙◌, none, List, [], ◌∷◌, ◌++◌, Bytes, arith,
  length, take, length-append, length-take, length-drop, append_assoc,
}
use redeo.Base.Int.{pos, add64_pos}
use redeo.BulkReader.{
  BulkReader, ReadResult, finish_read, stream_bulk, at_end, read_of, read_bulk_part, skip_rest,
  close_of, close,
}
use redeo.Errors.{crlf}
use redeo.Io.{Runtime, IoReader}
use redeo.Monad.{ok, return, ◌>>=◌, and_then, and_then-ok}
use redeo.Reader.Require.{sub64-lt_one}
use redeo.Reader.Window.{
  buf_limit, IsValid, window, buffered-window, advanced, length-window, advanced-IsValid,
  window-advanced, advanced_append-IsValid, window-advanced_append,
}
use redeo.Reader.{BufioR, R}
use redeo.Replies.Bulk.{read_bulk_len_buffered}
use redeo.Replies.{skip_n}
use redeo.Wire.{size_text, size_line, bulk, bulk-append, length-bulk}
use redeo.BulkReader.Count.{not_zero, read_buffered}

abbrev bytes_left : ℕ → BulkReader
bytes_left n = record { n = pos n }

module _ (rt : Runtime) (rd : IoReader) where
  open rd use {Src}

  -- Any number of calls of `Read`, one after the other, on slices of these lengths.
  abbrev pub reads : List ℕ → BulkReader → R Src BulkReader
  reads [] br = return br
  reads (room ∷ rooms) br = do res ← read_bulk_part rt rd br room; reads rooms res.next

  skip_n_buffered :
      (b : BufioR Src) (n : ℕ)
      → IsValid b
      → n ≤ length (window b)
      → skip_n rt rd (pos n) b ≡ ok tt (advanced b n)
  unfolding skip_n
  skip_n_buffered b n v h =
      rw
        (
          buffered-window b v,
          sub64-lt_one n (length (window b)) h
              (omega (arith, length-window b v, v.length-le, v.w-le-length)),
        )
        refl

  skip_rest_buffered :
      (b : BufioR Src) (n : ℕ)
      → IsValid b
      → n ≤ length (window b)
      → skip_rest rt rd n b ≡ ok (record { n = pos 0 }) (advanced b n)
  unfolding skip_rest
  skip_rest_buffered b n v h = rw (skip_n_buffered b n v h, skip_rest) refl

  pub close_buffered :
      (b : BufioR Src) (left : ℕ)
      → IsValid b
      → left ≤ length (window b)
      → close rt rd (record { n = pos left }) b ≡ ok (record { n = pos 0 }) (advanced b left)
  unfolding close close_of
  close_buffered b zero v h = ap (λ n. ok (record { n = pos 0 }) (record b { r = n })) (omega arith)
  close_buffered b (suc left) v h =
      rw (not_zero (suc left) (omega arith)) (skip_rest_buffered b (suc left) v h)

  -- a `Read` of a bulk whose rest is buffered
  read_step :
      (b : BufioR Src) (left room : ℕ)
      → IsValid b
      → left ≤ length (window b)
      → (res : ReadResult) × (read_bulk_part rt rd (record { n = pos left }) room b
          ≡ ok res (advanced b (min left room)))
        × (res.next ≡ record { n = pos (left - min left room) })
  read_step b zero room v h = (
    at_end rt rd (record { n = pos 0 }),
    unfold read_bulk_part read_of in
        ap (λ n. ok (at_end rt rd (record { n = pos 0 })) (record b { r = n })) (omega arith),
    unfold at_end in ap bytes_left (omega arith),
  )
  read_step b (suc left) room v h =
      let p = take (min (suc left) room) (window b) in
      (
        finish_read (suc left) p none,
        read_buffered rt rd b (suc left) room v (omega arith) (omega arith)
            ∙ ap (λ n. ok (finish_read (suc left) p none) (advanced b n)) (omega arith),
        unfold finish_read in
            ap (λ n. bytes_left (suc left - n))
              (omega (arith, length-take (min (suc left) room) (window b))),
      )

  -- reads of a bulk whose rest is buffered, and the close behind them
  reads-close :
      (rooms : List ℕ) (b : BufioR Src) (left : ℕ)
      → IsValid b
      → left ≤ length (window b)
      → and_then (reads rooms (record { n = pos left }) b) (close rt rd)
        ≡ ok (record { n = pos 0 }) (advanced b left)
  reads-close [] b left v h = close_buffered b left v h
  reads-close (room ∷ rooms) b left v h =
      let k = min left room in
      let (res, runs, next) = read_step b left room v h in
      ap (λ o. and_then o (close rt rd)) (and_then-ok _ runs refl)
      ∙ ap (λ br. and_then (reads rooms br (advanced b k)) (close rt rd)) next
      ∙ reads-close rooms (advanced b k) (left - k) (advanced-IsValid b k v (omega arith))
          (omega (arith, ap length (window-advanced b k v), length-drop k (window b)))
      ∙ ap (λ n. ok (record { n = pos 0 }) (record b { r = n })) (omega arith)

  -- If a valid reader holds a whole bulk, with anything behind it, then `StreamBulk`, any number of
  -- `Read` calls on slices of any lengths, and `Close` leave it exactly behind the bulk, with
  -- nothing left of the bulk, wherever the reads stopped.
  pub stream_bulk-close :
      (rooms : List ℕ) (b : BufioR Src) (body more : Bytes)
      → IsValid b
      → window b ≡ bulk body ++ more
      → and_then (stream_bulk rt rd b) (λ br s. and_then (reads rooms br s) (close rt rd))
        ≡ ok (record { n = pos 0 }) (advanced b (length (bulk body)))
  unfolding stream_bulk
  stream_bulk-close rooms b body more v e =
      and_then-ok _
        (and_then-ok _
          (read_bulk_len_buffered rt rd b (length body) (body ++ (crlf ++ more)) v
            (e ∙ bulk-append body more) (omega (arith, small)))
          refl)
        (ap (λ z. and_then (reads rooms (record { n = z }) b₁) (close rt rd))
            (add64_pos (length body) 2 (omega (arith, small)))
          ∙ reads-close rooms b₁ (length body + 2) v₁ enough
          ∙ ap (λ n. ok (record { n = pos 0 }) (record b { r = n }))
              (omega (arith, length-bulk body)))
    where
      line : Bytes
      line = size_line b'$' (length body)

      split : window b ≡ line ++ (body ++ (crlf ++ more))
      split = e ∙ bulk-append body more ∙ sym (append_assoc (size_text b'$' (length body)) crlf _)

      b₁ : BufioR Src
      b₁ = advanced b (length line)

      v₁ : IsValid b₁
      v₁ = advanced_append-IsValid b line (body ++ (crlf ++ more)) v split

      enough : length body + 2 ≤ length (window b₁)
      enough = omega (
        arith,
        ap length (window-advanced_append b line (body ++ (crlf ++ more)) v split),
        length-append body (crlf ++ more),
      )

      small : length body + 2 ≤ buf_limit
      small = omega (arith, enough, length-window b₁ v₁, v₁.length-le, v₁.w-le-length)
