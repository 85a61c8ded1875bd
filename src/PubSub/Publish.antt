-- ===== src/PubSub/Publish.antt =====
-- pubsub.go: `PublishMessage` where no connection fails.
use redeo.Base.{
  ℕ, zero, suc, ◌+◌, ◌≡◌, refl, ap, sym, ◌∙◌, inl, inr, true, Bool, some, List, [], ◌∷◌, ◌++◌,
  Bytes, codes, arith, length, ◌==◌, if◌then◌else◌, append_assoc, append-nil, Bool-cases,
}
use redeo.Base.Int.{ℤ}
use redeo.Io.Sink.{IsSink, NeverFails}
use redeo.Io.{Runtime, IoWriter}
use redeo.Monad.{ok, and_then, and_then-ok}
use redeo.PubSub.{
  Writers, PubSubChannel, PubSubBroker, update, evict, find_channel, set_channel, append_message,
  publish_all, publish_channel, published, publish_of, publish_message,
}
use redeo.Wire.{size_line, bulk}
use redeo.Writer.Flush.{output, output-Appends, flush_ok}
use redeo.Writer.Output.{Appends, Appends-append, append_array_len-Appends, append_bulk-Appends}
use redeo.Writer.{BufioW, flush}

-- a published message on the wire
abbrev pub message : Bytes → Bytes → Bytes
message name msg = ((size_line b'*' 3 ++ bulk (codes "message")) ++ bulk name) ++ bulk msg

-- how many of the subscriptions write to `j`
abbrev pub copies : ℕ → List (ℤ × ℕ) → ℕ
copies j [] = 0
copies j ((_, i) ∷ subs) = if j == i then suc (copies j subs) else copies j subs

abbrev pub repeat : ℕ → Bytes → Bytes
repeat zero p = []
repeat (suc n) p = p ++ repeat n p

pub eq_of_test : (j i : ℕ) → (j == i) ≡ true → j ≡ i
eq_of_test j i h = ground arith

module _ (rt : Runtime) {Snk : Type 0} (name msg : Bytes) where
  pub append_message-Appends :
      (w : BufioW Snk) → Appends (message name msg) w (append_message rt name msg w)
  unfolding append_message
  append_message-Appends w =
      Appends-append ((size_line b'*' 3 ++ bulk (codes "message")) ++ bulk name) (bulk msg)
        (Appends-append (size_line b'*' 3 ++ bulk (codes "message")) (bulk name)
          (Appends-append (size_line b'*' 3) (bulk (codes "message"))
            (append_array_len-Appends rt 3 w) (append_bulk-Appends rt (codes "message") _))
          (append_bulk-Appends rt name _))
        (append_bulk-Appends rt msg _)

module _ (rt : Runtime) (wr : IoWriter) (sk : IsSink wr) (good : NeverFails wr)
    (name msg : Bytes) where
  open wr use {Snk}

  -- what reaches writer `j` when these subscriptions are served
  abbrev pub Delivered : List (ℤ × ℕ) → Writers Snk → Writers Snk → Type 0
  Delivered subs ws ws' =
      (j : ℕ)
      → output wr sk (ws' j) ≡ output wr sk (ws j) ++ repeat (copies j subs) (message name msg)

  publish_step :
      (sid : ℤ) (i : ℕ) (subs : List (ℤ × ℕ)) (ws : Writers Snk) (w : BufioW Snk)
      → flush wr (append_message rt name msg (ws i)) ≡ ok tt w
      → publish_all rt wr name msg ((sid, i) ∷ subs) ws
        ≡ and_then (publish_all rt wr name msg subs (update i w ws)) (λ r s. ok (r.0 + 1, r.1) s)
  unfolding publish_all
  publish_step sid i subs ws w h = rw (h, publish_all) refl

  Delivered-cons :
      (sid : ℤ) (i : ℕ) (subs : List (ℤ × ℕ)) (ws ws' : Writers Snk) (w : BufioW Snk)
      → output wr sk w ≡ output wr sk (ws i) ++ message name msg
      → Delivered subs (update i w ws) ws'
      → Delivered ((sid, i) ∷ subs) ws ws'
  Delivered-cons sid i subs ws ws' w sent d j = elim (Bool-cases (j == i)) [
    | inl same ↦
        d j
        ∙ ap (before (ws j)) same
        ∙ ap (λ l. l ++ repeat n m)
            (sent ∙ ap (λ k. output wr sk (ws k) ++ m) (sym (eq_of_test j i same)))
        ∙ append_assoc (output wr sk (ws j)) m (repeat n m)
        ∙ ap (behind (ws j)) (sym same)
    | inr other ↦ d j ∙ ap (before (ws j)) other ∙ ap (behind (ws j)) (sym other)
  ]
    where
      m : Bytes
      m = message name msg

      n : ℕ
      n = copies j subs

      before : BufioW Snk → Bool → Bytes
      before v z = output wr sk (if z then w else v) ++ repeat n m

      behind : BufioW Snk → Bool → Bytes
      behind v z = output wr sk v ++ repeat (if z then suc n else n) m

  -- one writer for each subscription
  publish_all-Delivered :
      (subs : List (ℤ × ℕ)) (ws : Writers Snk)
      → (ws' : Writers Snk) × (publish_all rt wr name msg subs ws ≡ ok (length subs, []) ws')
        × Delivered subs ws ws'
  unfolding publish_all
  publish_all-Delivered [] ws = (ws, refl, λ j. sym (append-nil (output wr sk (ws j))))
  publish_all-Delivered ((sid, i) ∷ subs) ws =
      let w₁ = append_message rt name msg (ws i) in
      let (w, runs, empty, sent, _) = flush_ok wr sk w₁ (good w₁.buf w₁.out) in
      let (ws', rest, d) = publish_all-Delivered subs (update i w ws) in
      (
        ws',
        publish_step sid i subs ws w runs
            ∙ and_then-ok _ rest (ap (λ n. ok (n, []) ws') (omega arith)),
        Delivered-cons sid i subs ws ws' w
            (ap (◌++◌ (sk.sent w.out)) empty
              ∙ append-nil (sk.sent w.out)
              ∙ sent
              ∙ output-Appends wr sk (message name msg) (append_message-Appends rt name msg (ws i)))
            d,
      )

  -- If the channel exists and the connections take all they are given, `PublishMessage` returns the
  -- number of its subscriptions, and every writer has got the message once for each of its
  -- subscriptions, behind all it had pending: a writer with no subscription gets nothing.
  pub publish_message_delivers :
      (b : PubSubBroker Snk) (c : PubSubChannel)
      → find_channel name b.channels ≡ some c
      → (b' : PubSubBroker Snk) × (publish_message rt wr name msg b ≡ ok (length c.subscribers) b')
        × Delivered c.subscribers b.writers b'.writers
  unfolding publish_message publish_of published publish_channel evict
  publish_message_delivers b c found =
      let (ws', runs, d) = publish_all-Delivered c.subscribers b.writers in
      (
        record { channels = set_channel name c b.channels; writers = ws' },
        ap (publish_of rt wr name msg b) found
            ∙ ap (published rt wr name b) (and_then-ok _ runs refl),
        d,
      )
