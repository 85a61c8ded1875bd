-- ===== src/PubSub/Subscribe.antt =====
-- pubsub.go: `Subscribe`, and a message behind it.
use redeo.Base.{
  ℕ, suc, ◌≡◌, refl, ap, sym, ◌∙◌, inl, inr, some, List, [], ◌∷◌, ◌++◌, Bytes, codes, All, ◌==◌,
  Bool-cases, if◌then◌else◌, length, append-nil,
}
use redeo.Base.Int.{ℤ, pos, add64}
use redeo.Decimal.{format_int}
use redeo.Errors.{crlf}
use redeo.Io.Sink.{IsSink, NeverFails}
use redeo.Io.{Runtime, IoWriter}
use redeo.Monad.{ok}
use redeo.PubSub.Evict.{Differs, delete_none}
use redeo.PubSub.Publish.{message, copies, repeat, publish_message_delivers, eq_of_test}
use redeo.PubSub.{
  PubSubChannel, PubSubBroker, channel_or_new, subscribe_channel, find_channel, set_channel,
  append_subscribed, subscribe, publish_message,
}
use redeo.Replies.Equal.{equal_self}
use redeo.Replies.{equal}
use redeo.Wire.{size_line, bulk}
use redeo.Writer.Flush.{output, output-Appends}
use redeo.Writer.Output.{
  Appends, Appends-append, append_array_len-Appends, append_bulk-Appends, append_int-Appends,
}
use redeo.Writer.{BufioW}

-- the reply to a subscription on the wire
abbrev pub confirmation : Bytes → Bytes
confirmation name =
    ((size_line b'*' 3 ++ bulk (codes "subscribe")) ++ bulk name)
    ++ (b':' ∷ format_int (pos 1) ++ crlf)

abbrev pub next_number : PubSubChannel → ℤ
next_number c = add64 c.next_id (pos 1)

find_channel-set_channel :
    (name : Bytes) (c : PubSubChannel) (cs : List (Bytes × PubSubChannel))
    → find_channel name (set_channel name c cs) ≡ some c
unfolding find_channel set_channel
find_channel-set_channel name c [] = rw (equal_self name) refl
find_channel-set_channel name c ((k, d) ∷ cs) = elim (Bool-cases (equal k name)) [
  | inl same ↦ rw same (rw same refl)
  | inr other ↦ rw other (rw other (find_channel-set_channel name c cs))
]

module _ (rt : Runtime) {Snk : Type 0} (name : Bytes) where
  append_subscribed-Appends :
      (w : BufioW Snk) → Appends (confirmation name) w (append_subscribed rt name w)
  unfolding append_subscribed
  append_subscribed-Appends w =
      Appends-append ((size_line b'*' 3 ++ bulk (codes "subscribe")) ++ bulk name)
        (b':' ∷ format_int (pos 1) ++ crlf)
        (Appends-append (size_line b'*' 3 ++ bulk (codes "subscribe")) (bulk name)
          (Appends-append (size_line b'*' 3) (bulk (codes "subscribe"))
            (append_array_len-Appends rt 3 w) (append_bulk-Appends rt (codes "subscribe") _))
          (append_bulk-Appends rt name _))
        (append_int-Appends rt (pos 1) _)

  subscribed_channel :
      (w : ℕ) (b : PubSubBroker Snk)
      → find_channel name (subscribe rt name w b).channels
        ≡ some (subscribe_channel w (channel_or_new (find_channel name b.channels)))
  unfolding subscribe
  subscribed_channel w b = find_channel-set_channel name _ b.channels

module _ (rt : Runtime) (wr : IoWriter) (sk : IsSink wr) (good : NeverFails wr)
    (name msg : Bytes) where
  open wr use {Snk}

  confirmed :
      (w j : ℕ) (b : PubSubBroker Snk)
      → output wr sk ((subscribe rt name w b).writers j)
        ≡ output wr sk (b.writers j) ++ (if j == w then confirmation name else [])
  unfolding subscribe
  confirmed w j b = elim (Bool-cases (j == w)) [
    | inl same ↦ rw same (
        output-Appends wr sk (confirmation name) (append_subscribed-Appends rt name (b.writers w))
        ∙ ap (λ k. output wr sk (b.writers k) ++ confirmation name) (sym (eq_of_test j w same)))
    | inr other ↦ rw other (sym (append-nil (output wr sk (b.writers j))))
  ]

  -- Let the connections take all they are given, let `c` be the channel with this name, or an empty
  -- one if there is none, and let the next number of `c` be that of none of its subscriptions.
  -- Then, after the connection with writer `w` has subscribed, `PublishMessage` returns one more
  -- than the number of subscriptions of `c`; every writer has got the message once for each of its
  -- subscriptions, the new one included, and `w` the confirmation in front of that, behind all they
  -- had pending.
  pub subscribe-publish_message :
      (b : PubSubBroker Snk) (w : ℕ) (c : PubSubChannel)
      → channel_or_new (find_channel name b.channels) ≡ c
      → All (Differs (next_number c)) c.subscribers
      → (b' : PubSubBroker Snk) × (publish_message rt wr name msg (subscribe rt name w b)
          ≡ ok (suc (length c.subscribers)) b')
        × ((j : ℕ)
            → output wr sk (b'.writers j)
              ≡ (output wr sk (b.writers j) ++ (if j == w then confirmation name else []))
                ++ repeat (copies j ((next_number c, w) ∷ c.subscribers)) (message name msg))
  unfolding subscribe_channel
  subscribe-publish_message b w c found fresh =
      let subs = (next_number c, w) ∷ c.subscribers in
      let c' : PubSubChannel = record { subscribers = subs; next_id = next_number c } in
      let (b', runs, d) =
        publish_message_delivers rt wr sk good name msg (subscribe rt name w b) c' (
          subscribed_channel rt name w b
          ∙ ap (λ k. some (subscribe_channel w k)) found
          ∙ ap
              (λ l. some (record { subscribers = (next_number c, w) ∷ l; next_id = next_number c }))
              (delete_none (next_number c) c.subscribers fresh)) in
      (
        b',
        runs,
        λ j. d j ∙ ap (λ o. o ++ repeat (copies j subs) (message name msg)) (confirmed w j b),
      )
