-- ===== src/PubSub/Failing.antt =====
-- pubsub.go: `Publish` of a channel, whatever the connections do.
use redeo.Base.{
  ℕ, ◌+◌, ◌≡◌, ◌≢◌, refl, ap, sym, ◌∙◌, inl, inr, none, some, Option-cases, List, [], ◌∷◌, ◌++◌,
  Bytes, arith, All, length, length-append,
}
use redeo.Base.Int.{ℤ}
use redeo.Errors.{Error}
use redeo.Io.{Runtime, IoWriter}
use redeo.Monad.{ok, err, and_then, and_then-ok}
use redeo.PubSub.Evict.{IsKeyed, delete_first, evict_behind}
use redeo.PubSub.Publish.{message, append_message-Appends}
use redeo.PubSub.{
  Writers, PubSubChannel, update, evict, append_message, publish_all, publish_channel,
}
use redeo.Writer.Flush.{flush_taken, flush_refused}
use redeo.Writer.{BufioW, flush, emptied}

module _ (wr : IoWriter) (name msg : Bytes) where
  open wr use {Snk, write}

  -- What the writer hands to its connection: all that is pending, then the message.
  abbrev pub handed : BufioW Snk → Bytes
  handed w = w.buf ++ message name msg

  -- A message to these subscriptions, one after the other: how many connections took what they were
  -- handed, the subscriptions of those, in order, and the writers after that. One that refused it
  -- keeps it pending. Two subscriptions can have the same writer.
  pub data Delivery : List (ℤ × ℕ) → Writers Snk → ℕ → List (ℤ × ℕ) → Writers Snk → Type 0 where
    done : (ws : Writers Snk) → Delivery [] ws 0 [] ws
    taken :
        {subs kept : List (ℤ × ℕ)} {ws ws' : Writers Snk} {n : ℕ} (sid : ℤ) (i : ℕ) (w : BufioW Snk)
        → (write (handed (ws i)) (ws i).out).error ≡ none
        → w.buf ≡ []
        → w.out ≡ (write (handed (ws i)) (ws i).out).next
        → Delivery subs (update i w ws) n kept ws'
        → Delivery ((sid, i) ∷ subs) ws (n + 1) ((sid, i) ∷ kept) ws'
    refused :
        {subs kept : List (ℤ × ℕ)} {ws ws' : Writers Snk} {n : ℕ} (sid : ℤ) (i : ℕ) (w : BufioW Snk)
        {e : Error}
        → (write (handed (ws i)) (ws i).out).error ≡ some e
        → w.buf ≡ handed (ws i)
        → w.out ≡ (write (handed (ws i)) (ws i).out).next
        → Delivery subs (update i w ws) n kept ws'
        → Delivery ((sid, i) ∷ subs) ws n kept ws'

  not_nothing : (w : BufioW Snk) → handed w ≢ []
  not_nothing w h = omega (arith, ap length h, length-append w.buf (message name msg))

module _ (rt : Runtime) (wr : IoWriter) (name msg : Bytes) where
  open wr use {Snk, write}

  -- the writer with the message behind what it had pending
  appended : BufioW Snk → BufioW Snk
  appended w = append_message rt name msg w

  -- What it hands to the connection is what is described above.
  written :
      (w : BufioW Snk)
      → write (appended w).buf (appended w).out ≡ write (handed wr name msg w) w.out
  unfolding appended
  written w =
      let a = append_message-Appends rt name msg w in
      ap (λ p. write p (appended w).out) a.buf_eq ∙ ap (write (handed wr name msg w)) a.out_eq

  appended_buf : (w : BufioW Snk) → (appended w).buf ≡ handed wr name msg w
  unfolding appended
  appended_buf w = (append_message-Appends rt name msg w).buf_eq

  pending : (w : BufioW Snk) → (appended w).buf ≢ []
  unfolding appended
  pending w h = not_nothing wr name msg w (sym (append_message-Appends rt name msg w).buf_eq ∙ h)

  step_ok :
      (sid : ℤ) (i : ℕ) (subs : List (ℤ × ℕ)) (ws : Writers Snk) (w : BufioW Snk)
      → flush wr (appended (ws i)) ≡ ok tt w
      → publish_all rt wr name msg ((sid, i) ∷ subs) ws
        ≡ and_then (publish_all rt wr name msg subs (update i w ws)) (λ r s. ok (r.0 + 1, r.1) s)
  unfolding publish_all appended
  step_ok sid i subs ws w h = rw (h, publish_all) refl

  step_err :
      (sid : ℤ) (i : ℕ) (subs : List (ℤ × ℕ)) (ws : Writers Snk) {e : Error} (w : BufioW Snk)
      → flush wr (appended (ws i)) ≡ err e w
      → publish_all rt wr name msg ((sid, i) ∷ subs) ws
        ≡ and_then (publish_all rt wr name msg subs (update i w ws)) (λ r s. ok (r.0, sid ∷ r.1) s)
  unfolding publish_all appended
  step_err sid i subs ws w h = rw (h, publish_all) refl

  -- The loop: who is told to go, and who stays.
  abbrev Looped : List (ℤ × ℕ) → Writers Snk → Type 1
  Looped subs ws =
      (n : ℕ) × (failed : List ℤ) × (kept : List (ℤ × ℕ)) × (ws' : Writers Snk) × (publish_all rt wr
          name msg subs ws
        ≡ ok (n, failed) ws')
      × Delivery wr name msg subs ws n kept ws'
      × (evict failed subs ≡ kept)
      × ((P : ℤ → Type 0) → All (λ sub. P sub.0) subs → All P failed)

  publish_all-Delivery : (subs : List (ℤ × ℕ)) (ws : Writers Snk) → IsKeyed subs → Looped subs ws
  unfolding publish_all evict
  publish_all-Delivery [] ws keyed = (0, [], [], ws, refl, done ws, refl, λ P h. tt)
  publish_all-Delivery ((sid, i) ∷ subs) ws (ne, keyed) =
      elim (Option-cases (write (handed wr name msg (ws i)) (ws i).out).error) [
        | inl fine ↦
            let w =
              emptied (write (appended (ws i)).buf (appended (ws i)).out).next (appended (ws i)) in
            let (n, failed, kept, ws', runs, d, stay, among) =
              publish_all-Delivery subs (update i w ws) keyed in
            (
              n + 1,
              failed,
              (sid, i) ∷ kept,
              ws',
              step_ok sid i subs ws w (
                    flush_taken wr (appended (ws i)) (pending (ws i))
                      (ap (λ r. r.error) (written (ws i)) ∙ fine))
                  ∙ and_then-ok _ runs refl,
              taken sid i w fine refl (ap (λ r. r.next) (written (ws i))) d,
              evict_behind sid i failed subs (among (λ k. k ≢ sid) ne) ∙ ap (◌∷◌ (sid, i)) stay,
              λ P h. among P h.1,
            )
        | inr (e, bad) ↦
            let w = record (appended (ws i)) {
              out = (write (appended (ws i)).buf (appended (ws i)).out).next;
            } in
            let (n, failed, kept, ws', runs, d, stay, among) =
              publish_all-Delivery subs (update i w ws) keyed in
            (
              n,
              sid ∷ failed,
              kept,
              ws',
              step_err sid i subs ws w (
                    flush_refused wr (appended (ws i)) (pending (ws i))
                      (ap (λ r. r.error) (written (ws i)) ∙ bad))
                  ∙ and_then-ok _ runs refl,
              refused sid i w bad (appended_buf (ws i)) (ap (λ r. r.next) (written (ws i))) d,
              ap (evict failed) (delete_first sid i subs ne) ∙ stay,
              λ P h. (h.0, among P h.1),
            )
      ]

  -- Let no two subscriptions of the channel have the same number, as in a map. Whatever the
  -- connections do, `Publish` on the channel returns. Every subscription, in order, has its writer
  -- hand all that is pending and then the message to the connection. If the connection returns no
  -- error, the writer has nothing pending, and the subscription is counted and kept; if it returns
  -- one, the bytes stay pending, and the subscription is not counted and is gone from the channel.
  -- Nothing else goes or stays. A later subscription of the same writer finds it as the earlier one
  -- left it.
  pub publish_channel_evicts :
      (c : PubSubChannel) (ws : Writers Snk)
      → IsKeyed c.subscribers
      → (n : ℕ) × (kept : List (ℤ × ℕ)) × (ws' : Writers Snk) × (publish_channel rt wr name msg c ws
          ≡ ok (n, record c { subscribers = kept }) ws')
        × Delivery wr name msg c.subscribers ws n kept ws'
  unfolding publish_channel
  publish_channel_evicts c ws keyed =
      let (n, failed, kept, ws', runs, d, stay, _) = publish_all-Delivery c.subscribers ws keyed in
      (
        n,
        kept,
        ws',
        and_then-ok _ runs (ap (λ l. ok (n, record c { subscribers = l }) ws') stay),
        d,
      )
