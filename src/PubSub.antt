-- ===== src/PubSub.antt =====
-- pubsub.go: the broker of channels. A subscriber is a response writer that its connection uses as
-- well, so the writers stand in a store, by number. Each loop of `Publish` goes over a Go map in any order; here it
-- is the order of the list. An operation is modelled as if no other one ran between its calls on a writer.
pub mod Publish
pub mod Evict
pub mod Failing
pub mod Subscribe
use redeo.Base.{
  ℕ, zero, suc, ◌+◌, Bool, true, false, ◌||◌, Option, none, some, List, [], ◌∷◌, Bytes, codes, ◌==◌,
  if◌then◌else◌, length,
}
use redeo.Base.Int.{ℤ, pos, negsuc, add64}
use redeo.Command
use redeo.Command.{Command}
use redeo.Errors.{Error}
use redeo.Handlers.{wrong_number_of_args, arg_string}
use redeo.Io.{Runtime, IoWriter}
use redeo.Monad.{Outcome, ok, err, panic, timeout, and_then}
use redeo.Replies.{equal}
use redeo.Writer.{BufioW, append_array_len, append_bulk, append_int, append_error, flush}

abbrev pub same_int : ℤ → ℤ → Bool
same_int (pos m) (pos n) = m == n
same_int (negsuc m) (negsuc n) = m == n
same_int (pos _) (negsuc _) = false
same_int (negsuc _) (pos _) = false

-- `pubSubChannel`: the map from a subscription to its writer, and the last number given
pub record PubSubChannel : Type 0 where
  pub subscribers : List (ℤ × ℕ)
  pub next_id : ℤ

abbrev pub Writers : Type 0 → Type 0
Writers Snk = ℕ → BufioW Snk

-- `PubSubBroker`, and the store of the writers
pub record PubSubBroker (Snk : Type 0) : Type 0 where
  pub channels : List (Bytes × PubSubChannel)
  pub writers : Writers Snk

abbrev pub update : {A : Type 0} → ℕ → A → (ℕ → A) → ℕ → A
update i x f j = if j == i then x else f j

unfoldable pub delete : ℤ → List (ℤ × ℕ) → List (ℤ × ℕ)
delete sid [] = []
delete sid ((k, w) ∷ subs) =
    let rest = delete sid subs in if same_int k sid then rest else (k, w) ∷ rest

-- `evict`
unfoldable pub evict : List ℤ → List (ℤ × ℕ) → List (ℤ × ℕ)
unfolding delete
evict [] subs = subs
evict (sid ∷ failed) subs = evict failed (delete sid subs)

-- `pubSubChannel.Subscribe`
unfoldable pub subscribe_channel : ℕ → PubSubChannel → PubSubChannel
unfolding delete
subscribe_channel w c =
    let sid = add64 c.next_id (pos 1) in
    record { subscribers = (sid, w) ∷ delete sid c.subscribers; next_id = sid }

abbrev pub new_channel : PubSubChannel
new_channel = record { subscribers = []; next_id = pos 0 }

-- the channel with this name, which is empty where there is none
abbrev pub channel_or_new : Option PubSubChannel → PubSubChannel
channel_or_new none = new_channel
channel_or_new (some c) = c

unfoldable pub find_channel : Bytes → List (Bytes × PubSubChannel) → Option PubSubChannel
find_channel name [] = none
find_channel name ((k, c) ∷ cs) =
    let rest = find_channel name cs in if equal k name then some c else rest

-- `b.channels[name] = ch`
unfoldable pub set_channel :
    Bytes → PubSubChannel → List (Bytes × PubSubChannel) → List (Bytes × PubSubChannel)
set_channel name c [] = (name, c) ∷ []
set_channel name c ((k, d) ∷ cs) =
    let rest = set_channel name c cs in if equal k name then (k, c) ∷ cs else (k, d) ∷ rest

module _ (rt : Runtime) {Snk : Type 0} where
  pub append_subscribed : Bytes → BufioW Snk → BufioW Snk
  append_subscribed name w =
      append_int rt (pos 1)
        (append_bulk rt name (append_bulk rt (codes "subscribe") (append_array_len rt (pos 3) w)))

  pub append_message : Bytes → Bytes → BufioW Snk → BufioW Snk
  append_message name msg w =
      append_bulk rt msg
        (append_bulk rt name (append_bulk rt (codes "message") (append_array_len rt (pos 3) w)))

  -- the broker's `subscribe`, by the connection with writer `w`
  unfoldable pub subscribe : Bytes → ℕ → PubSubBroker Snk → PubSubBroker Snk
  unfolding append_subscribed
  subscribe name w b =
      let ch = channel_or_new (find_channel name b.channels) in
      record {
        channels = set_channel name (subscribe_channel w ch) b.channels;
        writers = update w (append_subscribed name (b.writers w)) b.writers;
      }

  -- the handler of `Subscribe`
  unfoldable pub subscribe_handler :
      {Ctx : Type 0} → Command Ctx → ℕ → PubSubBroker Snk → PubSubBroker Snk
  subscribe_handler c w b =
      if Command.arg_n c == 1 then subscribe (arg_string c 0) w b else record b {
        writers = update w (append_error rt (wrong_number_of_args c.name) (b.writers w)) b.writers;
      }

module _ (rt : Runtime) (wr : IoWriter) where
  open wr use {Snk}

  -- The loop of `Publish`: the number of writers that took the message, and the subscriptions of those
  -- that did not.
  publish_all :
      Bytes → Bytes → List (ℤ × ℕ) → Writers Snk → Outcome Error (Writers Snk) (ℕ × List ℤ)
  unfolding append_message
  publish_all name msg [] ws = ok (0, []) ws
  publish_all name msg ((sid, i) ∷ subs) ws = elim (flush wr (append_message rt name msg (ws i))) [
    | ok _ w ↦ and_then (publish_all name msg subs (update i w ws)) (λ r s. ok (r.0 + 1, r.1) s)
    | err _ w ↦ and_then (publish_all name msg subs (update i w ws)) (λ r s. ok (r.0, sid ∷ r.1) s)
    | panic ↦ panic
    | timeout ↦ timeout
  ]

  -- `pubSubChannel.Publish`
  pub publish_channel :
      Bytes → Bytes → PubSubChannel → Writers Snk → Outcome Error (Writers Snk) (ℕ × PubSubChannel)
  unfolding publish_all
  publish_channel name msg c ws =
      and_then (publish_all name msg c.subscribers ws)
        (λ r s. ok (r.0, record c { subscribers = evict r.1 c.subscribers }) s)

  -- the channel as `Publish` leaves it
  published :
      Bytes
      → PubSubBroker Snk
      → Outcome Error (Writers Snk) (ℕ × PubSubChannel)
      → Outcome Error (PubSubBroker Snk) ℕ
  published name b (ok (n, c) ws) =
      ok n (record { channels = set_channel name c b.channels; writers = ws })
  published name b (err e ws) = err e (record b { writers = ws })
  published name b panic = panic
  published name b timeout = timeout

  publish_of :
      Bytes → Bytes → PubSubBroker Snk → Option PubSubChannel → Outcome Error (PubSubBroker Snk) ℕ
  unfolding publish_channel published
  publish_of name msg b none = ok 0 b
  publish_of name msg b (some c) = published name b (publish_channel name msg c b.writers)

  -- `PublishMessage`
  unfoldable pub publish_message :
      Bytes → Bytes → PubSubBroker Snk → Outcome Error (PubSubBroker Snk) ℕ
  unfolding publish_of
  publish_message name msg b = publish_of name msg b (find_channel name b.channels)

  -- the handler of `Publish`, called on the connection with writer `w`
  unfoldable pub publish_handler :
      {Ctx : Type 0}
      → Command Ctx
      → ℕ
      → PubSubBroker Snk
      → Outcome Error (PubSubBroker Snk) (Unit {0})
  publish_handler c w b =
      if Command.arg_n c == 2
      then and_then (publish_message (arg_string c 0) (arg_string c 1) b) (λ n s.
        ok tt (record s { writers = update w (append_int rt (pos n) (s.writers w)) s.writers }))
      else ok tt (record b {
        writers = update w (append_error rt (wrong_number_of_args c.name) (b.writers w)) b.writers;
      })
