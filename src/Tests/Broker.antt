-- ===== src/Tests/Broker.antt =====
-- The theorems on the broker, at small inputs.
use redeo.Base.{
  ap, if◌then◌else◌, ◌==◌, ℕ, length, List, ◌≡◌, refl, none, some, [], ◌∷◌, ◌++◌, Bytes, codes, All,
}
use redeo.Base.Int.{ℤ, pos, add64}
use redeo.Monad.{ok}
use redeo.PubSub.Evict.{IsKeyed, Differs}
use redeo.PubSub.Subscribe.{confirmation, next_number, subscribe-publish_message}
use redeo.PubSub.{channel_or_new, subscribe}
use redeo.PubSub.Failing.{Delivery, publish_channel_evicts}
use redeo.Io.{IoWriter, Wrote}
use redeo.Errors.{eof}
use redeo.PubSub.Publish.{message, copies, repeat, Delivered, publish_message_delivers}
use redeo.PubSub.{
  Writers, publish_channel, PubSubBroker, PubSubChannel, find_channel, publish_message,
}
use redeo.Replies.{equal}
use redeo.Tests.{writer, writer-IsSink, writer-NeverFails, runtime, room_of}
use redeo.Writer.Flush.{output}

-- one channel, with two subscriptions of writer 4 and one of writer 7
abbrev news : PubSubChannel
news = record { subscribers = (pos 1, 4) ∷ (pos 2, 7) ∷ (pos 3, 4) ∷ []; next_id = pos 3 }

abbrev broker : PubSubBroker Bytes
broker = record { channels = (codes "news", news) ∷ []; writers = λ i. room_of [] }

news-found : find_channel (codes "news") broker.channels ≡ some news
unfolding find_channel equal
news-found = refl

publish_message_delivers_example :
    (b' : PubSubBroker Bytes) × (publish_message runtime writer (codes "news") (codes "hi") broker
      ≡ ok 3 b')
    × Delivered runtime writer writer-IsSink writer-NeverFails
        (codes "news")
        (codes "hi")
        news.subscribers
        broker.writers
        b'.writers
publish_message_delivers_example =
    publish_message_delivers runtime writer writer-IsSink writer-NeverFails (codes "news")
      (codes "hi") broker news news-found

-- a connection that takes one `Write` and then breaks
abbrev broken : Bytes → Bytes → Wrote Bytes
broken p [] = record { count = length p; error = none; next = p }
broken p (c ∷ s) = record { count = 0; error = some eof; next = c ∷ s }

abbrev breaking : IoWriter
breaking = record { Snk = Bytes; write = broken }

news-IsKeyed : IsKeyed news.subscribers
news-IsKeyed = ((cc, (cc, tt)), ((cc, tt), (tt, tt)))

publish_channel_evicts_example :
    (n : ℕ) × (kept : List (ℤ × ℕ)) × (ws' : Writers Bytes) × (publish_channel runtime breaking
        (codes "news")
        (codes "hi")
        news
        (λ i. room_of [])
      ≡ ok (n, record news { subscribers = kept }) ws')
    × Delivery breaking (codes "news") (codes "hi") news.subscribers (λ i. room_of []) n kept ws'
publish_channel_evicts_example =
    publish_channel_evicts runtime breaking (codes "news") (codes "hi") news (λ i. room_of [])
      news-IsKeyed

news-fresh : All (Differs (next_number news)) news.subscribers
unfolding add64
news-fresh = (cc, (cc, (cc, tt)))

subscribe-publish_message_example :
    (b' : PubSubBroker Bytes) × (publish_message runtime writer
        (codes "news")
        (codes "hi")
        (subscribe runtime (codes "news") 7 broker)
      ≡ ok 4 b')
    × ((j : ℕ)
        → output writer writer-IsSink (b'.writers j)
          ≡ ([] ++ (if j == 7 then confirmation (codes "news") else []))
            ++ repeat
                (copies j ((next_number news, 7) ∷ news.subscribers))
                (message (codes "news") (codes "hi")))
unfolding writer-IsSink
subscribe-publish_message_example =
    subscribe-publish_message runtime writer writer-IsSink writer-NeverFails (codes "news")
      (codes "hi") broker 7 news (ap channel_or_new news-found) news-fresh
