-- ===== src/EventBus.antt =====
-- app/streaming/event_bus.py, `EventBus`: channels, and in each the queues of its subscribers. A
-- queue is an object of its own: it is named by a number, and a subscriber that has left keeps it.
-- Nothing is awaited between the lock of `publish` and its last `put_nowait`, so an operation is one
-- step.
pub mod Valid
pub mod Delivery
mod Tests
use prd2tsd.Prelude.{
  ℕ, ◌+◌, String, Option, none, some, Bool, true, false, not, List, [], ◌∷◌, ◌++◌, length, ltb,
  ◌==◌, any, keep_if, if◌then◌else◌,
}
use prd2tsd.Prelude.Dict.{Dict, lookup, insert, erase}

-- `_queue_maxsize`
abbrev pub queue_maxsize : ℕ
queue_maxsize = 128

-- `EventBus` with events of a type: `_channels`, a set being a list without repetition, the contents
-- of the queues, the oldest first, and the number of the next queue.
pub record EventBus (A : Type 0) : Type 0 where
  pub channels : Dict (List ℕ)
  pub queues : ℕ → List A
  pub next : ℕ

-- `self._channels.get(channel, set())`
abbrev pub subscribers_or : Option (List ℕ) → List ℕ
subscribers_or none = []
subscribers_or (some qs) = qs

drop_empty : String → List ℕ → Dict (List ℕ) → Dict (List ℕ)
drop_empty channel [] channels = erase channel channels
drop_empty channel (q ∷ qs) channels = insert channel (q ∷ qs) channels

discard : ℕ → List ℕ → List ℕ
discard q qs = keep_if (λ p. not (q == p)) qs

leave : String → ℕ → Option (List ℕ) → Dict (List ℕ) → Dict (List ℕ)
leave channel q none channels = channels
leave channel q (some qs) channels = drop_empty channel (discard q qs) channels

count_all : Dict (List ℕ) → ℕ
count_all [] = 0
count_all ((channel, qs) ∷ channels) = length qs + count_all channels

module _ {A : Type 0} where
  abbrev pub init : EventBus A
  init = record { channels = []; queues = λ q. []; next = 0 }

  -- `put_nowait`, which drops the event if the queue is full.
  abbrev pub put_nowait : A → ℕ → (ℕ → List A) → ℕ → List A
  put_nowait event q queues j =
      if q == j
      then (if ltb (length (queues j)) queue_maxsize then queues j ++ event ∷ [] else queues j)
      else queues j

  unfoldable pub put_all : A → List ℕ → (ℕ → List A) → ℕ → List A
  put_all event [] queues = queues
  put_all event (q ∷ qs) queues = put_all event qs (put_nowait event q queues)

  abbrev pub subscribers : String → EventBus A → List ℕ
  subscribers channel bus = subscribers_or (lookup channel bus.channels)

  -- `publish`
  unfoldable pub publish : String → A → EventBus A → EventBus A
  publish channel event bus = record bus {
    queues = put_all event (subscribers channel bus) bus.queues;
  }

  -- `subscribe`: a new queue, in the set of its channel.
  unfoldable pub subscribe : String → EventBus A → ℕ × EventBus A
  subscribe channel bus = (
    bus.next,
    record bus {
      channels = insert channel (bus.next ∷ subscribers channel bus) bus.channels;
      queues = λ j. if bus.next == j then [] else bus.queues j;
      next = bus.next + 1;
    },
  )

  -- `unsubscribe`
  unfoldable pub unsubscribe : String → ℕ → EventBus A → EventBus A
  unfolding leave drop_empty discard
  unsubscribe channel q bus = record bus {
    channels = leave channel q (lookup channel bus.channels) bus.channels;
  }

  rest_of : List A → List A
  rest_of [] = []
  rest_of (event ∷ events) = events

  head_of : List A → Option A
  head_of [] = none
  head_of (event ∷ events) = some event

  -- `queue.get()` by a consumer, where there is something to get.
  unfoldable pub get : ℕ → EventBus A → Option A × EventBus A
  unfolding rest_of head_of
  get q bus = (
    head_of (bus.queues q),
    record bus { queues = λ j. if q == j then rest_of (bus.queues j) else bus.queues j },
  )

  -- `channel_count`
  unfoldable pub channel_count : EventBus A → ℕ
  channel_count bus = length bus.channels

  -- `subscriber_count`
  unfoldable pub subscriber_count : EventBus A → ℕ
  unfolding count_all
  subscriber_count bus = count_all bus.channels
