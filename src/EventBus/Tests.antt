-- ===== src/EventBus/Tests.antt =====
-- A bus with one subscriber.
use prd2tsd.Prelude.{ℕ, String, List, [], ◌∷◌, ◌≡◌, refl, take}
use prd2tsd.Prelude.Dict.{lookup, insert, erase}
use prd2tsd.EventBus.{queue_maxsize, EventBus, init, subscribe, unsubscribe, channel_count}
use prd2tsd.EventBus.Valid.{IsValid, init-IsValid, subscribe-IsValid}
use prd2tsd.EventBus.Delivery.{publish_all, events_of, subscriber_receives}

abbrev one : EventBus ℕ
one = (subscribe "task:1" init).1

one-IsValid : IsValid one
one-IsValid = subscribe-IsValid "task:1" init init-IsValid

left_alone : channel_count (unsubscribe "task:1" 0 one) ≡ 0
unfolding channel_count unsubscribe subscribe lookup insert erase
left_alone = refl

abbrev events : List (String × ℕ)
events = ("task:1", 7) ∷ ("task:2", 8) ∷ ("task:1", 9) ∷ []

subscriber_receives_example :
    let (q, bus') = subscribe "task:1" one in
    (publish_all events bus').queues q ≡ take queue_maxsize (events_of "task:1" events)
subscriber_receives_example = subscriber_receives "task:1" events one one-IsValid

two_received : take queue_maxsize (events_of "task:1" events) ≡ 7 ∷ 9 ∷ []
two_received = refl
