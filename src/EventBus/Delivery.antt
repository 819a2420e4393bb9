-- ===== src/EventBus/Delivery.antt =====
-- What the subscribers of app/streaming/event_bus.py receive.
use mathlib.Core.List.{append-nil, append_assoc}
use native.Mathlib.Decide.{dec_lt}
use prd2tsd.Prelude.{
  ℕ, zero, suc, ◌-◌, ◌≤◌, String, List, [], ◌∷◌, ◌++◌, ◌≡◌, ◌≢◌, refl, sym, ap, ◌∙◌, arith, length,
  take, ltb, ◌==◌, if◌then◌else◌, eq_iff, ◌=?◌, Bool-cases, inl, inr, length-append, text_same,
}
use prd2tsd.EventBus.{queue_maxsize, EventBus, put_nowait, put_all, subscribers, publish, subscribe}
use prd2tsd.EventBus.Valid.{IsValid, times, times-subscribe}

module _ {A : Type 0} where
  -- `publish` of each event to its channel, in their order.
  abbrev pub publish_all : List (String × A) → EventBus A → EventBus A
  publish_all [] bus = bus
  publish_all ((channel, event) ∷ events) bus = publish_all events (publish channel event bus)

  -- The events of one channel.
  abbrev pub events_of : String → List (String × A) → List A
  events_of channel [] = []
  events_of channel ((c, event) ∷ events) =
      let rest = events_of channel events in if c =? channel then event ∷ rest else rest

  absent :
      (event : A) (qs : List ℕ) (queues : ℕ → List A) (j : ℕ)
      → times j qs ≡ 0
      → put_all event qs queues j ≡ queues j
  unfolding put_all
  absent event [] queues j h = refl
  absent event (q ∷ qs) queues j h =
      absent event qs (put_nowait event q queues) j (ground (arith, h)) ∙ ground (arith, h)

  single :
      (event : A) (qs : List ℕ) (queues : ℕ → List A) (j : ℕ)
      → times j qs ≡ 1
      → put_all event qs queues j ≡ put_nowait event j queues j
  unfolding put_all
  single event [] queues j h = ground (arith, h)
  single event (q ∷ qs) queues j h = elim (Bool-cases (j == q)) [
    | inl here ↦
        absent event qs (put_nowait event q queues) j (ground (arith, h, here))
        ∙ ground (arith, here)
    | inr there ↦
        single event qs (put_nowait event q queues) j (ground (arith, h, there))
        ∙ ground (arith, there)
  ]

  -- What a bounded queue holds after it is given events.
  abbrev filled : List A → List A → List A
  filled xs [] = xs
  filled xs (e ∷ es) = filled (if ltb (length xs) queue_maxsize then xs ++ e ∷ [] else xs) es

  take_nil : (n : ℕ) → take {A = A} n [] ≡ []
  take_nil zero = refl
  take_nil (suc n) = refl

  filled-take :
      (xs es : List A)
      → length xs ≤ queue_maxsize
      → filled xs es ≡ xs ++ take (queue_maxsize - length xs) es
  filled-take xs [] h =
      sym (ap (λ ys. xs ++ ys) (take_nil (queue_maxsize - length xs)) ∙ append-nil xs)
  filled-take xs (e ∷ es) h = elim (dec_lt (length xs) queue_maxsize) [
    | yes room ↦
        let rest : filled (xs ++ e ∷ []) es
            ≡ (xs ++ e ∷ []) ++ take (queue_maxsize - length (xs ++ e ∷ [])) es =
          filled-take (xs ++ e ∷ []) es (omega (arith, room, length-append xs (e ∷ []))) in
        let left : queue_maxsize - length xs ≡ suc (queue_maxsize - length (xs ++ e ∷ [])) =
          omega (arith, room, length-append xs (e ∷ [])) in
        ground (arith, room)
        ∙ rest
        ∙ append_assoc xs (e ∷ []) (take (queue_maxsize - length (xs ++ e ∷ [])) es)
        ∙ ap (λ n. xs ++ take n (e ∷ es)) (sym left)
    | no full ↦
        let none_left : queue_maxsize - length xs ≡ 0 = omega (arith, full) in
        ground (arith, full)
        ∙ filled-take xs es h
        ∙ ap (λ n. xs ++ take n es) none_left
        ∙ ap (λ n. xs ++ take n (e ∷ es)) (sym none_left)
  ]

  put_own :
      (event : A) (q : ℕ) (queues : ℕ → List A)
      → put_nowait event q queues q
        ≡ (if ltb (length (queues q)) queue_maxsize then queues q ++ event ∷ [] else queues q)
  put_own event q queues = ground arith

  queue_number : (channel : String) (bus : EventBus A) → (subscribe channel bus).0 ≡ bus.next
  unfolding subscribe
  queue_number channel bus = refl

  new_queue : (channel : String) (bus : EventBus A) → (subscribe channel bus).1.queues bus.next ≡ []
  unfolding subscribe
  new_queue channel bus = ground arith

  delivered :
      (channel : String) (q : ℕ) (events : List (String × A)) (bus : EventBus A)
      → times q (subscribers channel bus) ≡ 1
      → ((d : String) → channel ≢ d → times q (subscribers d bus) ≡ 0)
      → (publish_all events bus).queues q ≡ filled (bus.queues q) (events_of channel events)
  unfolding publish
  delivered channel q [] bus one others = refl
  delivered channel q ((d, event) ∷ events) bus one others =
      delivered channel q events (publish d event bus) one others
      ∙ elim (Bool-cases (d =? channel)) [
        | inl same ↦
            let own : times q (subscribers d bus) ≡ 1 =
              ap (λ x. times q (subscribers x bus)) ((eq_iff d channel).0 same) ∙ one in
            ap (λ x. filled x (events_of channel events))
              (single event (subscribers d bus) bus.queues q own ∙ put_own event q bus.queues)
            ∙ ap
                (λ b.
                  filled (bus.queues q)
                    (if b then event ∷ events_of channel events else events_of channel events))
                (sym same)
        | inr differ ↦
            let other : channel ≢ d = λ e. ground (arith, differ, (eq_iff d channel).1 (sym e)) in
            ap (λ x. filled x (events_of channel events))
              (absent event (subscribers d bus) bus.queues q (others d other))
            ∙ ap
                (λ b.
                  filled (bus.queues q)
                    (if b then event ∷ events_of channel events else events_of channel events))
                (sym differ)
      ]

  -- A subscriber that consumes nothing receives of everything that is published after its
  -- subscription, to whatever channels, the first 128 events of its own channel, in their order; what
  -- comes when its queue is full is dropped.
  pub subscriber_receives :
      (channel : String) (events : List (String × A)) (bus : EventBus A)
      → IsValid bus
      → let (q, bus') = subscribe channel bus in
        (publish_all events bus').queues q ≡ take queue_maxsize (events_of channel events)
  subscriber_receives channel events bus v =
      let q : ℕ = bus.next in
      let bus' : EventBus A = (subscribe channel bus).1 in
      let one : times q (subscribers channel bus') ≡ 1 =
        ground
          (arith, times-subscribe channel channel q bus, v.fresh channel q, text_same channel) in
      let others : (d : String) → channel ≢ d → times q (subscribers d bus') ≡ 0 = λ d ne.
        ground (arith, times-subscribe channel d q bus, v.fresh d q, ne, (eq_iff channel d).0) in
      ap (publish_all events bus').queues (queue_number channel bus)
      ∙ delivered channel q events bus' one others
      ∙ ap (λ x. filled x (events_of channel events)) (new_queue channel bus)
      ∙ filled-take [] (events_of channel events) (omega arith)
