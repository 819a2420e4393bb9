-- ===== src/EventBus/Valid.antt =====
-- The well-formed states of app/streaming/event_bus.py, and that every operation keeps them.
use prd2tsd.Prelude.{
  ℕ, suc, ◌+◌, ◌≤◌, String, Option, none, some, Bool, List, [], ◌∷◌, ◌≡◌, ◌≢◌, refl, sym, ap, ◌∙◌,
  arith, length, ◌==◌, any, if◌then◌else◌, eq_iff, Option-cases, inl, inr, Bool-cases, ◌=?◌,
  length-append,
}
use prd2tsd.Prelude.Dict.{Dict, lookup, lookup-insert, lookup-erase}
use prd2tsd.EventBus.{
  queue_maxsize, EventBus, init, put_nowait, put_all, subscribers_or, subscribers, publish,
  subscribe, drop_empty, discard, leave, unsubscribe, rest_of, get,
}

abbrev pub is_in : ℕ → List ℕ → Bool
is_in q qs = any (λ p. q == p) qs

-- How often a queue stands in a list.
abbrev pub times : ℕ → List ℕ → ℕ
times q [] = 0
times q (p ∷ qs) = let rest = times q qs in if q == p then suc rest else rest

discard-times : (p q : ℕ) (qs : List ℕ) → times p (discard q qs) ≤ times p qs
unfolding discard
discard-times p q [] = omega arith
discard-times p q (r ∷ qs) = ground (arith, discard-times p q qs)

-- The entry of a channel for its subscribers.
abbrev nonempty : List ℕ → Option (List ℕ)
nonempty [] = none
nonempty (q ∷ qs) = some (q ∷ qs)

times-nonempty : (p : ℕ) (qs : List ℕ) → times p (subscribers_or (nonempty qs)) ≡ times p qs
times-nonempty p [] = refl
times-nonempty p (q ∷ qs) = refl

nonempty-some : (qs : List ℕ) → nonempty qs ≢ some []
nonempty-some [] e = ground (arith, e)
nonempty-some (q ∷ qs) e = ground (arith, e)

lookup-drop_empty :
    (channel c : String) (qs : List ℕ) (d : Dict (List ℕ))
    → lookup c (drop_empty channel qs d) ≡ (if channel =? c then nonempty qs else lookup c d)
unfolding drop_empty
lookup-drop_empty channel c [] d = lookup-erase channel c d
lookup-drop_empty channel c (q ∷ qs) d = lookup-insert channel c (q ∷ qs) d

lookup-leave :
    (channel c : String) (q : ℕ) (qs : List ℕ) (d : Dict (List ℕ))
    → lookup channel d ≡ some qs
    → lookup c (leave channel q (lookup channel d) d)
      ≡ (if channel =? c then nonempty (discard q qs) else lookup c d)
unfolding leave
lookup-leave channel c q qs d found =
    ap (λ o. lookup c (leave channel q o d)) found ∙ lookup-drop_empty channel c (discard q qs) d

leave_missing :
    (channel : String) (q : ℕ) (d : Dict (List ℕ))
    → lookup channel d ≡ none
    → leave channel q (lookup channel d) d ≡ d
unfolding leave
leave_missing channel q d missing = ap (λ o. leave channel q o d) missing

times-leave :
    (channel c : String) (p q : ℕ) (d : Dict (List ℕ))
    → times p (subscribers_or (lookup c (leave channel q (lookup channel d) d)))
      ≤ times p (subscribers_or (lookup c d))
times-leave channel c p q d = elim (Option-cases (lookup channel d)) [
  | inl missing ↦
      omega
        (arith, ap (λ x. times p (subscribers_or (lookup c x))) (leave_missing channel q d missing))
  | inr (qs, found) ↦ elim (Bool-cases (channel =? c)) [
    | inl same ↦
        let here : lookup c d ≡ some qs =
          ap (λ x. lookup x d) (sym ((eq_iff channel c).0 same)) ∙ found in
        let now : lookup c (leave channel q (lookup channel d) d) ≡ nonempty (discard q qs) =
          lookup-leave channel c q qs d found
          ∙ ap (λ b. if b then nonempty (discard q qs) else lookup c d) same in
        omega (
          arith,
          ap (λ o. times p (subscribers_or o)) now,
          ap (λ o. times p (subscribers_or o)) here,
          times-nonempty p (discard q qs),
          discard-times p q qs,
        )
    | inr differ ↦
        let now : lookup c (leave channel q (lookup channel d) d) ≡ lookup c d =
          lookup-leave channel c q qs d found
          ∙ ap (λ b. if b then nonempty (discard q qs) else lookup c d) differ in
        omega (arith, ap (λ o. times p (subscribers_or o)) now)
  ]
]

leave_inhabited :
    (channel c : String) (q : ℕ) (d : Dict (List ℕ))
    → lookup c d ≢ some []
    → lookup c (leave channel q (lookup channel d) d) ≢ some []
leave_inhabited channel c q d h e = elim (Option-cases (lookup channel d)) [
  | inl missing ↦ h (sym (ap (lookup c) (leave_missing channel q d missing)) ∙ e)
  | inr (qs, found) ↦
      ground (arith, lookup-leave channel c q qs d found, e, h, nonempty-some (discard q qs))
]

module _ {A : Type 0} where
  -- No queue is over its size; a queue stands at most once in a channel, in one channel at most, and
  -- no number to come stands in any; and no channel is kept without subscribers.
  pub record IsValid (bus : EventBus A) : Type 0 where
    pub bounded : (q : ℕ) → length (bus.queues q) ≤ queue_maxsize
    pub once : (channel : String) (q : ℕ) → times q (subscribers channel bus) ≤ 1
    pub apart :
        (c d : String) (q : ℕ)
        → c ≢ d
        → times q (subscribers c bus) + times q (subscribers d bus) ≤ 1
    pub fresh : (channel : String) (q : ℕ) → bus.next ≤ q → times q (subscribers channel bus) ≡ 0
    pub inhabited : (channel : String) → lookup channel bus.channels ≢ some []

  put-bounded :
      (event : A) (q : ℕ) (queues : ℕ → List A) (j : ℕ)
      → length (queues j) ≤ queue_maxsize
      → length (put_nowait event q queues j) ≤ queue_maxsize
  put-bounded event q queues j h = ground (arith, length-append (queues j) (event ∷ []))

  put_all-bounded :
      (event : A) (qs : List ℕ) (queues : ℕ → List A)
      → ((j : ℕ) → length (queues j) ≤ queue_maxsize)
      → (j : ℕ) → length (put_all event qs queues j) ≤ queue_maxsize
  unfolding put_all
  put_all-bounded event [] queues h j = h j
  put_all-bounded event (q ∷ qs) queues h j =
      put_all-bounded event qs (put_nowait event q queues) (λ i. put-bounded event q queues i (h i))
        j

  pub init-IsValid : IsValid (init {A = A})
  unfolding lookup
  init-IsValid = record {
    bounded = λ q. omega arith;
    once = λ channel q. omega arith;
    apart = λ c d q ne. omega arith;
    fresh = λ channel q le. refl;
    inhabited = λ channel e. ground (arith, e);
  }

  pub publish-IsValid :
      (channel : String) (event : A) (bus : EventBus A)
      → IsValid bus
      → IsValid (publish channel event bus)
  unfolding publish
  publish-IsValid channel event bus v = record {
    bounded = put_all-bounded event (subscribers channel bus) bus.queues v.bounded;
    once = v.once;
    apart = v.apart;
    fresh = v.fresh;
    inhabited = v.inhabited;
  }

  get-bounded :
      (q j : ℕ) (events : List A)
      → length events ≤ queue_maxsize
      → length (if q == j then rest_of events else events) ≤ queue_maxsize
  unfolding rest_of
  get-bounded q j [] h = ground arith
  get-bounded q j (event ∷ events) h = ground (arith, h)

  get-IsValid : (q : ℕ) (bus : EventBus A) → IsValid bus → IsValid (get q bus).1
  unfolding get
  get-IsValid q bus v = record {
    bounded = λ j. get-bounded q j (bus.queues j) (v.bounded j);
    once = v.once;
    apart = v.apart;
    fresh = v.fresh;
    inhabited = v.inhabited;
  }

  pub subscribers-subscribe :
      (channel c : String) (bus : EventBus A)
      → subscribers c (subscribe channel bus).1
        ≡ (if channel =? c then bus.next ∷ subscribers channel bus else subscribers c bus)
  unfolding subscribe
  subscribers-subscribe channel c bus =
      ground (arith, lookup-insert channel c (bus.next ∷ subscribers channel bus) bus.channels)

  pub times-subscribe :
      (channel c : String) (q : ℕ) (bus : EventBus A)
      → times q (subscribers c (subscribe channel bus).1) ≡ (
          if channel =? c
          then (if q == bus.next
              then suc (times q (subscribers channel bus))
              else times q (subscribers channel bus))
          else times q (subscribers c bus))
  times-subscribe channel c q bus =
      ground (arith, ap (times q) (subscribers-subscribe channel c bus))

  subscribe-bounded :
      (channel : String) (q : ℕ) (bus : EventBus A)
      → length (bus.queues q) ≤ queue_maxsize
      → length ((subscribe channel bus).1.queues q) ≤ queue_maxsize
  unfolding subscribe
  subscribe-bounded channel q bus h = ground (arith, h)

  subscribe_next :
      (channel : String) (bus : EventBus A) → (subscribe channel bus).1.next ≡ bus.next + 1
  unfolding subscribe
  subscribe_next channel bus = refl

  subscribe_inhabited :
      (channel c : String) (bus : EventBus A)
      → lookup c bus.channels ≢ some []
      → lookup c (subscribe channel bus).1.channels ≢ some []
  unfolding subscribe
  subscribe_inhabited channel c bus h e =
      ground
        (arith, h, e, lookup-insert channel c (bus.next ∷ subscribers channel bus) bus.channels)

  pub subscribe-IsValid :
      (channel : String) (bus : EventBus A) → IsValid bus → IsValid (subscribe channel bus).1
  subscribe-IsValid channel bus v = record {
    bounded = λ q. subscribe-bounded channel q bus (v.bounded q);
    once = λ c q.
        ground
          (arith, times-subscribe channel c q bus, v.once channel q, v.once c q, v.fresh channel q);
    apart = λ c d q ne. ground (
      arith,
      times-subscribe channel c q bus,
      times-subscribe channel d q bus,
      (eq_iff channel c).0,
      (eq_iff channel d).0,
      ne,
      v.apart c d q ne,
      v.apart channel d q,
      v.apart c channel q,
      v.fresh c q,
      v.fresh d q,
      v.fresh channel q,
    );
    fresh = λ c q le. ground (
      arith,
      times-subscribe channel c q bus,
      subscribe_next channel bus,
      le,
      v.fresh c q,
      v.fresh channel q,
    );
    inhabited = λ c e. subscribe_inhabited channel c bus (v.inhabited c) e;
  }

  left_times :
      (channel c : String) (p q : ℕ) (bus : EventBus A)
      → times p (subscribers c (unsubscribe channel q bus)) ≤ times p (subscribers c bus)
  unfolding unsubscribe
  left_times channel c p q bus = times-leave channel c p q bus.channels

  unsubscribe-IsValid :
      (channel : String) (q : ℕ) (bus : EventBus A)
      → IsValid bus
      → IsValid (unsubscribe channel q bus)
  unfolding unsubscribe
  unsubscribe-IsValid channel q bus v = record {
    bounded = v.bounded;
    once = λ c p. omega (arith, left_times channel c p q bus, v.once c p);
    apart = λ c d p ne.
        omega (arith, left_times channel c p q bus, left_times channel d p q bus, v.apart c d p ne);
    fresh = λ c p le. omega (arith, left_times channel c p q bus, v.fresh c p le);
    inhabited = λ c. leave_inhabited channel c q bus.channels (v.inhabited c);
  }

  -- A new bus is well-formed, and publishing, subscribing, unsubscribing and consuming keep it so: no
  -- queue grows over its size, a queue belongs to one channel at most, a new queue is in none, and no
  -- channel stays without subscribers.
  pub operations-IsValid :
      (bus : EventBus A)
      → IsValid bus
      → IsValid (init {A = A})
        × ((channel : String) (event : A) → IsValid (publish channel event bus))
        × ((channel : String) → IsValid (subscribe channel bus).1)
        × ((channel : String) (q : ℕ) → IsValid (unsubscribe channel q bus))
        × ((q : ℕ) → IsValid (get q bus).1)
  operations-IsValid bus v = (
    init-IsValid,
    λ channel event. publish-IsValid channel event bus v,
    λ channel. subscribe-IsValid channel bus v,
    λ channel q. unsubscribe-IsValid channel q bus v,
    λ q. get-IsValid q bus v,
  )
