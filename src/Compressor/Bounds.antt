-- ===== src/Compressor/Bounds.antt =====
-- The size of what `compress` returns (app/session_history/compressor.py), the end of its inner loop,
-- and the strategies that it needs.
use mathlib.Core.List.{reverse}
use prd2tsd.Prelude.{
  Text, ℕ, zero, suc, ◌+◌, ◌≤◌, ◌<◌, ◌/◌, max, true, List, [], ◌∷◌, ◌++◌, ◌≡◌, ◌⊎◌, refl, ap, arith,
  leb, ◌==◌, length, take, if◌then◌else◌, Bool-cases, inl, inr,
}
use prd2tsd.Compressor.{
  ChatMessage, Gateway, Strategy, Split, tokens_of, estimate_tokens, protect_one, protect, split,
  within, roll, rolling, shorten, shortened, summarize, apply_strategy, strategy_order,
  try_strategies, compress, truncate_from, truncate,
}

estimate-append :
    (xs ys : List ChatMessage)
    → estimate_tokens (xs ++ ys) ≡ estimate_tokens xs + estimate_tokens ys
unfolding estimate_tokens
estimate-append [] ys = omega arith
estimate-append (x ∷ xs) ys = omega (arith, estimate-append xs ys)

-- The protected messages are counted, and fit the reserve.
record IsSplit (reserve : ℕ) (s : Split) : Type 0 where
  counted : estimate_tokens s.protected ≡ s.safe_tokens
  fits : s.safe_tokens ≤ reserve

protect_one-IsSplit :
    (reserve : ℕ) (msg : ChatMessage) {s : Split}
    → IsSplit reserve s
    → IsSplit reserve (protect_one reserve msg s)
unfolding protect_one estimate_tokens
protect_one-IsSplit reserve msg h = ground arith

protect-IsSplit :
    (reserve : ℕ) (messages : List ChatMessage) {s : Split}
    → IsSplit reserve s
    → IsSplit reserve (protect reserve messages s)
unfolding protect
protect-IsSplit reserve [] h = h
protect-IsSplit reserve (msg ∷ messages) h =
    protect-IsSplit reserve messages (protect_one-IsSplit reserve msg h)

split-IsSplit :
    (reserve : ℕ) (messages : List ChatMessage) → IsSplit reserve (split reserve messages)
unfolding estimate_tokens
split-IsSplit reserve messages =
    protect-IsSplit reserve (reverse messages) (record { counted = refl; fits = omega arith })

roll_fits :
    (max_tokens safe tokens : ℕ) (result messages : List ChatMessage)
    → estimate_tokens result ≡ tokens
    → tokens + safe ≤ max_tokens
    → estimate_tokens (roll max_tokens safe tokens result messages) + safe ≤ max_tokens
unfolding roll estimate_tokens
roll_fits max_tokens safe tokens result [] counted h = omega arith
roll_fits max_tokens safe tokens result (msg ∷ messages) counted h =
    elim (Bool-cases (within max_tokens safe (tokens + tokens_of msg))) [
      | inl more ↦ rw more (
          roll_fits max_tokens safe (tokens + tokens_of msg) (msg ∷ result) messages
            (ground (arith, counted)) (ground (arith, more)))
      | inr over ↦ rw over (omega arith)
    ]

rolling_fits :
    (max_tokens safe : ℕ) (messages : List ChatMessage)
    → safe ≤ max_tokens
    → estimate_tokens (rolling max_tokens safe messages) + safe ≤ max_tokens
unfolding estimate_tokens
rolling_fits max_tokens safe messages h =
    roll_fits max_tokens safe 0 [] (reverse messages) refl (omega arith)

try_strategies_fit :
    (label : Text) (gateway : Gateway) (max_tokens reserve : ℕ) (s : Split)
    (strategies : List Strategy)
    → IsSplit reserve s
    → estimate_tokens (try_strategies label gateway max_tokens s strategies)
      ≤ max max_tokens reserve
unfolding try_strategies
try_strategies_fit label gateway max_tokens reserve s [] h = ground arith
try_strategies_fit label gateway max_tokens reserve s (strategy ∷ strategies) h =
    let compressed : List ChatMessage =
      apply_strategy label gateway strategy max_tokens s.safe_tokens s.compressible in
    elim (Bool-cases (within max_tokens s.safe_tokens (estimate_tokens compressed))) [
      | inl fits ↦ rw fits (ground (arith, fits, estimate-append compressed s.protected))
      | inr over ↦ rw over (try_strategies_fit label gateway max_tokens reserve s strategies h)
    ]

-- Whatever the gateway answers, the result of a compression fits the larger of the two limits, and
-- so fits the first one whenever the reserve does not exceed it.
pub compress_fits :
    (label : Text) (gateway : Gateway) (max_tokens reserve : ℕ) (messages : List ChatMessage)
    → estimate_tokens (compress label gateway max_tokens reserve messages) ≤ max max_tokens reserve
unfolding compress
compress_fits label gateway max_tokens reserve messages =
    elim (Bool-cases (leb (estimate_tokens messages) max_tokens)) [
      | inl small ↦ rw small (ground (arith, small))
      | inr large ↦ rw large (
          try_strategies_fit label gateway max_tokens reserve (split reserve messages)
            strategy_order (split-IsSplit reserve messages))
    ]

-- A compression without the strategy `truncate` and without the last resort.
pub by_summary_or_rolling : Text → Gateway → ℕ → ℕ → List ChatMessage → List ChatMessage
by_summary_or_rolling label gateway max_tokens reserve messages =
    let s = split reserve messages in
    let summary = summarize label gateway max_tokens s.safe_tokens s.compressible in
    if leb (estimate_tokens messages) max_tokens
    then messages
    else if within max_tokens s.safe_tokens (estimate_tokens summary)
    then summary ++ s.protected
    else rolling max_tokens s.safe_tokens s.compressible ++ s.protected

-- If the reserve does not exceed the limit, a compression is the messages themselves, or the first
-- that fits of a summary and the newest of the old messages, before the protected ones: truncation
-- and the last resort are never reached.
pub compress-by_summary_or_rolling :
    (label : Text) (gateway : Gateway) (max_tokens reserve : ℕ) (messages : List ChatMessage)
    → reserve ≤ max_tokens
    → compress label gateway max_tokens reserve messages
      ≡ by_summary_or_rolling label gateway max_tokens reserve messages
unfolding compress try_strategies by_summary_or_rolling
compress-by_summary_or_rolling label gateway max_tokens reserve messages h =
    let s : Split = split reserve messages in
    let ok : IsSplit reserve s = split-IsSplit reserve messages in
    let rolls : within max_tokens s.safe_tokens
          (estimate_tokens (rolling max_tokens s.safe_tokens s.compressible))
        ≡ true =
      ground
        (arith, rolling_fits max_tokens s.safe_tokens s.compressible (omega (arith, ok.fits))) in
    rw rolls refl

length-take_half : (n : ℕ) (text : Text) → n ≤ length text → length (take n text) ≡ n
length-take_half zero text h = refl
length-take_half (suc n) [] h = elim h [ ]
length-take_half (suc n) (c ∷ text) h = ap suc (length-take_half n text (omega arith))

abbrev Fits : ℕ → ℕ → ℕ → Text → Type 0
Fits max_tokens safe tokens r = (length r ≡ 0) ⊎ (tokens + length r / 4 + safe ≤ max_tokens)

shorten_ends :
    (max_tokens safe tokens fuel : ℕ) (text : Text)
    → length text < fuel
    → Fits max_tokens safe tokens (shorten max_tokens safe tokens fuel text)
unfolding shorten
shorten_ends max_tokens safe tokens zero text h = absurd (omega arith)
shorten_ends max_tokens safe tokens (suc fuel) text h = elim (Bool-cases (length text == 0)) [
  | inl empty ↦ rw empty (inl (ground (arith, empty)))
  | inr some_left ↦
      rw some_left (elim (Bool-cases (within max_tokens safe (tokens + length text / 4))) [
        | inl fits ↦ rw fits (inr (ground (arith, fits)))
        | inr over ↦ rw over (
            shorten_ends max_tokens safe tokens fuel (take (length text / 2) text)
              (ground (arith, some_left, length-take_half (length text / 2) text (omega arith))))
      ])
]

-- The number of tokens that `_truncate` counts: a quarter of the length of each text.
pub quarters : List ChatMessage → ℕ
quarters [] = 0
quarters (msg ∷ messages) = length msg.content / 4 + quarters messages

truncate_from_fits :
    (max_tokens safe tokens : ℕ) (result messages : List ChatMessage)
    → quarters result ≡ tokens
    → tokens + safe ≤ max_tokens
    → quarters (truncate_from max_tokens safe tokens result messages) + safe ≤ max_tokens
unfolding truncate_from quarters
truncate_from_fits max_tokens safe tokens result [] counted h = omega arith
truncate_from_fits max_tokens safe tokens result (msg ∷ messages) counted h =
    let text : Text = shortened max_tokens safe tokens msg.content in
    elim (Bool-cases (length text == 0)) [
      | inl dropped ↦
          rw dropped (truncate_from_fits max_tokens safe tokens result messages counted h)
      | inr kept ↦ rw kept (
          truncate_from_fits max_tokens safe (tokens + length text / 4)
            (record msg { content = text } ∷ result) messages (ground (arith, counted))
            (elim (shorten_ends max_tokens safe tokens (length msg.content + 1) msg.content
              (omega arith)) [ inl empty ↦ ground (arith, kept, empty) | inr fits ↦ fits ]))
    ]

-- The fuel of the inner loop is enough, so that the texts that a truncation leaves fit its budget in
-- the count that it uses, a quarter of the length of each.
pub truncate_fits :
    (max_tokens safe : ℕ) (messages : List ChatMessage)
    → safe ≤ max_tokens
    → quarters (truncate max_tokens safe messages) + safe ≤ max_tokens
unfolding quarters
truncate_fits max_tokens safe messages h =
    truncate_from_fits max_tokens safe 0 [] (reverse messages) refl (omega arith)
