-- ===== src/Compressor/Order.antt =====
-- The order of what `compress` returns (app/session_history/compressor.py).
use mathlib.Core.List.{reverse, append_assoc, reverse-append}
use prd2tsd.Prelude.{
  Text, ℕ, ◌+◌, ◌≤◌, ◌<◌, List, [], ◌∷◌, ◌++◌, ◌≡◌, refl, sym, ap, ◌∙◌, arith, leb, Bool-cases, inl,
  inr, le→leb, lt→not_leb,
}
use prd2tsd.Compressor.{
  ChatMessage, Gateway, absent, Strategy, Split, tokens_of, estimate_tokens, protect_one, protect,
  split, within, roll, apply_strategy, strategy_order, try_strategies, compress,
}

-- The list ends with the message.
abbrev pub EndsWith : ChatMessage → List ChatMessage → Type 0
EndsWith msg messages = (earlier : List ChatMessage) × (messages ≡ earlier ++ msg ∷ [])

append-EndsWith :
    (msg : ChatMessage) (xs ys : List ChatMessage) → EndsWith msg ys → EndsWith msg (xs ++ ys)
append-EndsWith msg xs ys (earlier, e) =
    (xs ++ earlier, ap (λ l. xs ++ l) e ∙ sym (append_assoc xs earlier (msg ∷ [])))

protect_one-EndsWith :
    (reserve : ℕ) (msg m : ChatMessage) (s : Split)
    → EndsWith msg s.protected
    → EndsWith msg (protect_one reserve m s).protected
unfolding protect_one
protect_one-EndsWith reserve msg m s (earlier, e) =
    elim (Bool-cases (leb (s.safe_tokens + tokens_of m) reserve)) [
      | inl fits ↦ rw fits (m ∷ earlier, ap (λ l. m ∷ l) e)
      | inr over ↦ rw over (earlier, e)
    ]

protect-EndsWith :
    (reserve : ℕ) (msg : ChatMessage) (messages : List ChatMessage) (s : Split)
    → EndsWith msg s.protected
    → EndsWith msg (protect reserve messages s).protected
unfolding protect
protect-EndsWith reserve msg [] s h = h
protect-EndsWith reserve msg (m ∷ messages) s h =
    protect-EndsWith reserve msg messages (protect_one reserve m s)
      (protect_one-EndsWith reserve msg m s h)

protect_fits :
    (reserve : ℕ) (msg : ChatMessage) (s : Split)
    → s.safe_tokens + tokens_of msg ≤ reserve
    → protect_one reserve msg s
      ≡ record s { safe_tokens = s.safe_tokens + tokens_of msg; protected = msg ∷ s.protected }
unfolding protect_one
protect_fits reserve msg s h = rw (le→leb _ _ h)

protect_over :
    (reserve : ℕ) (msg : ChatMessage) (s : Split)
    → reserve < s.safe_tokens + tokens_of msg
    → protect_one reserve msg s ≡ record s { compressible = msg ∷ s.compressible }
unfolding protect_one
protect_over reserve msg s h = rw (lt→not_leb _ _ h)

abbrev start : Split
start = record { safe_tokens = 0; protected = []; compressible = [] }

protects_newest :
    (reserve : ℕ) (msg : ChatMessage) (messages : List ChatMessage)
    → tokens_of msg ≤ reserve
    → EndsWith msg (split reserve (messages ++ msg ∷ [])).protected
unfolding protect
protects_newest reserve msg messages h = rw (reverse-append messages (msg ∷ [])) (
    protect-EndsWith reserve msg (reverse messages) (protect_one reserve msg start)
      (rw (protect_fits reserve msg start (omega (arith, h))) ([], refl)))

try_strategies-EndsWith :
    (label : Text) (gateway : Gateway) (max_tokens : ℕ) (msg : ChatMessage) (s : Split)
    (strategies : List Strategy)
    → EndsWith msg s.protected
    → EndsWith msg (try_strategies label gateway max_tokens s strategies)
unfolding try_strategies
try_strategies-EndsWith label gateway max_tokens msg s [] h = h
try_strategies-EndsWith label gateway max_tokens msg s (strategy ∷ strategies) h =
    let compressed : List ChatMessage =
      apply_strategy label gateway strategy max_tokens s.safe_tokens s.compressible in
    elim (Bool-cases (within max_tokens s.safe_tokens (estimate_tokens compressed))) [
      | inl fits ↦ rw fits (append-EndsWith msg compressed s.protected h)
      | inr over ↦ rw over (try_strategies-EndsWith label gateway max_tokens msg s strategies h)
    ]

-- The newest message is the last one of every compression that reserves enough tokens for it, word
-- for word.
pub newest_kept :
    (label : Text) (gateway : Gateway) (max_tokens reserve : ℕ) (messages : List ChatMessage)
    (msg : ChatMessage)
    → tokens_of msg ≤ reserve
    → EndsWith msg (compress label gateway max_tokens reserve (messages ++ msg ∷ []))
unfolding compress
newest_kept label gateway max_tokens reserve messages msg h =
    let all : List ChatMessage = messages ++ msg ∷ [] in
    elim (Bool-cases (leb (estimate_tokens all) max_tokens)) [
      | inl small ↦ rw small (messages, refl)
      | inr large ↦ rw large (
          try_strategies-EndsWith label gateway max_tokens msg (split reserve all) strategy_order
            (protects_newest reserve msg messages h))
    ]

split_lost :
    (reserve : ℕ) (a b c d : ChatMessage)
    → tokens_of d + tokens_of b ≤ reserve
    → reserve < tokens_of d + tokens_of c
    → reserve < tokens_of d + tokens_of b + tokens_of a
    → split reserve (a ∷ b ∷ c ∷ d ∷ []) ≡ record {
      safe_tokens = 0 + tokens_of d + tokens_of b;
      protected = b ∷ d ∷ [];
      compressible = a ∷ c ∷ [];
    }
unfolding protect
split_lost reserve a b c d h1 h2 h3 =
    let s1 : Split = record start { safe_tokens = 0 + tokens_of d; protected = d ∷ [] } in
    let s2 : Split = record s1 { compressible = c ∷ [] } in
    let s3 : Split = record s2 {
      safe_tokens = 0 + tokens_of d + tokens_of b;
      protected = b ∷ d ∷ [];
    } in
    rw (protect_fits reserve d start (omega (arith, h1))) (
      rw (protect_over reserve c s1 (omega (arith, h2))) (
        rw (protect_fits reserve b s2 (omega (arith, h1)))
          (rw (protect_over reserve a s3 (omega (arith, h3))))))

-- Without a gateway, four messages that are too long together, of which the last three fit the limit,
-- and the second and the last fit the reserve, but the last does not with the third, nor both with the
-- first, come out without the first one and with the second and the third in each other's place.
pub order_lost :
    (label : Text) (max_tokens reserve : ℕ) (a b c d : ChatMessage)
    → tokens_of d + tokens_of b ≤ reserve
    → reserve < tokens_of d + tokens_of c
    → reserve < tokens_of d + tokens_of b + tokens_of a
    → tokens_of b + tokens_of c + tokens_of d ≤ max_tokens
    → max_tokens < tokens_of a + (tokens_of b + tokens_of c + tokens_of d)
    → compress label absent max_tokens reserve (a ∷ b ∷ c ∷ d ∷ []) ≡ c ∷ b ∷ d ∷ []
unfolding compress try_strategies estimate_tokens roll
order_lost label max_tokens reserve a b c d h1 h2 h3 h4 h5 =
    let s : Split = record {
      safe_tokens = 0 + tokens_of d + tokens_of b;
      protected = b ∷ d ∷ [];
      compressible = a ∷ c ∷ [];
    } in
    rw (lt→not_leb (estimate_tokens (a ∷ b ∷ c ∷ d ∷ [])) max_tokens (omega (arith, h5))) (
      rw (split_lost reserve a b c d h1 h2 h3) (
        rw
          (lt→not_leb (tokens_of a + (tokens_of c + 0) + s.safe_tokens) max_tokens
            (omega (arith, h5)))
          (rw (le→leb (0 + tokens_of c + s.safe_tokens) max_tokens (omega (arith, h4))) (
            rw
              (lt→not_leb (0 + tokens_of c + tokens_of a + s.safe_tokens) max_tokens
                (omega (arith, h5)))
              (rw (le→leb (tokens_of c + 0 + s.safe_tokens) max_tokens (omega (arith, h4))))))))
