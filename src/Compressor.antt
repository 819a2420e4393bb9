-- ===== src/Compressor.antt =====
-- app/session_history/compressor.py: how a conversation is made to fit a number of tokens. A text is
-- the list of its code points.
pub mod Bounds
pub mod Order
mod Tests
use mathlib.Core.List.{reverse}
use prd2tsd.Prelude.{
  Text, ℕ, zero, suc, ◌+◌, ◌-◌, ◌*◌, ◌/◌, String, Option, none, some, Bool, true, false, List, [],
  ◌∷◌, ◌++◌, ltb, leb, ◌==◌, ◌&&◌, length, take, if◌then◌else◌,
}

pub record ChatMessage : Type 0 where
  pub role : String
  pub content : Text

-- `"\u4e00" <= c <= "\u9fff"`
abbrev pub is_chinese : ℕ → Bool
is_chinese c = leb 0x4e00 c && leb c 0x9fff

pub chinese_in : Text → ℕ
chinese_in [] = 0
chinese_in (c ∷ text) = let rest = chinese_in text in if is_chinese c then rest + 1 else rest

-- `int(chinese * 1.5 + english * 0.25)`
unfoldable pub tokens_of : ChatMessage → ℕ
unfolding chinese_in
tokens_of msg = (6 * chinese_in msg.content + (length msg.content - chinese_in msg.content)) / 4

-- `_estimate_tokens`
unfoldable pub estimate_tokens : List ChatMessage → ℕ
estimate_tokens [] = 0
estimate_tokens (msg ∷ messages) = tokens_of msg + estimate_tokens messages

-- The loop that sets the newest messages apart, over the reversed list.
pub record Split : Type 0 where
  pub safe_tokens : ℕ
  pub protected : List ChatMessage
  pub compressible : List ChatMessage

abbrev pub fits_reserve : ℕ → ChatMessage → Split → Bool
fits_reserve reserve msg s = leb (s.safe_tokens + tokens_of msg) reserve

pub protect_one : ℕ → ChatMessage → Split → Split
protect_one reserve msg s =
    if fits_reserve reserve msg s
    then record s { safe_tokens = s.safe_tokens + tokens_of msg; protected = msg ∷ s.protected }
    else record s { compressible = msg ∷ s.compressible }

unfoldable pub protect : ℕ → List ChatMessage → Split → Split
protect reserve [] s = s
protect reserve (msg ∷ messages) s = protect reserve messages (protect_one reserve msg s)

abbrev pub split : ℕ → List ChatMessage → Split
split reserve messages =
    protect reserve (reverse messages)
      (record { safe_tokens = 0; protected = []; compressible = [] })

-- `n <= max_tokens - safe_tokens`, where the budget on the right may be negative.
abbrev pub within : ℕ → ℕ → ℕ → Bool
within max_tokens safe_tokens n = leb (n + safe_tokens) max_tokens

-- The loop of `_rolling`, over the reversed list.
unfoldable pub roll : ℕ → ℕ → ℕ → List ChatMessage → List ChatMessage → List ChatMessage
roll max_tokens safe_tokens tokens result [] = result
roll max_tokens safe_tokens tokens result (msg ∷ messages) =
    let more = roll max_tokens safe_tokens (tokens + tokens_of msg) (msg ∷ result) messages in
    if within max_tokens safe_tokens (tokens + tokens_of msg) then more else result

-- `_rolling`
abbrev pub rolling : ℕ → ℕ → List ChatMessage → List ChatMessage
rolling max_tokens safe_tokens messages = roll max_tokens safe_tokens 0 [] (reverse messages)

-- The inner loop of `_truncate` with fuel: `while text and tokens + len(text) // 4 > budget`.
unfoldable pub shorten : ℕ → ℕ → ℕ → ℕ → Text → Text
shorten max_tokens safe_tokens tokens zero text = text
shorten max_tokens safe_tokens tokens (suc fuel) text =
    let more = shorten max_tokens safe_tokens tokens fuel (take (length text / 2) text) in
    if length text == 0
    then text
    else if within max_tokens safe_tokens (tokens + length text / 4)
    then text
    else more

abbrev pub shortened : ℕ → ℕ → ℕ → Text → Text
shortened max_tokens safe_tokens tokens text =
    shorten max_tokens safe_tokens tokens (length text + 1) text

-- The outer loop of `_truncate`, over the reversed list.
pub truncate_from : ℕ → ℕ → ℕ → List ChatMessage → List ChatMessage → List ChatMessage
truncate_from max_tokens safe_tokens tokens result [] = result
truncate_from max_tokens safe_tokens tokens result (msg ∷ messages) =
    let text = shortened max_tokens safe_tokens tokens msg.content in
    let dropped = truncate_from max_tokens safe_tokens tokens result messages in
    let kept =
      truncate_from max_tokens safe_tokens (tokens + length text / 4)
        (record msg { content = text } ∷ result) messages in
    if length text == 0 then dropped else kept

-- `_truncate`
abbrev pub truncate : ℕ → ℕ → List ChatMessage → List ChatMessage
truncate max_tokens safe_tokens messages =
    truncate_from max_tokens safe_tokens 0 [] (reverse messages)

-- The gateway that may write a summary: none, one that answers, or one whose call raises.
pub data Gateway : Type 0 where
  absent : Gateway
  answers : Text → Gateway
  raises : Gateway

-- `_summarize`; `label` is the text that it puts before a summary.
abbrev pub summarize : Text → Gateway → ℕ → ℕ → List ChatMessage → List ChatMessage
summarize label absent max_tokens safe_tokens messages = messages
summarize label gateway max_tokens safe_tokens [] = []
summarize label (answers content) max_tokens safe_tokens (msg ∷ messages) =
    record { role = "system"; content = label ++ content } ∷ []
summarize label raises max_tokens safe_tokens (msg ∷ messages) =
    rolling max_tokens safe_tokens (msg ∷ messages)

pub data Strategy : Type 0 where
  summarized : Strategy
  rolled : Strategy
  truncated : Strategy

-- `_apply_strategy`
abbrev pub apply_strategy : Text → Gateway → Strategy → ℕ → ℕ → List ChatMessage → List ChatMessage
apply_strategy label gateway summarized = summarize label gateway
apply_strategy label gateway rolled = rolling
apply_strategy label gateway truncated = truncate

abbrev pub strategy_order : List Strategy
strategy_order = summarized ∷ rolled ∷ truncated ∷ []

-- The loop over the strategies, and the last resort.
unfoldable pub try_strategies : Text → Gateway → ℕ → Split → List Strategy → List ChatMessage
try_strategies label gateway max_tokens s [] = s.protected
try_strategies label gateway max_tokens s (strategy ∷ strategies) =
    let compressed =
      apply_strategy label gateway strategy max_tokens s.safe_tokens s.compressible in
    let rest = try_strategies label gateway max_tokens s strategies in
    if within max_tokens s.safe_tokens (estimate_tokens compressed)
    then compressed ++ s.protected
    else rest

-- `compress`
unfoldable pub compress : Text → Gateway → ℕ → ℕ → List ChatMessage → List ChatMessage
compress label gateway max_tokens reserve_for_latest messages =
    if leb (estimate_tokens messages) max_tokens
    then messages
    else try_strategies label gateway max_tokens (split reserve_for_latest messages) strategy_order
