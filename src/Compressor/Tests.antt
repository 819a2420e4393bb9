-- ===== src/Compressor/Tests.antt =====
-- Runs of the compression, and its theorems at concrete conversations.
use prd2tsd.Prelude.{Text, ℕ, zero, suc, ◌*◌, ◌≤◌, max, List, [], ◌∷◌, ◌≡◌, refl, arith}
use prd2tsd.Compressor.{ChatMessage, absent, answers, raises, tokens_of, estimate_tokens, compress}
use prd2tsd.Compressor.Bounds.{compress_fits, by_summary_or_rolling, compress-by_summary_or_rolling}
use prd2tsd.Compressor.Order.{order_lost}

-- A text of Latin letters, four to a token.
abbrev letters : ℕ → Text
letters zero = []
letters (suc n) = 0x61 ∷ letters n

abbrev says : ℕ → ChatMessage
says n = record { role = "user"; content = letters (4 * n) }

-- Two Chinese characters count as three tokens.
chinese_tokens : tokens_of (record { role = "user"; content = 0x4e00 ∷ 0x4e01 ∷ [] }) ≡ 3
unfolding tokens_of
chinese_tokens = refl

abbrev talk : List ChatMessage
talk = says 3 ∷ says 1 ∷ says 4 ∷ says 2 ∷ []

compress_fits_example : estimate_tokens (compress [] raises 7 3 talk) ≤ max 7 3
compress_fits_example = compress_fits [] raises 7 3 talk

compress-by_summary_or_rolling_example :
    compress [] (answers (letters 4)) 7 3 talk
    ≡ by_summary_or_rolling [] (answers (letters 4)) 7 3 talk
compress-by_summary_or_rolling_example =
    compress-by_summary_or_rolling [] (answers (letters 4)) 7 3 talk (omega arith)

order_lost_example :
    compress [] absent 7 3 (says 3 ∷ says 1 ∷ says 4 ∷ says 2 ∷ []) ≡ says 4 ∷ says 1 ∷ says 2 ∷ []
unfolding tokens_of
order_lost_example =
    order_lost [] 7 3 (says 3) (says 1) (says 4) (says 2) (omega arith) (omega arith) (omega arith)
      (omega arith) (omega arith)
