-- ===== src/Sessions/Turns.antt =====
-- The turns of a list of messages (app/session_history/repository.py), and their order.
use prd2tsd.Prelude.{ℕ, suc, ◌+◌, true, List, [], ◌∷◌, ◌++◌, ◌≡◌, refl, ap, ◌∙◌, arith, leb, length}
use prd2tsd.Sessions.{SessionMessage, next_turn, insert_turn, by_turn}

-- The turns of a list count up from a number.
unfoldable pub IsNumbered : ℕ → List SessionMessage → Type 0
IsNumbered k [] = Unit
IsNumbered k (m ∷ ms) = (m.turn_index ≡ k) × IsNumbered (suc k) ms

insert_turn-first :
    (k : ℕ) (m : SessionMessage) (ms : List SessionMessage)
    → m.turn_index ≡ k
    → IsNumbered (suc k) ms
    → insert_turn m ms ≡ m ∷ ms
unfolding insert_turn IsNumbered
insert_turn-first k m [] same h = refl
insert_turn-first k m (n ∷ ms) same (next, h) =
    let earlier : leb m.turn_index n.turn_index ≡ true = ground (arith, same, next) in
    rw earlier refl

pub by_turn-IsNumbered : (k : ℕ) (ms : List SessionMessage) → IsNumbered k ms → by_turn ms ≡ ms
unfolding by_turn IsNumbered
by_turn-IsNumbered k [] h = refl
by_turn-IsNumbered k (m ∷ ms) (same, h) =
    ap (insert_turn m) (by_turn-IsNumbered (suc k) ms h) ∙ insert_turn-first k m ms same h

next_turn-IsNumbered :
    (k : ℕ) (m : SessionMessage) (ms : List SessionMessage)
    → IsNumbered k (m ∷ ms)
    → next_turn (m ∷ ms) ≡ k + length (m ∷ ms)
unfolding IsNumbered
next_turn-IsNumbered k m [] (same, h) = omega (arith, same)
next_turn-IsNumbered k m (n ∷ ms) (same, h) =
    omega (arith, same, next_turn-IsNumbered (suc k) n ms h)

pub next_turn_first : (ms : List SessionMessage) → IsNumbered 0 ms → next_turn ms ≡ length ms
next_turn_first [] h = refl
next_turn_first (m ∷ ms) h = omega (arith, next_turn-IsNumbered 0 m ms h)

pub append-IsNumbered :
    (k : ℕ) (ms : List SessionMessage) (m : SessionMessage)
    → IsNumbered k ms
    → m.turn_index ≡ k + length ms
    → IsNumbered k (ms ++ m ∷ [])
unfolding IsNumbered
append-IsNumbered k [] m h e = (omega (arith, e), tt)
append-IsNumbered k (n ∷ ms) m (same, h) e =
    (same, append-IsNumbered (suc k) ms m h (omega (arith, e)))

pub append_nothing : (k : ℕ) (ms : List SessionMessage) → IsNumbered k ms → IsNumbered k (ms ++ [])
unfolding IsNumbered
append_nothing k [] h = tt
append_nothing k (m ∷ ms) (same, h) = (same, append_nothing (suc k) ms h)
