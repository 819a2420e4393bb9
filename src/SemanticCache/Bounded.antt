-- ===== src/SemanticCache/Bounded.antt =====
-- The size of the exact cache (app/llm_gateway/cache.py), and what it returns.
use mathlib.Core.Option
use mathlib.Core.Path.{subst}
use prd2tsd.Prelude.{
  ℕ, ◌-◌, ◌≤◌, ◌<◌, String, Option, none, some, List, [], ◌∷◌, ◌≡◌, ◌≢◌, refl, ap, ◌∙◌, arith, ltb,
  leb, length, if◌then◌else◌, Bool-cases, inl, inr, text_same,
}
use prd2tsd.Prelude.Dict.{
  Dict, lookup, lookup-insert_same, length-insert_new, length-erase_known, length-erase,
}
use prd2tsd.SemanticCache.{
  CacheEntry, SemanticCache, init, read, get, oldest_from, evict, make_room, written, set, size,
  invalidate, clear,
}

oldest_known :
    (k : String) (t : ℕ) (e : CacheEntry) (d : Dict CacheEntry)
    → lookup (oldest_from k t d) ((k, e) ∷ d) ≢ none
unfolding oldest_from lookup
oldest_known k t e [] = ground (arith, text_same k)
oldest_known k t e ((j, f) ∷ d) = elim (Bool-cases (ltb f.time t)) [
  | inl earlier ↦ ground (arith, earlier, oldest_known j f.time f d)
  | inr later ↦ ground (arith, later, oldest_known k t e d)
]

-- There is room for one more entry.
abbrev Roomy : ℕ → Option (Dict CacheEntry) → Type 0
Roomy max_size none = ⊥
Roomy max_size (some d) = length d < max_size

make_room-Roomy :
    (max_size : ℕ) (d : Dict CacheEntry)
    → 0 < max_size
    → length d ≤ max_size
    → Roomy max_size (make_room max_size d)
unfolding make_room evict
make_room-Roomy max_size [] positive small = elim (Bool-cases (leb max_size 0)) [
  | inl full ↦ absurd (ground (arith, full))
  | inr room ↦ rw room positive
]
make_room-Roomy max_size ((k, e) ∷ d) positive small =
    elim (Bool-cases (leb max_size (length ((k, e) ∷ d)))) [
      | inl full ↦ rw full (
          ground (
            arith,
            length-erase_known (oldest_from k e.time d) ((k, e) ∷ d) (oldest_known k e.time e d),
          ))
      | inr room ↦ rw room (ground (arith, room))
    ]

-- What a write leaves: it does not raise, the settings stay, the size is within its bound, and a
-- reader gets the content until it has expired.
abbrev pub Written : ℕ → String → String → SemanticCache → Option SemanticCache → Type 0
Written now key content c none = ⊥
Written now key content c (some c') =
    (c'.ttl ≡ c.ttl)
    × (c'.max_size ≡ c.max_size)
    × (size c' ≤ c.max_size)
    × ((later : ℕ)
        → (get later key c').0 ≡ (if ltb c.ttl (later - now) then none else some content))

read_written :
    (later now : ℕ) (key content : String) (c : SemanticCache)
    → (read later key (some (record { content = content; time = now })) c).0
      ≡ (if ltb c.ttl (later - now) then none else some content)
read_written later now key content c = ground arith

room-Written :
    (now : ℕ) (key content : String) (c : SemanticCache) (o : Option (Dict CacheEntry))
    → Roomy c.max_size o
    → Written now key content c (Option.map (written key content now c) o)
unfolding get
room-Written now key content c none room = room
room-Written now key content c (some d) room =
    let e : CacheEntry = record { content = content; time = now } in
    let c' : SemanticCache = written key content now c d in
    (
      refl,
      refl,
      ground (arith, room, length-insert_new key e d),
      λ later.
          ap (λ o. (read later key o c').0) (lookup-insert_same key e d)
          ∙ read_written later now key content c',
    )

-- A write to a cache that may hold something and is within its bound does not raise, keeps the
-- settings and the bound, and is what a reader of the key gets as long as the time to live has not
-- passed since; after that the reader gets nothing.
pub set-Written :
    (now : ℕ) (key content : String) (c : SemanticCache)
    → 0 < c.max_size
    → size c ≤ c.max_size
    → Written now key content c (set now key content c)
unfolding set
set-Written now key content c positive small =
    room-Written now key content c _ (make_room-Roomy c.max_size c.cache positive small)

-- A call of the cache.
pub data Call : Type 0 where
  got : ℕ → String → Call
  put : ℕ → String → String → Call
  invalidated : String → Call
  cleared : Call

abbrev pub answer : Call → SemanticCache → Option SemanticCache
answer (got now key) c = some (get now key c).1
answer (put now key content) c = set now key content c
answer (invalidated key) c = some (invalidate key c)
answer cleared c = some (clear c)

-- A sequence of calls, up to the first that raises.
unfoldable pub answer_all : List Call → SemanticCache → Option SemanticCache
answer_all [] c = some c
answer_all (call ∷ calls) c = Option.bind (answer call c) (answer_all calls)

abbrev pub IsBounded : ℕ → Option SemanticCache → Type 0
IsBounded max_size none = ⊥
IsBounded max_size (some c) = (c.max_size ≡ max_size) × (size c ≤ max_size)

pub read-IsBounded :
    (now : ℕ) (key : String) (o : Option CacheEntry) (c : SemanticCache)
    → size c ≤ c.max_size
    → IsBounded c.max_size (some (read now key o c).1)
read-IsBounded now key none c small = (refl, small)
read-IsBounded now key (some e) c small = elim (Bool-cases (ltb c.ttl (now - e.time))) [
  | inl old ↦ rw old (refl, ground (arith, small, length-erase key c.cache))
  | inr fresh ↦ rw fresh (refl, small)
]

set-IsBounded :
    (now : ℕ) (key content : String) (c : SemanticCache) (o : Option SemanticCache)
    → Written now key content c o
    → IsBounded c.max_size o
set-IsBounded now key content c none h = h
set-IsBounded now key content c (some c') (ttl, max_size, small, found) = (max_size, small)

answer-IsBounded :
    (call : Call) (c : SemanticCache)
    → 0 < c.max_size
    → size c ≤ c.max_size
    → IsBounded c.max_size (answer call c)
unfolding get
answer-IsBounded (got now key) c positive small =
    read-IsBounded now key (lookup key c.cache) c small
answer-IsBounded (put now key content) c positive small =
    set-IsBounded now key content c _ (set-Written now key content c positive small)
answer-IsBounded (invalidated key) c positive small =
    (refl, ground (arith, small, length-erase key c.cache))
answer-IsBounded cleared c positive small = (refl, omega arith)

rest-IsBounded :
    (max_size : ℕ) (calls : List Call) (o : Option SemanticCache)
    → 0 < max_size
    → IsBounded max_size o
    → IsBounded max_size (Option.bind o (answer_all calls))
unfolding answer_all Option.bind
rest-IsBounded max_size calls none positive h = h
rest-IsBounded max_size [] (some c) positive h = h
rest-IsBounded max_size (call ∷ calls) (some c) positive (same, small) =
    rest-IsBounded max_size calls (answer call c) positive (
      subst (λ m. IsBounded m (answer call c)) same
        (answer-IsBounded call c (ground (arith, same)) (ground (arith, same))))

-- A cache that may hold something never raises and never holds more entries than it may, whatever
-- the calls are.
pub calls-IsBounded :
    (ttl max_size : ℕ) (calls : List Call)
    → 0 < max_size
    → IsBounded max_size (answer_all calls (init ttl max_size))
unfolding answer_all Option.bind
calls-IsBounded ttl max_size calls positive =
    rest-IsBounded max_size calls (some (init ttl max_size)) positive (refl, omega arith)
