-- ===== src/SemanticCache.antt =====
-- app/llm_gateway/cache.py, the first level of `SemanticCache`: the exact entries that the process
-- keeps; Levels adds the stored embeddings. A key is what `make_key` returns.
pub mod Bounded
pub mod Levels
pub mod Isolation
pub mod Within
mod Tests
use mathlib.Core.Option
use prd2tsd.Prelude.{
  ℕ, ◌-◌, String, Option, none, some, List, [], ◌∷◌, ltb, leb, length, if◌then◌else◌,
}
use prd2tsd.Prelude.Dict.{Dict, lookup, insert, erase}

pub record CacheEntry : Type 0 where
  pub content : String
  pub time : ℕ

pub record SemanticCache : Type 0 where
  pub ttl : ℕ
  pub max_size : ℕ
  pub cache : Dict CacheEntry

-- `__init__`; the default size is an argument.
abbrev pub init : ℕ → ℕ → SemanticCache
init ttl max_size = record { ttl = ttl; max_size = max_size; cache = [] }

-- What `get` makes of an entry at the time `now`.
abbrev pub read : ℕ → String → Option CacheEntry → SemanticCache → Option String × SemanticCache
read now key none c = (none, c)
read now key (some e) c =
    if ltb c.ttl (now - e.time)
    then (none, record c { cache = erase key c.cache })
    else (some e.content, c)

-- `get`
unfoldable pub get : ℕ → String → SemanticCache → Option String × SemanticCache
get now key c = read now key (lookup key c.cache) c

-- The loop of `min` by time, which keeps the first of equal ones.
pub oldest_from : String → ℕ → Dict CacheEntry → String
oldest_from k t [] = k
oldest_from k t ((j, e) ∷ d) =
    oldest_from (if ltb e.time t then j else k) (if ltb e.time t then e.time else t) d

-- `del self._cache[oldest_key]`; `min` raises on an empty cache.
pub evict : Dict CacheEntry → Option (Dict CacheEntry)
evict [] = none
evict ((k, e) ∷ d) = some (erase (oldest_from k e.time d) ((k, e) ∷ d))

pub make_room : ℕ → Dict CacheEntry → Option (Dict CacheEntry)
make_room max_size d = if leb max_size (length d) then evict d else some d

abbrev pub written : String → String → ℕ → SemanticCache → Dict CacheEntry → SemanticCache
written key content now c d = record c {
  cache = insert key (record { content = content; time = now }) d;
}

-- `set`: `none` if it raises.
unfoldable pub set : ℕ → String → String → SemanticCache → Option SemanticCache
set now key content c = Option.map (written key content now c) (make_room c.max_size c.cache)

-- `clear`
abbrev pub clear : SemanticCache → SemanticCache
clear c = record c { cache = [] }

-- `invalidate`
abbrev pub invalidate : String → SemanticCache → SemanticCache
invalidate key c = record c { cache = erase key c.cache }

-- `size`
abbrev pub size : SemanticCache → ℕ
size c = length c.cache
