-- ===== src/SemanticCache/Tests.antt =====
-- Runs of the exact cache, and of both levels.
use prd2tsd.Prelude.{
  List, none, some, true, false, [], ◌∷◌, ◌≡◌, ◌⊎◌, ◌*◌, ◌/◌, ◌+◌, ◌=?◌, refl, arith,
}
use prd2tsd.Prelude.Int.{pos, pos_part}
use prd2tsd.Prelude.Dict.{lookup, insert, erase}
use prd2tsd.SemanticCache.{SemanticCache, get, set, make_room, evict, oldest_from}
use prd2tsd.SemanticCache.Bounded.{Call, got, put, invalidated, cleared}
use prd2tsd.SemanticCache.Levels.{
  clear, invalidate, SemanticCacheEntry, Levels, Setup, Request, World, cosine_similarity, make_key,
  best_of, lookup as semantic_lookup, store,
}
use prd2tsd.SemanticCache.Isolation.{answer_of, any_serves, lookup_isolated}
use prd2tsd.SemanticCache.Within.{IsWithin, FoundWithin, StoredWithin, calls-IsWithin}

-- Two entries at most, for an hour.
abbrev full : SemanticCache
full = record {
  ttl = 3600;
  max_size = 2;
  cache =
      ("k1", record { content = "one"; time = 5 })
      ∷ ("k2", record { content = "two"; time = 3 })
      ∷ [];
}

kept_too_long : (get 3604 "k2" full).0 ≡ none
unfolding get lookup
kept_too_long = refl

abbrev calls : List Call
calls =
    put 1 "k1" "one"
    ∷ put 2 "k2" "two"
    ∷ got 3 "k1"
    ∷ put 4 "k3" "three"
    ∷ invalidated "k2"
    ∷ cleared
    ∷ put 5 "k1" "again"
    ∷ []

abbrev setup : Setup
setup = record {
  enabled = true;
  threshold = 19000;
  guardrail_version = "v1";
  max_candidates = 10;
  sha256 = λ text. text;
  ratio = λ product left right. pos_part product * 10000 / right + 10000;
}

abbrev request : Request
request = record { prompt = "p"; task_type = "t"; workspace_id = "w1"; model = "m" }

abbrev world : World
world = record {
  monotonic = 10;
  utc = 100;
  loaded = some (pos 3 ∷ pos 4 ∷ [], "e");
  store_up = true;
}

abbrev stored : SemanticCacheEntry
stored = record {
  workspace_id = "w1";
  task_type = "t";
  model = "m";
  prompt_hash = "other";
  response = "answer";
  embedding = pos 3 ∷ pos 4 ∷ [];
  embedding_model = "e";
  guardrail_version = "v1";
  expires_at = 200;
}

abbrev levels : Levels
levels = record { exact = full; pending = []; table = stored ∷ [] }

similar : answer_of setup (semantic_lookup setup world request levels) ≡ some "answer"
unfolding semantic_lookup get set lookup insert erase best_of cosine_similarity make_room evict
    oldest_from
similar = refl

lookup_isolated_example :
    ((get 10 (make_key setup request) full).0 ≡ some "answer")
    ⊎ ((true ≡ true)
        × (("w1" =? "") ≡ false)
        × (true ≡ true)
        × (any_serves setup world request world.loaded "answer" levels.table ≡ true))
lookup_isolated_example = lookup_isolated setup world request levels "answer" similar

levels-IsWithin : IsWithin 2 levels
unfolding IsWithin
levels-IsWithin = (refl, omega arith, omega arith)

calls-IsWithin_example :
    FoundWithin setup 2 (semantic_lookup setup world request levels)
    × StoredWithin 2 (store setup world request "new" levels)
    × IsWithin 2 (clear levels)
    × IsWithin 2 (invalidate (make_key setup request) levels)
calls-IsWithin_example =
    calls-IsWithin setup 2 (omega arith) world request "new" levels levels-IsWithin
