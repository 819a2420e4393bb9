-- ===== src/SemanticCache/Levels.antt =====
-- app/llm_gateway/cache.py: `lookup` and `store` of `SemanticCache`, over both of its levels, and
-- `PostgresSemanticCacheStore`. The components of a vector are whole numbers, and the float division
-- by the product of two norms, scaled so that 0 stands for -1.0, is a function of the squares of the
-- norms. SHA-256 is a function too; the table's rows stand with the newest first.
use Prim.Native.String.{◌++◌ as text_append}
use prd2tsd.Prelude.{
  ℕ, suc, ◌+◌, ◌-◌, ◌*◌, String, Option, none, some, Bool, not, List, [], ◌∷◌, ltb, leb, ◌==◌, ◌=?◌,
  ◌&&◌, ◌||◌, if◌then◌else◌, length, take, keep_if, map,
}
use prd2tsd.Prelude.Dict.{Dict, lookup as find, insert, erase}
use prd2tsd.Prelude.Int.{ℤ, pos, negsuc, pos_part, neg_part}
use prd2tsd.SemanticCache.{
  SemanticCache, get, set, clear as clear_exact, invalidate as invalidate_exact,
}

-- `SemanticCacheEntry`
pub record SemanticCacheEntry : Type 0 where
  pub workspace_id : String
  pub task_type : String
  pub model : String
  pub prompt_hash : String
  pub response : String
  pub embedding : List ℤ
  pub embedding_model : String
  pub guardrail_version : String
  pub expires_at : ℕ

pub record CacheCandidate : Type 0 where
  pub prompt_hash : String
  pub response : String
  pub embedding : List ℤ

-- Both levels, and the vectors of the prompts that were asked for and not answered yet.
pub record Levels : Type 0 where
  pub exact : SemanticCache
  pub pending : Dict (List ℤ × String)
  pub table : List SemanticCacheEntry

-- The settings, and the functions of the libraries.
pub record Setup : Type 0 where
  pub enabled : Bool
  pub threshold : ℕ
  pub guardrail_version : String
  pub max_candidates : ℕ
  pub sha256 : String → String
  pub ratio : ℤ → ℕ → ℕ → ℕ

-- `clear` and `invalidate` of both levels: the rows of the table stay, and so does a waiting vector of
-- an entry that is made invalid.
abbrev pub clear : Levels → Levels
clear l = record l { exact = clear_exact l.exact; pending = [] }

abbrev pub invalidate : String → Levels → Levels
invalidate key l = record l { exact = invalidate_exact key l.exact }

-- What a call names.
pub record Request : Type 0 where
  pub prompt : String
  pub task_type : String
  pub workspace_id : String
  pub model : String

-- What the clocks, the embedding model and the database answer to a call; `none` if it raises.
pub record World : Type 0 where
  pub monotonic : ℕ
  pub utc : ℕ
  pub loaded : Option (List ℤ × String)
  pub store_up : Bool

abbrev pub times : ℤ → ℤ → ℤ
times (pos a) (pos b) = pos (a * b)
times (negsuc a) (negsuc b) = pos (suc a * suc b)
times (pos a) (negsuc b) = if a == 0 then pos 0 else negsuc (a * b + a - 1)
times (negsuc a) (pos b) = if b == 0 then pos 0 else negsuc (a * b + b - 1)

abbrev pub plus : ℤ → ℤ → ℤ
plus a b =
    let up = pos_part a + pos_part b in
    let down = neg_part a + neg_part b in
    if leb down up then pos (up - down) else negsuc (down - up - 1)

abbrev pub dot : List ℤ → List ℤ → ℤ
dot [] w = pos 0
dot (a ∷ v) [] = pos 0
dot (a ∷ v) (b ∷ w) = plus (times a b) (dot v w)

-- The square of a norm.
abbrev pub norm_square : List ℤ → ℕ
norm_square v = pos_part (dot v v)

-- `pop(next(iter(…)))`: the oldest key goes.
abbrev pub pop_first : Dict (List ℤ × String) → Dict (List ℤ × String)
pop_first [] = []
pop_first (e ∷ rest) = rest

module _ (setup : Setup) where
  -- `_cosine_similarity`
  unfoldable pub cosine_similarity : List ℤ → List ℤ → ℕ
  cosine_similarity left right =
      if length left == 0 || not (length left == length right)
      then 0
      else if norm_square left == 0 || norm_square right == 0
      then 0
      else setup.ratio (dot left right) (norm_square left) (norm_square right)

  -- `make_key`
  abbrev pub make_key : Request → String
  make_key r = setup.sha256 (
      text_append r.workspace_id (
        text_append "::" (
          text_append r.task_type (
            text_append "::" (
              text_append r.model (
                text_append "::"
                  (text_append setup.guardrail_version (text_append "::" r.prompt))))))))

  abbrev pub in_scope : ℕ → Request → String → SemanticCacheEntry → Bool
  in_scope now r embedding_model e =
      e.workspace_id =? r.workspace_id
      && e.task_type =? r.task_type
      && e.model =? r.model
      && e.embedding_model =? embedding_model
      && e.guardrail_version =? setup.guardrail_version
      && ltb now e.expires_at

  abbrev pub candidate_of : SemanticCacheEntry → CacheCandidate
  candidate_of e = record {
    prompt_hash = e.prompt_hash;
    response = e.response;
    embedding = e.embedding;
  }

  -- `candidates`
  abbrev pub candidates : ℕ → Request → String → List SemanticCacheEntry → List CacheCandidate
  candidates now r embedding_model table =
      map candidate_of (take setup.max_candidates (keep_if (in_scope now r embedding_model) table))

  abbrev pub new_entry : ℕ → Request → String → List ℤ → String → SemanticCacheEntry
  new_entry expires_at r response embedding embedding_model = record {
    workspace_id = r.workspace_id;
    task_type = r.task_type;
    model = r.model;
    prompt_hash = make_key r;
    response = response;
    embedding = embedding;
    embedding_model = embedding_model;
    guardrail_version = setup.guardrail_version;
    expires_at = expires_at;
  }

  abbrev pub is_entry : Request → String → SemanticCacheEntry → Bool
  is_entry r embedding_model e =
      e.workspace_id =? r.workspace_id
      && e.task_type =? r.task_type
      && e.model =? r.model
      && e.prompt_hash =? make_key r
      && e.embedding_model =? embedding_model
      && e.guardrail_version =? setup.guardrail_version

  -- `upsert`: the row of the call is written anew in its place, or else added.
  unfoldable pub update_entry :
      SemanticCacheEntry
      → (SemanticCacheEntry → Bool)
      → List SemanticCacheEntry
      → Option (List SemanticCacheEntry)
  update_entry new p [] = none
  update_entry new p (e ∷ table) =
      let rest = update_entry new p table in
      if p e
      then some (
          record e {
            response = new.response;
            embedding = new.embedding;
            expires_at = new.expires_at;
          }
          ∷ table)
      else elim rest [ none ↦ none | some l ↦ some (e ∷ l) ]

  abbrev pub upsert :
      SemanticCacheEntry
      → (SemanticCacheEntry → Bool)
      → List SemanticCacheEntry
      → List SemanticCacheEntry
  upsert new p table = elim (update_entry new p table) [ none ↦ new ∷ table | some l ↦ l ]

  -- The loop that keeps the first candidate of the highest score above -1.0.
  unfoldable pub best_of :
      List ℤ → Option CacheCandidate → ℕ → List CacheCandidate → Option CacheCandidate × ℕ
  best_of embedding best best_score [] = (best, best_score)
  best_of embedding best best_score (c ∷ cs) =
      let score = cosine_similarity embedding c.embedding in
      if ltb best_score score
      then best_of embedding (some c) score cs
      else best_of embedding best best_score cs

  -- An answer, and the cache after it; `none` if `set` raises.
  abbrev pub Found : Type 0
  Found = Option (Option String × Levels)

  abbrev pub answered : String → Levels → Option SemanticCache → Found
  answered response l none = none
  answered response l (some exact) = some (some response, record l { exact = exact })

  abbrev pub chosen : ℕ → String → Levels → Option CacheCandidate × ℕ → Found
  chosen now key l (none, score) = some (none, l)
  chosen now key l (some best, score) =
      if leb setup.threshold score
      then answered best.response (record l { pending = erase key l.pending })
          (set now key best.response l.exact)
      else some (none, l)

  abbrev pub remember : String → List ℤ × String → Levels → Levels
  remember key vector l =
      let pending = insert key vector l.pending in
      record l {
        pending = if ltb l.exact.max_size (length pending) then pop_first pending else pending;
      }

  abbrev pub compare : World → Request → String → List ℤ × String → Levels → Found
  compare world r key (embedding, embedding_model) l =
      let l' = remember key (embedding, embedding_model) l in
      if length embedding == 0
      then some (none, l)
      else if not world.store_up
      then some (none, l')
      else chosen world.monotonic key l'
          (best_of embedding none 0 (candidates world.utc r embedding_model l'.table))

  abbrev pub second_level : World → Request → String → Option (List ℤ × String) → Levels → Found
  second_level world r key none l = some (none, l)
  second_level world r key (some vector) l = compare world r key vector l

  abbrev pub after_exact : World → Request → String → Option String → Levels → Found
  after_exact world r key (some content) l = some (some content, l)
  after_exact world r key none l =
      if not setup.enabled || r.workspace_id =? ""
      then some (none, l)
      else second_level world r key world.loaded l

  -- `lookup`
  unfoldable pub lookup : World → Request → Levels → Found
  lookup world r l =
      let key = make_key r in
      let (exact, first) = get world.monotonic key l.exact in
      after_exact world r key exact (record l { exact = first })

  abbrev pub vector_or :
      Option (List ℤ × String) → Option (List ℤ × String) → Option (List ℤ × String)
  vector_or none loaded = loaded
  vector_or (some pending) loaded = some pending

  abbrev pub keep_vector : World → Request → String → Option (List ℤ × String) → Levels → Levels
  keep_vector world r response none l = l
  keep_vector world r response (some (embedding, embedding_model)) l =
      if length embedding == 0 || not world.store_up then l else record l {
        table =
            upsert (new_entry (world.utc + l.exact.ttl) r response embedding embedding_model)
              (is_entry r embedding_model) l.table;
      }

  abbrev pub store_second : World → Request → String → String → Levels → Levels
  store_second world r key response l =
      if not setup.enabled || r.workspace_id =? ""
      then l
      else keep_vector world r response (vector_or (find key l.pending) world.loaded)
          (record l { pending = erase key l.pending })

  abbrev pub store_after :
      World → Request → String → String → Levels → Option SemanticCache → Option Levels
  store_after world r key response l none = none
  store_after world r key response l (some exact) =
      some (store_second world r key response (record l { exact = exact }))

  -- `store`
  unfoldable pub store : World → Request → String → Levels → Option Levels
  store world r response l =
      let key = make_key r in
      store_after world r key response l (set world.monotonic key response l.exact)
