-- ===== src/SemanticCache/Isolation.antt =====
-- From where an answer of `SemanticCache.lookup` (app/llm_gateway/cache.py) comes.
use prd2tsd.Prelude.{
  ℕ, zero, suc, String, Option, none, some, Bool, true, false, not, List, [], ◌∷◌, ◌≡◌, ◌⊎◌, inl,
  inr, refl, sym, ap, ◌∙◌, arith, ltb, leb, ◌==◌, ◌=?◌, ◌&&◌, ◌||◌, if◌then◌else◌, Bool-cases,
  length, take, keep_if, any, map, eq_iff,
}
use prd2tsd.Prelude.Int.{ℤ}
use prd2tsd.Prelude.Dict.{erase}
use prd2tsd.SemanticCache.{SemanticCache, get, set}
use prd2tsd.SemanticCache.Levels.{
  SemanticCacheEntry, CacheCandidate, Levels, Setup, Request, World, cosine_similarity, make_key,
  in_scope, candidate_of, candidates, best_of, Found, answered, chosen, remember, compare,
  second_level, after_exact, lookup,
}

module _ {A : Type 0} where
  taken : (b : Bool) (x y z : A) → (if b then x else y) ≡ z → b ≡ true → x ≡ z
  taken true x y z h e = h
  taken false x y z h e = cc e

  not_taken : (b : Bool) (x y z : A) → (if b then x else y) ≡ z → b ≡ false → y ≡ z
  not_taken true x y z h e = cc e
  not_taken false x y z h e = h

  any-take : (p : A → Bool) (n : ℕ) (xs : List A) → any p (take n xs) ≡ true → any p xs ≡ true
  any-take p zero xs h = cc h
  any-take p (suc n) [] h = h
  any-take p (suc n) (x ∷ xs) h = ground (arith, any-take p n xs)

  any-keep_if :
      (p q : A → Bool) (xs : List A) → any q (keep_if p xs) ≡ true → any (λ x. p x && q x) xs ≡ true
  any-keep_if p q [] h = h
  any-keep_if p q (x ∷ xs) h = ground (arith, any-keep_if p q xs)

module _ {A B : Type 0} where
  any-map : (p : B → Bool) (f : A → B) (xs : List A) → any p (map f xs) ≡ any (λ x. p (f x)) xs
  any-map p f [] = refl
  any-map p f (x ∷ xs) = ground (arith, any-map p f xs)

module _ (setup : Setup) where
  -- A candidate that is close enough and has this response.
  abbrev pub close_to : List ℤ → String → CacheCandidate → Bool
  close_to embedding response c =
      leb setup.threshold (cosine_similarity setup embedding c.embedding) && response =? c.response

  -- A row of the table from which the response may come.
  abbrev pub serves : ℕ → Request → List ℤ × String → String → SemanticCacheEntry → Bool
  serves now r (embedding, embedding_model) response e =
      (e.workspace_id =? r.workspace_id
        && e.task_type =? r.task_type
        && e.model =? r.model
        && e.embedding_model =? embedding_model
        && e.guardrail_version =? setup.guardrail_version
        && ltb now e.expires_at)
      && close_to embedding response (candidate_of setup e)

  abbrev pub any_serves :
      World → Request → Option (List ℤ × String) → String → List SemanticCacheEntry → Bool
  any_serves world r none response table = false
  any_serves world r (some vector) response table = any (serves world.utc r vector response) table

  response_of : Option CacheCandidate → String
  response_of none = ""
  response_of (some c) = c.response

  head-close :
      (embedding : List ℤ) (c b : CacheCandidate) (final : ℕ)
      → some c ≡ some b
      → cosine_similarity setup embedding c.embedding ≡ final
      → leb setup.threshold final ≡ true
      → close_to embedding b.response c ≡ true
  unfolding response_of
  head-close embedding c b final same score enough =
      let response : c.response ≡ b.response = ap response_of same in
      ground (arith, eq_iff b.response c.response)

  best_of-close :
      (embedding : List ℤ) (best : Option CacheCandidate) (score : ℕ) (cs : List CacheCandidate)
      (b : CacheCandidate) (final : ℕ)
      → best_of setup embedding best score cs ≡ (some b, final)
      → leb setup.threshold final ≡ true
      → (any (close_to embedding b.response) cs ≡ true) ⊎ ((best ≡ some b) × (score ≡ final))
  unfolding best_of
  best_of-close embedding best score [] b final h enough =
      inr (
        ap (λ (p : Option CacheCandidate × ℕ). p.0) h,
        ap (λ (p : Option CacheCandidate × ℕ). p.1) h,
      )
  best_of-close embedding best score (c ∷ cs) b final h enough =
      elim (Bool-cases (ltb score (cosine_similarity setup embedding c.embedding))) [
        | inl higher ↦
            elim (best_of-close embedding (some c) (cosine_similarity setup embedding c.embedding)
              cs b final
              (taken (ltb score (cosine_similarity setup embedding c.embedding)) _ _ _ h higher)
              enough) [
                | inl later ↦ inl (ground (arith, later))
                | inr (same, equal) ↦
                    inl (ground (arith, head-close embedding c b final same equal enough))
              ]
        | inr lower ↦
            elim (best_of-close embedding best score cs b final
              (not_taken (ltb score (cosine_similarity setup embedding c.embedding)) _ _ _ h lower)
              enough) [ inl later ↦ inl (ground (arith, later)) | inr kept ↦ inr kept ]
      ]

  candidates-serve :
      (now : ℕ) (r : Request) (embedding : List ℤ) (embedding_model response : String)
      (table : List SemanticCacheEntry)
      → any (close_to embedding response) (candidates setup now r embedding_model table) ≡ true
      → any (serves now r (embedding, embedding_model) response) table ≡ true
  candidates-serve now r embedding embedding_model response table h =
      let p : SemanticCacheEntry → Bool = in_scope setup now r embedding_model in
      let q : SemanticCacheEntry → Bool = λ e. close_to embedding response (candidate_of setup e) in
      let kept : List SemanticCacheEntry = keep_if p table in
      any-keep_if p q table (
        any-take q setup.max_candidates kept (
          sym (
            any-map (close_to embedding response) (candidate_of setup)
              (take setup.max_candidates kept))
          ∙ h))

  -- Nothing but an answer says more.
  abbrev pub answer_of : Found setup → Option String
  answer_of none = none
  answer_of (some (response, l)) = response

  answered-response :
      (content response : String) (l : Levels) (o : Option SemanticCache)
      → answer_of (answered setup content l o) ≡ some response
      → content ≡ response
  answered-response content response l none h = cc h
  answered-response content response l (some exact) h = cc h

  answer_if :
      (test : Bool) (o : Found setup) (l : Levels) (response : String)
      → answer_of (if test then o else some (none, l)) ≡ some response
      → (test ≡ true) × (answer_of o ≡ some response)
  answer_if true o l response h = (refl, h)
  answer_if false o l response h = cc h

  answer_unless :
      (test : Bool) (o : Found setup) (l : Levels) (response : String)
      → answer_of (if test then some (none, l) else o) ≡ some response
      → (test ≡ false) × (answer_of o ≡ some response)
  answer_unless true o l response h = cc h
  answer_unless false o l response h = (refl, h)

  chosen-close :
      (now : ℕ) (key : String) (l : Levels) (embedding : List ℤ) (cs : List CacheCandidate)
      (response : String) (b : Option CacheCandidate × ℕ)
      → best_of setup embedding none 0 cs ≡ b
      → answer_of (chosen setup now key l b) ≡ some response
      → any (close_to embedding response) cs ≡ true
  chosen-close now key l embedding cs response (none, final) e h = cc h
  chosen-close now key l embedding cs response (some b, final) e h =
      let o : Option SemanticCache = set now key b.response l.exact in
      let l' : Levels = record l { pending = erase key l.pending } in
      let (enough, given) =
        answer_if (leb setup.threshold final) (answered setup b.response l' o) l response h in
      let same = answered-response b.response response l' o given in
      elim (best_of-close embedding none 0 cs b final e enough) [
        | inl found ↦ ap (λ x. any (close_to embedding x) cs) (sym same) ∙ found
        | inr (nothing, score) ↦ absurd (cc nothing)
      ]

  compare-serves :
      (world : World) (r : Request) (key : String) (vector : List ℤ × String) (l : Levels)
      (response : String)
      → answer_of (compare setup world r key vector l) ≡ some response
      → (world.store_up ≡ true) × (any (serves world.utc r vector response) l.table ≡ true)
  compare-serves world r key (embedding, embedding_model) l response h =
      let l' : Levels = remember setup key (embedding, embedding_model) l in
      let cs : List CacheCandidate = candidates setup world.utc r embedding_model l.table in
      let b = best_of setup embedding none 0 cs in
      let (filled, looked) = answer_unless (length embedding == 0) _ l response h in
      let (up, picked) =
        answer_unless (not world.store_up) (chosen setup world.monotonic key l' b) l' response
          looked in
      (
        ground (arith, up),
        candidates-serve world.utc r embedding embedding_model response l.table
            (chosen-close world.monotonic key l' embedding cs response b refl picked),
      )

  second_level-serves :
      (world : World) (r : Request) (key : String) (vector : Option (List ℤ × String)) (l : Levels)
      (response : String)
      → answer_of (second_level setup world r key vector l) ≡ some response
      → (world.store_up ≡ true) × (any_serves world r vector response l.table ≡ true)
  second_level-serves world r key none l response h = cc h
  second_level-serves world r key (some vector) l response h =
      compare-serves world r key vector l response h

  after_exact-serves :
      (world : World) (r : Request) (key : String) (exact : Option String) (l : Levels)
      (response : String)
      → answer_of (after_exact setup world r key exact l) ≡ some response
      → (exact ≡ some response)
        ⊎ ((setup.enabled ≡ true)
            × ((r.workspace_id =? "") ≡ false)
            × (world.store_up ≡ true)
            × (any_serves world r world.loaded response l.table ≡ true))
  after_exact-serves world r key (some content) l response h = inl h
  after_exact-serves world r key none l response h =
      let (off, looked) =
        answer_unless (not setup.enabled || r.workspace_id =? "")
          (second_level setup world r key world.loaded l) l response h in
      let (up, served) = second_level-serves world r key world.loaded l response looked in
      inr (ground (arith, off), ground (arith, off), up, served)

  -- An answer of the cache is the content of the exact entry of its key, if it has not expired. Or
  -- else the second level is on, the call names a workspace, and the text is the response of a stored
  -- row of the same workspace, task, model, embedding model and guardrail version that has not expired
  -- and is at least as similar to the prompt as the threshold asks.
  pub lookup_isolated :
      (world : World) (r : Request) (l : Levels) (response : String)
      → answer_of (lookup setup world r l) ≡ some response
      → ((get world.monotonic (make_key setup r) l.exact).0 ≡ some response)
        ⊎ ((setup.enabled ≡ true)
            × ((r.workspace_id =? "") ≡ false)
            × (world.store_up ≡ true)
            × (any_serves world r world.loaded response l.table ≡ true))
  unfolding lookup
  lookup_isolated world r l response h =
      let (exact, first) = get world.monotonic (make_key setup r) l.exact in
      after_exact-serves world r (make_key setup r) exact (record l { exact = first }) response h
