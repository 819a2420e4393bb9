-- ===== src/SemanticCache/Within.antt =====
-- The sizes of both levels of the cache (app/llm_gateway/cache.py) through `lookup` and `store`.
use prd2tsd.Prelude.{
  ℕ, ◌+◌, ◌≤◌, ◌<◌, String, Option, none, some, not, List, [], ◌∷◌, ◌≡◌, ◌∙◌, arith, ltb, leb, ◌==◌,
  ◌=?◌, ◌||◌, if◌then◌else◌, if_both, length,
}
use prd2tsd.Prelude.Int.{ℤ}
use prd2tsd.Prelude.Dict.{Dict, lookup as find, insert, erase, length-insert_new, length-erase}
use prd2tsd.SemanticCache.{SemanticCache, get, set, size}
use prd2tsd.SemanticCache.Bounded.{Written, set-Written, read-IsBounded}
use prd2tsd.SemanticCache.Levels.{
  clear, invalidate, CacheCandidate, Levels, Setup, Request, World, make_key, Found, answered,
  chosen, pop_first, remember, compare, second_level, after_exact, lookup, vector_or, keep_vector,
  store_second, store_after, store,
}

-- Both levels are within a bound that a cache keeps.
unfoldable pub IsWithin : ℕ → Levels → Type 0
IsWithin n l = (l.exact.max_size ≡ n) × (size l.exact ≤ n) × (length l.pending ≤ n)

abbrev pub FoundWithin : (setup : Setup) → ℕ → Found setup → Type 0
FoundWithin setup n none = ⊥
FoundWithin setup n (some (response, l)) = IsWithin n l

abbrev pub StoredWithin : ℕ → Option Levels → Type 0
StoredWithin n none = ⊥
StoredWithin n (some l) = IsWithin n l

-- What a write of the exact level leaves.
abbrev SetWithin : ℕ → Option SemanticCache → Type 0
SetWithin n none = ⊥
SetWithin n (some c) = (c.max_size ≡ n) × (size c ≤ n)

module _ (setup : Setup) (n : ℕ) (positive : 0 < n) where
  Written-SetWithin :
      (now : ℕ) (key content : String) (c : SemanticCache) (o : Option SemanticCache)
      → c.max_size ≡ n
      → Written now key content c o
      → SetWithin n o
  Written-SetWithin now key content c none same h = h
  Written-SetWithin now key content c (some c') same (ttl, max_size, small, found) =
      (max_size ∙ same, omega (arith, small, same))

  set-SetWithin :
      (now : ℕ) (key content : String) (c : SemanticCache)
      → c.max_size ≡ n
      → size c ≤ n
      → SetWithin n (set now key content c)
  set-SetWithin now key content c same small =
      Written-SetWithin now key content c (set now key content c) same
        (set-Written now key content c (omega arith) (omega arith))

  pop_first_bound :
      (max_size : ℕ) (d : Dict (List ℤ × String))
      → max_size ≡ n
      → length d ≤ n + 1
      → length (if ltb max_size (length d) then pop_first d else d) ≤ n
  pop_first_bound max_size [] same h = ground arith
  pop_first_bound max_size (e ∷ d) same h = ground arith

  remember-IsWithin :
      (key : String) (vector : List ℤ × String) (l : Levels)
      → IsWithin n l
      → IsWithin n (remember setup key vector l)
  unfolding IsWithin
  remember-IsWithin key vector l (same, small, few) = (
    same,
    small,
    pop_first_bound l.exact.max_size (insert key vector l.pending) same
        (ground (arith, length-insert_new key vector l.pending)),
  )

  answered-IsWithin :
      (response : String) (l : Levels) (o : Option SemanticCache)
      → length l.pending ≤ n
      → SetWithin n o
      → FoundWithin setup n (answered setup response l o)
  unfolding IsWithin
  answered-IsWithin response l none few h = h
  answered-IsWithin response l (some c) few (same, small) = (same, small, few)

  chosen-IsWithin :
      (now : ℕ) (key : String) (l : Levels) (b : Option CacheCandidate × ℕ)
      → IsWithin n l
      → FoundWithin setup n (chosen setup now key l b)
  unfolding IsWithin
  chosen-IsWithin now key l (none, score) within = within
  chosen-IsWithin now key l (some best, score) (same, small, few) =
      if_both (FoundWithin setup n) (leb setup.threshold score) _ _
        (answered-IsWithin best.response (record l { pending = erase key l.pending })
          (set now key best.response l.exact) (ground (arith, length-erase key l.pending))
          (set-SetWithin now key best.response l.exact same small))
        (same, small, few)

  compare-IsWithin :
      (world : World) (r : Request) (key : String) (vector : List ℤ × String) (l : Levels)
      → IsWithin n l
      → FoundWithin setup n (compare setup world r key vector l)
  compare-IsWithin world r key (embedding, embedding_model) l within =
      let later = remember-IsWithin key (embedding, embedding_model) l within in
      if_both (FoundWithin setup n) (length embedding == 0) _ _ within (
        if_both (FoundWithin setup n) (not world.store_up) _ _ later
          (chosen-IsWithin world.monotonic key _ _ later))

  second_level-IsWithin :
      (world : World) (r : Request) (key : String) (vector : Option (List ℤ × String)) (l : Levels)
      → IsWithin n l
      → FoundWithin setup n (second_level setup world r key vector l)
  second_level-IsWithin world r key none l within = within
  second_level-IsWithin world r key (some vector) l within =
      compare-IsWithin world r key vector l within

  after_exact-IsWithin :
      (world : World) (r : Request) (key : String) (exact : Option String) (l : Levels)
      → IsWithin n l
      → FoundWithin setup n (after_exact setup world r key exact l)
  after_exact-IsWithin world r key (some content) l within = within
  after_exact-IsWithin world r key none l within =
      if_both (FoundWithin setup n) (not setup.enabled || r.workspace_id =? "") _ _ within
        (second_level-IsWithin world r key world.loaded l within)

  lookup-IsWithin :
      (world : World) (r : Request) (l : Levels)
      → IsWithin n l
      → FoundWithin setup n (lookup setup world r l)
  unfolding lookup IsWithin get
  lookup-IsWithin world r l (same, small, few) =
      let key : String = make_key setup r in
      let entry = find key l.exact.cache in
      let (exact, first) = get world.monotonic key l.exact in
      let (size_same, size_small) =
        read-IsBounded world.monotonic key entry l.exact (ground arith) in
      after_exact-IsWithin world r key exact (record l { exact = first })
        (size_same ∙ same, omega arith, few)

  keep_vector-IsWithin :
      (world : World) (r : Request) (response : String) (vector : Option (List ℤ × String))
      (l : Levels)
      → IsWithin n l
      → IsWithin n (keep_vector setup world r response vector l)
  unfolding IsWithin
  keep_vector-IsWithin world r response none l within = within
  keep_vector-IsWithin world r response (some (embedding, embedding_model)) l within =
      if_both (IsWithin n) (length embedding == 0 || not world.store_up) _ _ within within

  store_second-IsWithin :
      (world : World) (r : Request) (key response : String) (l : Levels)
      → IsWithin n l
      → IsWithin n (store_second setup world r key response l)
  unfolding IsWithin
  store_second-IsWithin world r key response l (same, small, few) =
      if_both (IsWithin n) (not setup.enabled || r.workspace_id =? "") _ _ (same, small, few)
        (keep_vector-IsWithin world r response (vector_or setup (find key l.pending) world.loaded)
          (record l { pending = erase key l.pending })
          (same, small, ground (arith, length-erase key l.pending)))

  store_after-IsWithin :
      (world : World) (r : Request) (key response : String) (l : Levels) (o : Option SemanticCache)
      → length l.pending ≤ n
      → SetWithin n o
      → StoredWithin n (store_after setup world r key response l o)
  unfolding IsWithin
  store_after-IsWithin world r key response l none few h = h
  store_after-IsWithin world r key response l (some exact) few (same, small) =
      store_second-IsWithin world r key response (record l { exact = exact }) (same, small, few)

  -- A cache that may hold something, and holds no more than that on both of its levels, neither raises
  -- nor outgrows its bound, whatever the clocks, the embedding model and the database answer to a
  -- lookup or to a store, and also
  -- when it is cleared or an entry is made invalid.
  pub calls-IsWithin :
      (world : World) (r : Request) (response : String) (l : Levels)
      → IsWithin n l
      → FoundWithin setup n (lookup setup world r l)
        × StoredWithin n (store setup world r response l)
        × IsWithin n (clear l)
        × IsWithin n (invalidate (make_key setup r) l)
  unfolding store IsWithin
  calls-IsWithin world r response l (same, small, few) =
      let key : String = make_key setup r in
      (
        lookup-IsWithin world r l (same, small, few),
        store_after-IsWithin world r key response l (set world.monotonic key response l.exact) few
            (set-SetWithin world.monotonic key response l.exact same small),
        (same, omega arith, omega arith),
        (same, ground (arith, length-erase key l.exact.cache), few),
      )
