-- ===== src/Failover/Order.antt =====
-- The order of the targets of app/llm_gateway/failover.py and of a route's chain.
use mathlib.Core.Path.{subst}
use prd2tsd.Prelude.{
  leb→le, if_both, ℕ, ◌+◌, ◌≤◌, String, none, some, true, false, List, [], ◌∷◌, ◌≡◌, refl, sym, ap,
  ◌∙◌, arith, All, leb, if◌then◌else◌, Bool-cases, inl, inr,
}
use prd2tsd.Prelude.Dict.{lookup-insert_same}
use prd2tsd.Breaker.Registry.{Registry}
use prd2tsd.Failover.{
  FailoverTarget, Chains, insert_target, sorted, configure, chain_or, get_chain, usable, available,
  get_available_targets, first, get_target, RoutingRule, Fallback, is_other, fallback_targets,
  route_targets, route_key,
}

-- No target of a chain comes before one.
abbrev Least : FailoverTarget → List FailoverTarget → Type 0
Least t = All (λ u. t.priority ≤ u.priority)

abbrev Sorted : List FailoverTarget → Type 0
Sorted [] = Unit
Sorted (t ∷ chain) = Least t chain × Sorted chain

All-trans :
    (t u : FailoverTarget) (chain : List FailoverTarget)
    → t.priority ≤ u.priority
    → Least u chain
    → Least t chain
All-trans t u [] le h = tt
All-trans t u (v ∷ chain) le h = (omega (arith, h.0, le), All-trans t u chain le h.1)

insert_first :
    (t : FailoverTarget) (chain : List FailoverTarget)
    → Least t chain
    → insert_target t chain ≡ t ∷ chain
unfolding insert_target
insert_first t [] h = refl
insert_first t (u ∷ chain) h = ground (arith, h.0)

sorted_keeps : (chain : List FailoverTarget) → Sorted chain → sorted chain ≡ chain
unfolding sorted
sorted_keeps [] h = refl
sorted_keeps (t ∷ chain) h =
    ap (insert_target t) (sorted_keeps chain h.1) ∙ insert_first t chain h.0

-- Insertion and sorting keep what holds of every target.
insert-All :
    (P : FailoverTarget → Type 0) (t : FailoverTarget) (chain : List FailoverTarget)
    → P t
    → All P chain
    → All P (insert_target t chain)
unfolding insert_target
insert-All P t [] pt h = (pt, tt)
insert-All P t (u ∷ chain) pt h = elim (Bool-cases (leb t.priority u.priority)) [
  | inl first ↦ rw first (pt, h)
  | inr later ↦ rw later (h.0, insert-All P t chain pt h.1)
]

insert-Sorted :
    (t : FailoverTarget) (chain : List FailoverTarget)
    → Sorted chain
    → Sorted (insert_target t chain)
unfolding insert_target
insert-Sorted t [] h = (tt, tt)
insert-Sorted t (u ∷ chain) h = elim (Bool-cases (leb t.priority u.priority)) [
  | inl first ↦ rw first (
    (
      leb→le t.priority u.priority first,
      All-trans t u chain (leb→le t.priority u.priority first) h.0,
    ),
    h,
  )
  | inr later ↦ rw later (
    insert-All (λ v. u.priority ≤ v.priority) t chain (ground (arith, later)) h.0,
    insert-Sorted t chain h.1,
  )
]

uninsert-All :
    (P : FailoverTarget → Type 0) (t : FailoverTarget) (chain : List FailoverTarget)
    → All P (insert_target t chain)
    → P t × All P chain
unfolding insert_target
uninsert-All P t [] h = (h.0, tt)
uninsert-All P t (u ∷ chain) h = elim (Bool-cases (leb t.priority u.priority)) [
  | inl first ↦
      subst (λ b. All P (if b then t ∷ (u ∷ chain) else u ∷ insert_target t chain)) first h
  | inr later ↦
      let (pu, rest) =
        subst (λ b. All P (if b then t ∷ (u ∷ chain) else u ∷ insert_target t chain)) later h in
      let (pt, all) = uninsert-All P t chain rest in (pt, (pu, all))
]

sorted-Sorted : (chain : List FailoverTarget) → Sorted (sorted chain)
unfolding sorted
sorted-Sorted [] = tt
sorted-Sorted (t ∷ chain) = insert-Sorted t (sorted chain) (sorted-Sorted chain)

sorted-All :
    (P : FailoverTarget → Type 0) (chain : List FailoverTarget) → All P chain → All P (sorted chain)
unfolding sorted
sorted-All P [] h = tt
sorted-All P (t ∷ chain) h = insert-All P t (sorted chain) h.0 (sorted-All P chain h.1)

-- Back from the sorted chain.
unsorted-All :
    (P : FailoverTarget → Type 0) (chain : List FailoverTarget) → All P (sorted chain) → All P chain
unfolding sorted
unsorted-All P [] h = tt
unsorted-All P (t ∷ chain) h =
    let split = uninsert-All P t (sorted chain) h in (split.0, unsorted-All P chain split.1)

-- The first of the usable targets of a sorted chain.
abbrev pub Best : ℕ → Registry → List FailoverTarget → FailoverTarget → Type 0
Best now r chain t =
    (usable now r t ≡ true) × All (λ u. usable now r u ≡ true → t.priority ≤ u.priority) chain

weaker :
    (now : ℕ) (r : Registry) (t : FailoverTarget) (chain : List FailoverTarget)
    → Least t chain
    → All (λ u. usable now r u ≡ true → t.priority ≤ u.priority) chain
weaker now r t [] h = tt
weaker now r t (u ∷ chain) h = (λ e. h.0, weaker now r t chain h.1)

first-Best :
    (now : ℕ) (r : Registry) (chain : List FailoverTarget) (t : FailoverTarget)
    → Sorted chain
    → first (available now r chain) ≡ some t
    → Best now r chain t
unfolding available first
first-Best now r [] t h e = ground (arith, e)
first-Best now r (u ∷ chain) t h e = elim (Bool-cases (usable now r u)) [
  | inl usable_u ↦
      let same : u ≡ t = ground (arith, e, usable_u) in
      subst (Best now r (u ∷ chain)) same (usable_u, (λ e'. omega arith, weaker now r u chain h.0))
  | inr not_u ↦
      let (good, least) = first-Best now r chain t h.1 (ground (arith, e, not_u)) in
      (good, (λ e'. ground (arith, e', not_u), least))
]

every_one_refused :
    (now : ℕ) (r : Registry) (chain : List FailoverTarget)
    → first (available now r chain) ≡ none
    → All (λ u. usable now r u ≡ false) chain
unfolding available first
every_one_refused now r [] e = tt
every_one_refused now r (u ∷ chain) e =
    (ground (arith, e), every_one_refused now r chain (ground (arith, e)))

configured_target :
    (now : ℕ) (r : Registry) (model_type : String) (chain : List FailoverTarget) (chains : Chains)
    → get_target now r model_type (configure model_type chain chains)
      ≡ first (available now r (sorted chain))
unfolding get_target get_available_targets get_chain configure
configured_target now r model_type chain chains =
    ap (λ o. first (available now r (chain_or o)))
      (lookup-insert_same model_type (sorted chain) chains)

-- The target that is given for a configured chain can be tried, and comes before no other that can;
-- none is given only if no target of the chain can be tried.
pub get_target-Best :
    (now : ℕ) (r : Registry) (model_type : String) (chain : List FailoverTarget) (chains : Chains)
    → ((t : FailoverTarget)
        → get_target now r model_type (configure model_type chain chains) ≡ some t
        → (usable now r t ≡ true)
          × All (λ u. usable now r u ≡ true → t.priority ≤ u.priority) chain)
      × (get_target now r model_type (configure model_type chain chains) ≡ none
          → All (λ u. usable now r u ≡ false) chain)
get_target-Best now r model_type chain chains =
    let e : get_target now r model_type (configure model_type chain chains)
        ≡ first (available now r (sorted chain)) =
      configured_target now r model_type chain chains in
    (
      λ t given.
          let (good, least) =
            first-Best now r (sorted chain) t (sorted-Sorted chain) (sym e ∙ given) in
          (good, unsorted-All (λ u. usable now r u ≡ true → t.priority ≤ u.priority) chain least),
      λ given.
          unsorted-All (λ u. usable now r u ≡ false) chain
            (every_one_refused now r (sorted chain) (sym e ∙ given)),
    )

fallback-Least :
    (rule : RoutingRule) (start p : ℕ) (fallbacks : List Fallback)
    → p ≤ start
    → All (λ u. p ≤ u.priority) (fallback_targets rule start fallbacks)
unfolding fallback_targets
fallback-Least rule start p [] le = tt
fallback-Least rule start p (f ∷ fallbacks) le =
    let rest = fallback-Least rule (start + 1) p fallbacks (omega (arith, le)) in
    if_both (All (λ u. p ≤ u.priority)) (is_other f rule.provider rule.model) _ _ (le, rest) rest

fallback-Sorted :
    (rule : RoutingRule) (start : ℕ) (fallbacks : List Fallback)
    → Sorted (fallback_targets rule start fallbacks)
unfolding fallback_targets
fallback-Sorted rule start [] = tt
fallback-Sorted rule start (f ∷ fallbacks) =
    let rest = fallback-Sorted rule (start + 1) fallbacks in
    if_both Sorted (is_other f rule.provider rule.model) _ _
      (fallback-Least rule (start + 1) start fallbacks (omega arith), rest) rest

route-Sorted : (rule : RoutingRule) → Sorted (route_targets rule)
unfolding route_targets
route-Sorted rule =
    (fallback-Least rule 1 0 rule.fallbacks (omega arith), fallback-Sorted rule 1 rule.fallbacks)

-- The chain of a route is kept in the order in which it is built: the rule's own target, then its
-- fallbacks as the configuration lists them.
pub route_in_order :
    (task_type : String) (rule : RoutingRule) (chains : Chains)
    → get_chain
        (route_key task_type rule)
        (configure (route_key task_type rule) (route_targets rule) chains)
      ≡ route_targets rule
unfolding get_chain configure
route_in_order task_type rule chains =
    ap chain_or (lookup-insert_same (route_key task_type rule) (sorted (route_targets rule)) chains)
    ∙ sorted_keeps (route_targets rule) (route-Sorted rule)
