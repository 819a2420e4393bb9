-- ===== src/Failover/Downgrade.antt =====
-- The switch to a cheaper model when a budget runs out (app/llm_gateway/__init__.py,
-- `_apply_budget_downgrade`).
use mathlib.Core.Path.{subst}
use prd2tsd.Prelude.{
  String, some, Bool, true, false, List, [], ◌∷◌, ◌≡◌, refl, sym, ◌&&◌, not, ◌||◌, All-map, arith,
  All, any, ◌=?◌, if◌then◌else◌, text_same,
}
use prd2tsd.Failover.{RoutingRule, Fallback}

-- `_get_low_cost_model`
unfoldable pub get_low_cost_model : String → String
get_low_cost_model model = if model =? "gpt-4o" then "deepseek-chat" else "gpt-4o-mini"

-- The provider of a cheap model.
unfoldable pub downgrade_provider : String → String
downgrade_provider model = if model =? "deepseek-chat" then "deepseek" else "openai"

-- `all(key)`
abbrev pub is_complete : Fallback → Bool
is_complete f = not (f.provider =? "") && not (f.model =? "")

-- `key in seen`
abbrev pub is_seen : Fallback → List (String × String) → Bool
is_seen f seen = any (λ key. key.0 =? f.provider && key.1 =? f.model) seen

-- The loop over the fallbacks.
unfoldable pub unseen : List (String × String) → List Fallback → List Fallback
unseen seen [] = []
unseen seen (f ∷ fallbacks) =
    let kept = unseen ((f.provider, f.model) ∷ seen) fallbacks in
    let skipped = unseen seen fallbacks in
    if is_complete f && not (is_seen f seen) then f ∷ kept else skipped

-- The target that the rule had.
abbrev pub original : RoutingRule → String → Fallback
original rule model_name = record {
  provider = rule.provider;
  model = model_name;
  kind = some rule.kind;
}

-- `_apply_budget_downgrade`: the changed rule, and the model that is called.
unfoldable pub apply_budget_downgrade : RoutingRule → String → RoutingRule × String
apply_budget_downgrade rule model_name =
    let low = get_low_cost_model model_name in
    let provider = downgrade_provider low in
    if provider =? rule.provider && low =? model_name then (rule, model_name) else (
      record {
        kind = "llm";
        provider = provider;
        model = low;
        fallbacks = unseen ((provider, low) ∷ []) (original rule model_name ∷ rule.fallbacks);
      },
      low,
    )

if_both_at :
    {A : Type 0} (Q : A → Type 0) (b : Bool) (x y : A)
    → (b ≡ true → Q x)
    → (b ≡ false → Q y)
    → Q (if b then x else y)
if_both_at Q true x y hx hy = hx refl
if_both_at Q false x y hx hy = hy refl

not_seen : (whole seen : Bool) → (whole && not seen) ≡ true → seen ≡ false
not_seen whole seen h = ground (arith, h)

-- No fallback repeats one before it, or a key that is seen already.
abbrev pub Distinct : List (String × String) → List Fallback → Type 0
Distinct seen [] = Unit
Distinct seen (f ∷ fallbacks) =
    (is_seen f seen ≡ false) × Distinct ((f.provider, f.model) ∷ seen) fallbacks

abbrev pub keys : List Fallback → List (String × String)
keys [] = []
keys (f ∷ fallbacks) = (f.provider, f.model) ∷ keys fallbacks

unseen-Distinct :
    (seen : List (String × String)) (fallbacks : List Fallback)
    → Distinct seen (unseen seen fallbacks)
unfolding unseen
unseen-Distinct seen [] = tt
unseen-Distinct seen (f ∷ fallbacks) =
    if_both_at (Distinct seen) (is_complete f && not (is_seen f seen)) _ _
      (λ new. (
        not_seen (is_complete f) (is_seen f seen) new,
        unseen-Distinct ((f.provider, f.model) ∷ seen) fallbacks,
      ))
      (λ old. unseen-Distinct seen fallbacks)

-- A complete fallback is among the keys that were seen, or is kept.
abbrev Covered : List (String × String) → List Fallback → Fallback → Type 0
Covered seen out g = is_complete g ≡ true → (is_seen g seen || is_seen g (keys out)) ≡ true

shifted :
    (f g : Fallback) (seen : List (String × String)) (out : List Fallback)
    → Covered ((f.provider, f.model) ∷ seen) out g
    → Covered seen (f ∷ out) g
shifted f g seen out h whole = ground (arith, h whole)

own_key :
    (f : Fallback) (seen : List (String × String)) (out : List Fallback) → Covered seen (f ∷ out) f
own_key f seen out whole = ground (arith, text_same f.provider, text_same f.model)

unseen-Covered :
    (seen : List (String × String)) (fallbacks : List Fallback)
    → All (Covered seen (unseen seen fallbacks)) fallbacks
unfolding unseen
unseen-Covered seen [] = tt
unseen-Covered seen (f ∷ fallbacks) =
    let kept : List Fallback = unseen ((f.provider, f.model) ∷ seen) fallbacks in
    if_both_at (λ out. All (Covered seen out) (f ∷ fallbacks))
      (is_complete f && not (is_seen f seen)) (f ∷ kept) (unseen seen fallbacks)
      (λ new. (
        own_key f seen kept,
        All-map (λ g. shifted f g seen kept) fallbacks
            (unseen-Covered ((f.provider, f.model) ∷ seen) fallbacks),
      ))
      (λ old. (λ whole. ground (arith, whole, old), unseen-Covered seen fallbacks))

-- The targets of a changed rule are different, and the given ones are among them.
abbrev pub NoneLost : List Fallback → RoutingRule × String → Type 0
NoneLost fallbacks (rule, model) =
    let main : List (String × String) = (rule.provider, rule.model) ∷ [] in
    (rule.model ≡ model)
    × Distinct main rule.fallbacks
    × All (λ g. is_complete g ≡ true → (is_seen g main || is_seen g (keys rule.fallbacks)) ≡ true)
        fallbacks

-- A downgrade to another model loses no target: the one that the rule had and each fallback that
-- names a provider and a model are still the rule's target or one of its fallbacks, and no fallback
-- repeats the target or another fallback.
pub downgrade_keeps :
    (rule : RoutingRule) (model_name : String)
    → (downgrade_provider (get_low_cost_model model_name) =? rule.provider
        && get_low_cost_model model_name =? model_name)
      ≡ false
    → NoneLost (original rule model_name ∷ rule.fallbacks) (apply_budget_downgrade rule model_name)
unfolding apply_budget_downgrade
downgrade_keeps rule model_name other =
    let low : String = get_low_cost_model model_name in
    let main : List (String × String) = (downgrade_provider low, low) ∷ [] in
    let all : List Fallback = original rule model_name ∷ rule.fallbacks in
    let changed : RoutingRule = record {
      kind = "llm";
      provider = downgrade_provider low;
      model = low;
      fallbacks = unseen main all;
    } in
    subst (λ b. NoneLost all (if b then (rule, model_name) else (changed, low))) (sym other)
      (refl, unseen-Distinct main all, unseen-Covered main all)
