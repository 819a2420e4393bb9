-- ===== src/Breaker/Registry.antt =====
-- `CircuitBreakerManager` of app/core/circuit_breaker.py, and the way the gateway creates the
-- breaker of a provider (app/llm_gateway/__init__.py, `_ensure_circuit_breaker`). The breakers are
-- shared objects that are only reached by name, so the registry holds their current values.
use Prim.Native.String.{◌++◌ as text_append}
use text.Mathlib.TextLemmas.{append_cancel_left}
use mathlib.Core.Option
use prd2tsd.Prelude.{
  ℕ, ◌*◌, String, ◌≡◌, Option, none, some, List, [], ◌∷◌, Bool, arith, refl, ◌≢◌, eq_iff,
  Option-cases, text_same, inl, inr,
}
use prd2tsd.Prelude.Dict.{Dict, lookup, insert, lookup-insert}
use prd2tsd.Breaker.{CircuitState, CircuitBreaker, init, reset, is_available}

abbrev pub Registry : Type 0
Registry = Dict CircuitBreaker

-- `register`
pub register : CircuitBreaker → Registry → Registry
register b r = insert b.name b r

-- `get`
abbrev pub get : String → Registry → Option CircuitBreaker
get = lookup

-- `to_dict`
pub record Status : Type 0 where
  pub name : String
  pub state : CircuitState
  pub failure_count : ℕ
  pub failure_threshold : ℕ
  pub available : Bool

pub to_dict : ℕ → CircuitBreaker → Status
to_dict now b = record {
  name = b.name;
  state = b.state;
  failure_count = b.failure_count;
  failure_threshold = b.failure_threshold;
  available = is_available now b;
}

-- `get_all_status`
pub get_all_status : ℕ → Registry → List Status
unfolding to_dict
get_all_status now [] = []
get_all_status now ((name, b) ∷ r) = to_dict now b ∷ get_all_status now r

-- `reset_all`
unfoldable pub reset_all : Registry → Registry
reset_all [] = []
reset_all ((name, b) ∷ r) = (name, reset b) ∷ reset_all r

-- `_breaker_name`
pub breaker_name : String → String
breaker_name provider = text_append "provider:" provider

-- `_ensure_circuit_breaker`; `second` is the number of clock ticks in a second.
create_or : Option CircuitBreaker → ℕ → String → Registry → CircuitBreaker × Registry
create_or (some b) second name r = (b, r)
create_or none second name r = let b = init name 3 (30 * second) 1 in (b, insert name b r)

unfoldable pub ensure : ℕ → String → Registry → CircuitBreaker × Registry
unfolding create_or
ensure second provider r = let name = breaker_name provider in create_or (get name r) second name r

pub breaker_name-injective : (p q : String) → breaker_name p ≡ breaker_name q → p ≡ q
unfolding breaker_name
breaker_name-injective p q e = append_cancel_left "provider:" p q e

ensure_named : ℕ → String → Registry → CircuitBreaker × Registry
unfolding create_or
ensure_named second name r = create_or (get name r) second name r

ensure_named-keeps :
    (second : ℕ) (n m : String) (r : Registry)
    → n ≢ m
    → let (b, r') = ensure_named second n r in
      (get n r' ≡ some b)
      × (ensure_named second n r' ≡ (b, r'))
      × (get m r' ≡ get m r)
      × ((old : CircuitBreaker) → get n r ≡ some old → (b ≡ old) × (r' ≡ r))
unfolding ensure_named
ensure_named-keeps second n m r ne = elim (Option-cases (get n r)) [
  | inl fresh ↦ rw fresh (
    rw lookup-insert (rw text_same),
    rw lookup-insert (rw text_same),
    rw lookup-insert (ground (arith, eq_iff n m)),
    λ old h. (cc h, cc h),
  )
  | inr (old, e) ↦ rw e (e, rw e, refl, λ o h. (cc h, refl))
]

-- Asking for the breaker of a provider gives the one that is registered and changes nothing if
-- there is one, whatever state it is in; else it registers one. Asking again gives the same
-- breaker, and the breakers of all other providers stay as they were.
pub ensure_keeps :
    (second : ℕ) (p q : String) (r : Registry)
    → p ≢ q
    → let (b, r') = ensure second p r in
      (get (breaker_name p) r' ≡ some b)
      × (ensure second p r' ≡ (b, r'))
      × (get (breaker_name q) r' ≡ get (breaker_name q) r)
      × ((old : CircuitBreaker) → get (breaker_name p) r ≡ some old → (b ≡ old) × (r' ≡ r))
unfolding ensure ensure_named
ensure_keeps second p q r ne =
    ensure_named-keeps second (breaker_name p) (breaker_name q) r
      (λ e. ne (breaker_name-injective p q e))

lookup-reset_all :
    (name : String) (r : Registry) → lookup name (reset_all r) ≡ Option.map reset (lookup name r)
unfolding lookup reset_all
lookup-reset_all name [] = refl
lookup-reset_all name ((i, b) ∷ r) = ground (arith, lookup-reset_all name r)
