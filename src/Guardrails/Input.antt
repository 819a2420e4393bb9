-- ===== src/Guardrails/Input.antt =====
-- What `_guard_input` lets through (app/llm_gateway/__init__.py with app/llm_gateway/guardrails).
use mathlib.Core.Path.{subst}
use prd2tsd.Prelude.{
  ℕ, String, Option, none, some, Bool, true, false, List, [], ◌∷◌, ◌≡◌, refl, sym, ap, ◌∙◌, arith,
  any, if◌then◌else◌, Bool-cases, inl, inr, ◌=?◌,
}
use prd2tsd.Breaker.{CircuitBreaker, CircuitState, closed, opened, half_open, is_available}
use prd2tsd.Guardrails.{
  GuardrailResult, Context, register, check_input, apply_input, masked_or, Guarded, lets, blocks,
  timeout_check, passed_deadline, check_breaker, check_breakers, block, pass_with, deadline_passed,
  chain_usable, chain_open, info, breaker_or, half_open_or_closed,
}
use prd2tsd.Guardrails.Patterns.{
  Engine, Pattern, pii_patterns, masked, found_pii, pii_result, pii_check, injection_check,
  registered, guard_input, masked_input,
}

module _ (engine : Engine) where
  -- A text in which no pattern is found is not changed.
  masked_none :
      (patterns : List (Pattern × String)) (text result : String)
      → found_pii engine patterns text ≡ []
      → masked engine patterns text result ≡ result
  unfolding masked found_pii
  masked_none [] text result h = refl
  masked_none ((p, kind) ∷ patterns) text result h = elim (Bool-cases (engine.search p text)) [
    | inl found ↦ absurd (cc (found, h))
    | inr missing ↦ rw missing (masked_none patterns text result (ground (arith, missing, h)))
  ]

  injection_unmasked :
      (block_threshold : ℕ) (text : String) (context : Context)
      → (injection_check engine block_threshold text context).masked_text ≡ none
  unfolding injection_check
  injection_unmasked block_threshold text context = ground arith

  state_unmasked : (state : CircuitState) → (half_open_or_closed state).masked_text ≡ none
  state_unmasked closed = refl
  state_unmasked opened = refl
  state_unmasked half_open = refl

  breaker_unmasked :
      (now : ℕ) (o : Option CircuitBreaker) → (check_breaker now o).masked_text ≡ none
  breaker_unmasked now none = refl
  breaker_unmasked now (some b) = elim (Bool-cases (is_available now b)) [
    | inl usable ↦ rw usable (state_unmasked b.state)
    | inr over ↦ rw over
  ]

  breakers_unmasked :
      (now : ℕ) (breakers : List CircuitBreaker) (o : Option CircuitBreaker)
      → (check_breakers now breakers o).masked_text ≡ none
  breakers_unmasked now [] o = breaker_unmasked now o
  breakers_unmasked now (b ∷ breakers) o = ground arith

  timeout_unmasked :
      (own : Option CircuitBreaker) (text : String) (context : Context)
      → (timeout_check own text context).masked_text ≡ none
  unfolding timeout_check
  timeout_unmasked own text context = elim (Bool-cases (passed_deadline context.timeout_seconds)) [
    | inl late ↦ rw late
    | inr early ↦ rw early (
        breakers_unmasked context.now context.circuit_breakers
          (breaker_or context.circuit_breaker own))
  ]

  -- Three results of which the second lets the prompt through.
  three :
      (prompt text : String) (i p t : GuardrailResult)
      → i.masked_text ≡ none
      → p.blocked ≡ false
      → masked_or p.masked_text prompt ≡ text
      → t.masked_text ≡ none
      → apply_input prompt (
          if i.blocked
          then i ∷ []
          else i ∷ (if p.blocked then p ∷ [] else p ∷ (if t.blocked then t ∷ [] else t ∷ [])))
        ≡ (if i.blocked then blocks i else if t.blocked then blocks t else lets text)
  unfolding apply_input
  three prompt text i p t hi hp hm ht = ground (arith, hi, hp, hm, ht)

  masked_if :
      (a b : Bool) (i t : GuardrailResult) (text : String)
      → masked_input engine (if a then blocks i else if b then blocks t else lets text) ≡ (
          if a
          then blocks i
          else if b
          then blocks t
          else lets (if text =? "" then text else engine.mask_reversible text))
  masked_if true b i t text = refl
  masked_if false true i t text = refl
  masked_if false false i t text = refl

  pii_lets : (text : String) (kinds : List String) → (pii_result engine text kinds).blocked ≡ false
  pii_lets text [] = refl
  pii_lets text (kind ∷ kinds) = refl

  pii_text :
      (prompt : String) (kinds : List String)
      → found_pii engine pii_patterns prompt ≡ kinds
      → masked_or
          (pii_result engine (masked engine pii_patterns prompt prompt) kinds).masked_text
          prompt
        ≡ masked engine pii_patterns prompt prompt
  pii_text prompt [] h = sym (masked_none pii_patterns prompt prompt h)
  pii_text prompt (kind ∷ kinds) h = refl

  -- What the gateway's guardrails decide about a prompt.
  abbrev pub verdict : ℕ → String → Context → Guarded
  verdict block_threshold prompt context =
      let injection = injection_check engine block_threshold prompt context in
      let timeout = timeout_check none prompt context in
      let text = masked engine pii_patterns prompt prompt in
      if injection.blocked
      then blocks (record injection { name = "prompt_injection" })
      else if timeout.blocked
      then blocks (record timeout { name = "timeout_guardrail" })
      else lets (if text =? "" then text else engine.mask_reversible text)

  -- A prompt is blocked by the search for injections, or else by the deadline and the breakers, or
  -- else goes to the masking engine with its personal data masked.
  pub guard_input-verdict :
      (block_threshold : ℕ) (prompt : String) (context : Context)
      → guard_input engine (registered engine block_threshold) prompt context
        ≡ verdict block_threshold prompt context
  unfolding guard_input registered register check_input pii_check
  guard_input-verdict block_threshold prompt context =
      let i : GuardrailResult = record (injection_check engine block_threshold prompt context) {
        name = "prompt_injection";
      } in
      let p : GuardrailResult = record (pii_check engine prompt context) {
        name = "pii_detector";
      } in
      let t : GuardrailResult = record (timeout_check none prompt context) {
        name = "timeout_guardrail";
      } in
      let text : String = masked engine pii_patterns prompt prompt in
      ap (masked_input engine) (
        three prompt text i p t (injection_unmasked block_threshold prompt context)
          (pii_lets text (found_pii engine pii_patterns prompt))
          (pii_text prompt (found_pii engine pii_patterns prompt) refl)
          (timeout_unmasked none prompt context))
      ∙ masked_if i.blocked t.blocked i t text

  lets_unblocked :
      (a b : Bool) (i t : GuardrailResult) (text sent : String)
      → (if a then blocks i else if b then blocks t else lets text) ≡ lets sent
      → b ≡ false
  lets_unblocked true b i t text sent h = absurd (cc h)
  lets_unblocked false true i t text sent h = absurd (cc h)
  lets_unblocked false false i t text sent h = refl

  unblocked :
      (late usable : Bool)
      → (if late
          then block deadline_passed
          else if usable
          then pass_with chain_usable info
          else block chain_open).blocked
        ≡ false
      → (usable ≡ true) × (late ≡ false)
  unblocked true usable h = absurd (cc h)
  unblocked false true h = (refl, refl)
  unblocked false false h = absurd (cc h)

  open_blocks :
      (own : Option CircuitBreaker) (prompt : String) (context : Context) (b : CircuitBreaker)
      (breakers : List CircuitBreaker)
      → context.circuit_breakers ≡ b ∷ breakers
      → (timeout_check own prompt context).blocked ≡ false
      → (any (is_available context.now) (b ∷ breakers) ≡ true)
        × (passed_deadline context.timeout_seconds ≡ false)
  unfolding timeout_check
  open_blocks own prompt context b breakers known lets_it =
      unblocked (passed_deadline context.timeout_seconds)
        (any (is_available context.now) (b ∷ breakers))
        (subst
          (λ l.
            (if passed_deadline context.timeout_seconds
              then block deadline_passed
              else check_breakers context.now l (breaker_or context.circuit_breaker own)).blocked
            ≡ false)
          known lets_it)

  -- A prompt that is let through reaches the providers before its deadline, and while the breaker of
  -- at least one provider of its route is available.
  pub let_through_usable :
      (block_threshold : ℕ) (prompt sent : String) (context : Context) (b : CircuitBreaker)
      (breakers : List CircuitBreaker)
      → context.circuit_breakers ≡ b ∷ breakers
      → guard_input engine (registered engine block_threshold) prompt context ≡ lets sent
      → (any (is_available context.now) (b ∷ breakers) ≡ true)
        × (passed_deadline context.timeout_seconds ≡ false)
  let_through_usable block_threshold prompt sent context b breakers known through =
      open_blocks none prompt context b breakers known (
        lets_unblocked (injection_check engine block_threshold prompt context).blocked
          (timeout_check none prompt context).blocked _ _ _ sent
          (sym (guard_input-verdict block_threshold prompt context) ∙ through))
