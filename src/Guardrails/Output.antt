-- ===== src/Guardrails/Output.antt =====
-- What `_guard_output` delivers (app/llm_gateway/__init__.py with app/llm_gateway/guardrails).
use mathlib.Core.Path.{subst}
use prd2tsd.Prelude.{
  ℕ, String, Option, none, some, Bool, true, false, ◌&&◌, List, [], ◌∷◌, ◌≡◌, refl, sym, ap, arith,
  if◌then◌else◌, Bool-cases, inl, inr, leb,
}
use prd2tsd.Guardrails.{
  GuardrailResult, Context, register, check_output, apply_output, Delivered, content, is_critical,
  empty_check, retry_check, pass, block, sensitive, critical, decide_retry, first_blocked, by_error,
  retries_used_up,
}
use prd2tsd.Guardrails.Patterns.{
  Engine, Pattern, blocked_content, safety_from, validator_check, registered, guard_output,
}

module _ (engine : Engine) where
  -- The first pattern that a text contains.
  abbrev pub first_found : List (Pattern × String) → String → Option (Pattern × String)
  first_found [] text = none
  first_found ((p, name) ∷ patterns) text =
      let rest = first_found patterns text in if engine.search p text then some (p, name) else rest

  -- The content that leaves the gateway: with the first pattern masked that it contains.
  abbrev pub with_mask : Option (Pattern × String) → String → String
  with_mask none text = text
  with_mask (some (p, name)) text = engine.sub p "[MASKED]" text

  abbrev FirstMasked : String → Option (Pattern × String) → GuardrailResult → Type 0
  FirstMasked text none r = r ≡ pass
  FirstMasked text (some (p, name)) r =
      r ≡ record (block (sensitive name)) { masked_text = some (engine.sub p "[MASKED]" text) }

  safety_from-FirstMasked :
      (patterns : List (Pattern × String)) (text : String)
      → FirstMasked text (first_found patterns text) (safety_from engine patterns text)
  unfolding safety_from
  safety_from-FirstMasked [] text = refl
  safety_from-FirstMasked ((p, name) ∷ patterns) text = elim (Bool-cases (engine.search p text)) [
    | inl found ↦ rw found refl
    | inr missing ↦ rw missing (safety_from-FirstMasked patterns text)
  ]

  validator_passes :
      (text : String) (context : Context) → (validator_check engine text context).blocked ≡ false
  unfolding validator_check
  validator_passes text context = ground arith

  empty_passes : (text : String) (context : Context) → (empty_check text context).blocked ≡ false
  unfolding empty_check
  empty_passes text context = ground arith

  abbrev used_up : GuardrailResult
  used_up = record pass { passed = false; reason = retries_used_up 3; severity = critical }

  never_blocks : (b : Bool) → (if b then used_up else by_error "gpt-4o-mini" "").blocked ≡ false
  never_blocks true = refl
  never_blocks false = refl

  retry_passes :
      (text : String) (context : Context)
      → context.previous_guardrail_results ≡ []
      → context.error_type ≡ ""
      → (retry_check 3 "gpt-4o-mini" text context).blocked ≡ false
  unfolding retry_check
  retry_passes text context no_results no_error =
      subst (λ l. (decide_retry 3 "gpt-4o-mini" (first_blocked l) context).blocked ≡ false)
        (sym no_results)
        (subst
          (λ e.
            (if leb 3 context.retry_count then used_up else by_error "gpt-4o-mini" e).blocked
            ≡ false)
          (sym no_error) (never_blocks (leb 3 context.retry_count)))

  abbrev chain : GuardrailResult → GuardrailResult → GuardrailResult → List GuardrailResult
  chain v e t =
      if v.blocked && is_critical v.severity
      then v ∷ []
      else v
        ∷ (if e.blocked && is_critical e.severity
            then e ∷ []
            else e ∷ (if t.blocked && is_critical t.severity then t ∷ [] else t ∷ []))

  quiet :
      (g : Delivered) (o : Option GuardrailResult) (v e t : GuardrailResult)
      → v.blocked ≡ false
      → e.blocked ≡ false
      → t.blocked ≡ false
      → apply_output g o (chain v e t) ≡ (g, o)
  unfolding apply_output
  quiet g o v e t hv he ht = ground (arith, hv, he, ht)

  abbrev safety_named : GuardrailResult → GuardrailResult
  safety_named s = record s { name = "content_safety" }

  abbrev blocked_by : Option (Pattern × String) → GuardrailResult → Option GuardrailResult
  blocked_by none s = none
  blocked_by (some f) s = some (safety_named s)

  after_safety :
      (text : String) (o : Option (Pattern × String)) (s v e t : GuardrailResult)
      → FirstMasked text o s
      → v.blocked ≡ false
      → e.blocked ≡ false
      → t.blocked ≡ false
      → apply_output (content text) none (
          if s.blocked && is_critical s.severity
          then safety_named s ∷ []
          else safety_named s ∷ chain v e t)
        ≡ (content (with_mask o text), blocked_by o s)
  unfolding apply_output
  after_safety text none s v e t hs hv he ht =
      subst
        (λ x.
          apply_output (content text) none (
            if x.blocked && is_critical x.severity
            then safety_named x ∷ []
            else safety_named x ∷ chain v e t)
          ≡ (content text, none))
        (sym hs) (quiet (content text) none v e t hv he ht)
  after_safety text (some (p, name)) s v e t hs hv he ht =
      subst
        (λ x.
          apply_output (content text) none (
            if x.blocked && is_critical x.severity
            then safety_named x ∷ []
            else safety_named x ∷ chain v e t)
          ≡ (content (engine.sub p "[MASKED]" text), some (safety_named x)))
        (sym hs) refl

  -- The gateway gives its output guardrails neither earlier results nor an error type. Then what it
  -- delivers is the text of the provider, unmasked and with the first forbidden pattern masked that it
  -- contains, whatever else is wrong with it: a second forbidden pattern stays, and an empty text or
  -- one that is not JSON is delivered.
  pub delivers_exactly :
      (block_threshold : ℕ) (text : String) (context : Context)
      → context.previous_guardrail_results ≡ []
      → context.error_type ≡ ""
      → let unmasked = engine.unmask text in
        (guard_output engine (registered engine block_threshold) text context).0
        ≡ content (with_mask (first_found blocked_content unmasked) unmasked)
  unfolding guard_output registered register check_output
  delivers_exactly block_threshold text context no_results no_error =
      let u : String = engine.unmask text in
      ap (λ (p : Delivered × Option GuardrailResult). p.0)
        (after_safety u (first_found blocked_content u) (safety_from engine blocked_content u)
          (record (validator_check engine u context) { name = "output_validator" })
          (record (empty_check u context) { name = "empty_response_guardrail" })
          (record (retry_check 3 "gpt-4o-mini" u context) { name = "retry_decision_guardrail" })
          (safety_from-FirstMasked blocked_content u) (validator_passes u context)
          (empty_passes u context) (retry_passes u context no_results no_error))
