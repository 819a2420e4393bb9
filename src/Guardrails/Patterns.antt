-- ===== src/Guardrails/Patterns.antt =====
-- The guardrails that search a text: prompt_injection.py, pii_detector.py, content_safety.py and
-- output_validator.py of app/llm_gateway/guardrails, and the gateway's use of them. A pattern is a
-- name for its regular expression; the numbers of matches that a reason quotes are left out.
use prd2tsd.Prelude.{
  ℕ, ◌+◌, String, Option, none, some, Bool, not, List, [], ◌∷◌, leb, ◌==◌, ◌=?◌, ◌&&◌, ◌||◌, any,
  if◌then◌else◌, max,
}
use prd2tsd.Guardrails.{
  warning, injection, pii, sensitive, not_json, GuardrailResult, pass, pass_with, warn, block,
  Context, timeout_check, empty_check, retry_check, Stage, pre_llm, post_llm, Guardrail, Manager,
  register, check_input, check_output, Guarded, lets, blocks, apply_input, Delivered, content,
  apply_output,
}

pub data Pattern : Type 0 where
  instruction_override : Pattern
  prompt_exfiltration : Pattern
  role_override : Pattern
  role_delimiter : Pattern
  encoded_instruction : Pattern
  zh_instruction_override : Pattern
  zh_prompt_exfiltration : Pattern
  zh_role_override : Pattern
  identity_card : Pattern
  mobile_number : Pattern
  bank_card : Pattern
  email : Pattern
  api_key : Pattern
  secret : Pattern
  password : Pattern
  token : Pattern
  private_key : Pattern

-- The libraries and the masking engine.
pub record Engine : Type 0 where
  pub search : Pattern → String → Bool
  pub sub : Pattern → String → String → String
  pub normalize : String → String
  pub fenced : String → Option String
  pub strip : String → String
  pub is_json : String → Bool
  pub mask_reversible : String → String
  pub unmask : String → String

-- RISK_PATTERNS, with the weights and the categories.
pub record Risk : Type 0 where
  pub pattern_of : Pattern
  pub weight : ℕ
  pub category : String

abbrev risk : Pattern → ℕ → String → Risk
risk p w c = record { pattern_of = p; weight = w; category = c }

abbrev pub risk_patterns : List Risk
risk_patterns =
    risk instruction_override 4 "instruction_override"
    ∷ risk prompt_exfiltration 4 "prompt_exfiltration"
    ∷ risk role_override 3 "role_override"
    ∷ risk role_delimiter 3 "role_delimiter"
    ∷ risk encoded_instruction 2 "encoded_instruction"
    ∷ risk zh_instruction_override 4 "zh_instruction_override"
    ∷ risk zh_prompt_exfiltration 4 "zh_prompt_exfiltration"
    ∷ risk zh_role_override 3 "zh_role_override"
    ∷ []

-- PII_PATTERNS
abbrev pub pii_patterns : List (Pattern × String)
pii_patterns =
    (identity_card, "身份证号") ∷ (mobile_number, "手机号") ∷ (bank_card, "银行卡号") ∷ (email, "邮箱地址") ∷ []

-- BLOCKED_CONTENT
abbrev pub blocked_content : List (Pattern × String)
blocked_content =
    (api_key, "api_key")
    ∷ (secret, "secret")
    ∷ (password, "password")
    ∷ (token, "token")
    ∷ (private_key, "private_key")
    ∷ []

module _ (engine : Engine) where
  -- PromptInjectionGuardrail: the categories that match, and their score.
  unfoldable pub matched : List Risk → String → List String
  matched [] text = []
  matched (r ∷ risks) text =
      let rest = matched risks text in
      if engine.search r.pattern_of text then r.category ∷ rest else rest

  unfoldable pub score : List Risk → String → ℕ
  score [] text = 0
  score (r ∷ risks) text =
      let rest = score risks text in
      if engine.search r.pattern_of text then r.weight + rest else rest

  -- `weight >= 4 and category in matched`
  abbrev pub is_high : List String → Risk → Bool
  is_high categories r = leb 4 r.weight && any (λ c. c =? r.category) categories

  unfoldable pub injection_check : ℕ → String → Context → GuardrailResult
  injection_check block_threshold text context =
      let normalized = engine.normalize text in
      let categories = matched risk_patterns normalized in
      let total = score risk_patterns normalized in
      if any (is_high categories) risk_patterns || leb (max 1 block_threshold) total
      then block (injection categories total)
      else if total == 0
      then pass
      else pass_with (injection categories total) warning

  -- PIIDetectorGuardrail, whose ACTION is "mask".
  unfoldable pub masked : List (Pattern × String) → String → String → String
  masked [] text result = result
  masked ((p, kind) ∷ patterns) text result =
      masked patterns text
        (if engine.search p text then engine.sub p "[PII_MASKED]" result else result)

  unfoldable pub found_pii : List (Pattern × String) → String → List String
  found_pii [] text = []
  found_pii ((p, kind) ∷ patterns) text =
      let rest = found_pii patterns text in if engine.search p text then kind ∷ rest else rest

  abbrev pub pii_result : String → List String → GuardrailResult
  pii_result text [] = pass
  pii_result text (kind ∷ kinds) = record (pass_with (pii (kind ∷ kinds)) warning) {
    masked_text = some text;
  }

  unfoldable pub pii_check : String → Context → GuardrailResult
  pii_check text context = pii_result (masked pii_patterns text text) (found_pii pii_patterns text)

  -- ContentSafetyGuardrail
  unfoldable pub safety_from : List (Pattern × String) → String → GuardrailResult
  safety_from [] text = pass
  safety_from ((p, name) ∷ patterns) text =
      let rest = safety_from patterns text in
      if engine.search p text
      then record (block (sensitive name)) { masked_text = some (engine.sub p "[MASKED]" text) }
      else rest

  abbrev pub safety_check : String → Context → GuardrailResult
  safety_check text context = safety_from blocked_content text

  -- OutputValidatorGuardrail; the context says whether JSON is expected.
  abbrev pub fenced_or : Option String → String → String
  fenced_or none text = engine.strip text
  fenced_or (some inner) text = engine.strip inner

  unfoldable pub validator_check : String → Context → GuardrailResult
  validator_check text context =
      if not context.expects_json
      then pass
      else if engine.is_json (fenced_or (engine.fenced text) text)
      then pass
      else warn not_json

  abbrev guardrail : String → Stage → (String → Context → GuardrailResult) → Guardrail
  guardrail name stage check = record { name = name; stage = stage; check = check }

  -- The guardrails that the gateway registers, in their order.
  unfoldable pub registered : ℕ → Manager
  registered block_threshold =
      register (guardrail "retry_decision_guardrail" post_llm (retry_check 3 "gpt-4o-mini")) (
        register (guardrail "empty_response_guardrail" post_llm empty_check) (
          register (guardrail "output_validator" post_llm validator_check) (
            register (guardrail "content_safety" post_llm safety_check) (
              register (guardrail "timeout_guardrail" pre_llm (timeout_check none)) (
                register (guardrail "pii_detector" pre_llm pii_check) (
                  register (guardrail "prompt_injection" pre_llm (injection_check block_threshold))
                    (record { pre_guards = []; post_guards = [] })))))))

  -- `_guard_input`: what a provider gets, or the result that blocks the prompt.
  abbrev pub masked_input : Guarded → Guarded
  masked_input (blocks r) = blocks r
  masked_input (lets text) = lets (if text =? "" then text else engine.mask_reversible text)

  unfoldable pub guard_input : Manager → String → Context → Guarded
  guard_input m prompt context =
      masked_input (apply_input prompt (check_input m.pre_guards prompt context))

  -- `_guard_output`
  unfoldable pub guard_output : Manager → String → Context → Delivered × Option GuardrailResult
  guard_output m text context =
      let unmasked = engine.unmask text in
      apply_output (content unmasked) none (check_output m.post_guards unmasked context)
