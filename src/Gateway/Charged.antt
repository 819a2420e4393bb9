-- ===== src/Gateway/Charged.antt =====
-- What a call of the gateway leaves in the log of its workspace's rate limit.
use mathlib.Core.Path.{subst}
use prd2tsd.Prelude.{
  Bool, ℕ, ◌+◌, ◌≤◌, String, Option, none, some, true, [], ◌∷◌, ◌++◌, ◌≡◌, ◌≢◌, refl, sym, ap, ◌∙◌,
  arith, All, if◌then◌else◌, Bool-cases, inl, inr,
}
use prd2tsd.Prelude.Int.{ℤ, pos, pos_part}
use prd2tsd.Breaker.Registry.{Registry}
use prd2tsd.RateLimiter.{
  RateLimiter, CheckResult, reserve, reconcile, recent, log_of, commit, check,
}
use prd2tsd.RateLimiter.Quota.{entry}
use prd2tsd.RateLimiter.Reconcile.{reserve_then_reconcile}
use prd2tsd.Failover.{FailoverTarget, RoutingRule}
use prd2tsd.Gateway.{
  Response, LlmGateway, Request, World, Answer, rate_limited, answered, finish, call_chain,
  ask_cache, reserved, admitted, after_guard, complete, record_usage, route_breakers, id_of,
  model_or, delivered,
}

-- The tokens that an answer is charged.
abbrev pub used : Answer → ℕ
used (answered response) = response.input_tokens + response.output_tokens
used _ = 0

-- An answer that a reservation has been made for settles it by what it used, and does nothing else to
-- the limiter.
abbrev Settled : Request → World → String → LlmGateway → Answer × LlmGateway → Type 0
Settled req world reservation g (answer, g') =
    g'.limiter
    ≡ reconcile world.after world.other req.workspace_id reservation (pos (used answer)) g.limiter

usage_limiter :
    (up : Bool) (w : String) (cost : ℕ) (model : String) (g : LlmGateway)
    → (record_usage up w cost model g).limiter ≡ g.limiter
unfolding record_usage
usage_limiter up w cost model g = ground arith

finish-Settled :
    (req : Request) (world : World) (reservation : String) (o : Option (Response × FailoverTarget))
    (g : LlmGateway)
    → Settled req world reservation g (finish req world reservation o g)
unfolding finish
finish-Settled req world reservation none g = refl
finish-Settled req world reservation (some (response, target)) g =
    let model : String = model_or response.model target.model in
    let result : Response = delivered world model response in
    ap
      (λ l.
        reconcile world.after world.other req.workspace_id reservation
          (pos (response.input_tokens + response.output_tokens)) l)
      (usage_limiter world.ledger_up req.workspace_id result.cost model
        (record g { stored = (model, result.content) ∷ g.stored }))

cache-Settled :
    (req : Request) (world : World) (reservation : String) (rule : RoutingRule) (model : String)
    (o : Option String) (g : LlmGateway)
    → Settled req world reservation g (ask_cache req world reservation rule model o g)
unfolding ask_cache call_chain
cache-Settled req world reservation rule model none g = finish-Settled req world reservation _ _
cache-Settled req world reservation rule model (some content) g = refl

reserved-Settled :
    (req : Request) (world : World) (reservation : String) (g : LlmGateway)
    → Settled req world reservation g (reserved req world reservation g)
unfolding reserved
reserved-Settled req world reservation g = cache-Settled req world reservation _ _ _ g

commit_id :
    (now : ℕ) (fresh w : String) (estimated : ℕ) (result : CheckResult) (r : RateLimiter)
    → (commit now fresh w estimated result r).0.allowed ≡ true
    → (commit now fresh w estimated result r).0.reservation_id ≡ some fresh
unfolding commit
commit_id now fresh w estimated result r allowed = ground (arith, allowed)

abbrev Named : String → CheckResult × RateLimiter → Type 0
Named fresh p = p.0.allowed ≡ true → p.0.reservation_id ≡ some fresh

reserve_id :
    (now later : ℕ) (fresh w : String) (tokens : ℤ) (r : RateLimiter)
    → (reserve now later fresh w tokens r).0.allowed ≡ true
    → (reserve now later fresh w tokens r).0.reservation_id ≡ some fresh
unfolding reserve
reserve_id now later fresh w tokens r allowed =
    let checked : CheckResult × RateLimiter = check now w (pos (pos_part tokens)) r in
    let committed : CheckResult × RateLimiter =
      commit later fresh w (pos_part tokens) checked.0 checked.1 in
    let refused : CheckResult × RateLimiter =
      (record checked.0 { reservation_id = some "" }, checked.1) in
    elim (Bool-cases checked.0.allowed) [
      | inl yes_allowed ↦
          subst (λ b. Named fresh (if b then committed else refused)) (sym yes_allowed)
            (commit_id later fresh w (pos_part tokens) checked.0 checked.1) allowed
      | inr not_allowed ↦
          subst (λ b. Named fresh (if b then committed else refused)) (sym not_allowed)
            (λ h. ground (arith, h, not_allowed)) allowed
    ]

granted_call :
    (req : Request) (world : World) (g : LlmGateway)
    → world.input_block ≡ none
    → (reserve world.now world.later world.fresh req.workspace_id req.estimated_tokens
        g.limiter).0.allowed
      ≡ true
    → let (result, limiter) =
        reserve world.now world.later world.fresh req.workspace_id req.estimated_tokens g.limiter in
      complete req world g
      ≡ reserved req world (id_of result.reservation_id) (record g {
        limiter = limiter;
        breakers = route_breakers world.second req.rule g.breakers;
      })
unfolding complete after_guard admitted
granted_call req world g unblocked allowed =
    let r1 : CheckResult × RateLimiter =
      reserve world.now world.later world.fresh req.workspace_id req.estimated_tokens g.limiter in
    let known : Registry = route_breakers world.second req.rule g.breakers in
    let g1 : LlmGateway = record g { limiter = r1.1; breakers = known } in
    ap (λ o. after_guard req world o (record g { breakers = known })) unblocked
    ∙ ap
        (λ b.
          if b
          then reserved req world (id_of r1.0.reservation_id) g1
          else (rate_limited r1.0.retry_after, g1))
        allowed

-- A call whose prompt is not blocked and whose reservation is granted leaves exactly its own entry in
-- the window of its workspace, whichever way it ends: with the tokens that the response names if a
-- provider has answered, and with none if the cache has answered or every provider has failed.
pub call_charged :
    (req : Request) (world : World) (g : LlmGateway)
    → world.input_block ≡ none
    → world.now ≤ world.later
    → (reserve world.now world.later world.fresh req.workspace_id req.estimated_tokens
        g.limiter).0.allowed
      ≡ true
    → All
        (λ e. e.reservation_id ≢ world.fresh)
        (recent g.limiter.window world.later (log_of req.workspace_id g.limiter))
    → let (answer, g') = complete req world g in
      log_of req.workspace_id g'.limiter
      ≡ recent g.limiter.window world.later (log_of req.workspace_id g.limiter)
        ++ entry world.later (used answer) world.fresh ∷ []
call_charged req world g unblocked order allowed new =
    let w : String = req.workspace_id in
    let r1 : CheckResult × RateLimiter =
      reserve world.now world.later world.fresh w req.estimated_tokens g.limiter in
    let known : Registry = route_breakers world.second req.rule g.breakers in
    let g1 : LlmGateway = record g { limiter = r1.1; breakers = known } in
    let q : Answer × LlmGateway = reserved req world (id_of r1.0.reservation_id) g1 in
    let named : id_of r1.0.reservation_id ≡ world.fresh =
      ap id_of
        (reserve_id world.now world.later world.fresh w req.estimated_tokens g.limiter allowed) in
    subst
      (λ p.
        log_of w p.1.limiter
        ≡ recent g.limiter.window world.later (log_of w g.limiter)
          ++ entry world.later (used p.0) world.fresh ∷ [])
      (sym (granted_call req world g unblocked allowed))
      (ap (log_of w) (reserved-Settled req world (id_of r1.0.reservation_id) g1)
        ∙ ap (λ i. log_of w (reconcile world.after world.other w i (pos (used q.0)) r1.1)) named
        ∙ reserve_then_reconcile world.now world.later world.after world.fresh world.other w
            req.estimated_tokens (pos (used q.0)) g.limiter order allowed new)
