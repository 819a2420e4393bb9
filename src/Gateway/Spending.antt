-- ===== src/Gateway/Spending.antt =====
-- What a call of the gateway adds to the budget's ledger.
use prd2tsd.Prelude.{
  ℕ, ◌+◌, String, Option, none, some, Bool, true, false, List, [], ◌∷◌, ◌≡◌, arith, if◌then◌else◌,
  ◌=?◌, ◌&&◌, not, rounded_to,
}
use prd2tsd.RateLimiter.{RateLimiter, CheckResult, reserve}
use prd2tsd.Failover.{FailoverTarget, RoutingRule}
use prd2tsd.Gateway.{
  Response, Usage, LlmGateway, Request, World, Answer, rate_limited, answered, finish, call_chain,
  ask_cache, reserved, admitted, after_guard, complete, record_usage, id_of, model_or, delivered,
}

-- The sum of the costs of a workspace.
unfoldable pub spent : String → List Usage → ℕ
spent w [] = 0
spent w (u ∷ ledger) =
    let rest = spent w ledger in if u.workspace_id =? w then u.cost + rest else rest

-- The cost that a caller is shown.
abbrev pub cost_of : Answer → ℕ
cost_of (answered response) = response.cost
cost_of _ = 0

-- What the answer costs the workspace `v`, if the call is one of the workspace `w`.
abbrev pub bill : Bool → String → String → Answer → ℕ
bill ledger_up v w answer =
    if ledger_up && not (w =? "") && w =? v then rounded_to 1000 (cost_of answer) else 0

abbrev Billed : String → Request → World → LlmGateway → Answer × LlmGateway → Type 0
Billed v req world g (answer, g') =
    spent v g'.ledger ≡ bill world.ledger_up v req.workspace_id answer + spent v g.ledger

unbilled : (b : Bool) (n : ℕ) → n ≡ (if b then 0 else 0) + n
unbilled b n = ground arith

if-Billed :
    (v : String) (req : Request) (world : World) (g : LlmGateway) (b : Bool)
    (p q : Answer × LlmGateway)
    → Billed v req world g p
    → Billed v req world g q
    → Billed v req world g (if b then p else q)
if-Billed v req world g true p q hp hq = hp
if-Billed v req world g false p q hp hq = hq

usage_spent :
    (up : Bool) (v w : String) (cost : ℕ) (model : String) (g : LlmGateway)
    → spent v (record_usage up w cost model g).ledger
      ≡ (if up && not (w =? "") && w =? v then rounded_to 1000 cost else 0) + spent v g.ledger
unfolding record_usage spent
usage_spent up v w cost model g = ground arith

finish-Billed :
    (v : String) (req : Request) (world : World) (reservation : String)
    (o : Option (Response × FailoverTarget)) (g : LlmGateway)
    → Billed v req world g (finish req world reservation o g)
unfolding finish
finish-Billed v req world reservation none g = unbilled _ _
finish-Billed v req world reservation (some (response, target)) g =
    let model : String = model_or response.model target.model in
    let result : Response = delivered world model response in
    usage_spent world.ledger_up v req.workspace_id result.cost model
      (record g { stored = (model, result.content) ∷ g.stored })

cache-Billed :
    (v : String) (req : Request) (world : World) (reservation : String) (rule : RoutingRule)
    (model : String) (o : Option String) (g : LlmGateway)
    → Billed v req world g (ask_cache req world reservation rule model o g)
unfolding ask_cache call_chain
cache-Billed v req world reservation rule model none g = finish-Billed v req world reservation _ _
cache-Billed v req world reservation rule model (some content) g = unbilled _ _

reserved-Billed :
    (v : String) (req : Request) (world : World) (reservation : String) (g : LlmGateway)
    → Billed v req world g (reserved req world reservation g)
unfolding reserved
reserved-Billed v req world reservation g = cache-Billed v req world reservation _ _ _ g

guard-Billed :
    (v : String) (req : Request) (world : World) (o : Option String) (g : LlmGateway)
    → Billed v req world g (after_guard req world o g)
unfolding after_guard admitted
guard-Billed v req world (some reason) g = unbilled _ _
guard-Billed v req world none g =
    let r1 : CheckResult × RateLimiter =
      reserve world.now world.later world.fresh req.workspace_id req.estimated_tokens g.limiter in
    let g1 : LlmGateway = record g { limiter = r1.1 } in
    if-Billed v req world g r1.0.allowed (reserved req world (id_of r1.0.reservation_id) g1)
      (rate_limited r1.0.retry_after, g1)
      (reserved-Billed v req world (id_of r1.0.reservation_id) g1) (unbilled _ _)

-- A call raises the spending that the ledger shows for its workspace by exactly the cost of the
-- response that it returns, in whole millionths of a dollar as the column keeps it, whichever way it
-- ends, if the workspace has a name and the ledger takes the row; otherwise, and for every other
-- workspace, the spending stays as it was.
pub call_billed :
    (v : String) (req : Request) (world : World) (g : LlmGateway)
    → let (answer, g') = complete req world g in
      spent v g'.ledger ≡ bill world.ledger_up v req.workspace_id answer + spent v g.ledger
unfolding complete
call_billed v req world g = guard-Billed v req world world.input_block _
