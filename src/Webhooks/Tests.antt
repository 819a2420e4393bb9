-- ===== src/Webhooks/Tests.antt =====
-- A hub with the hooks of two workspaces.
use prd2tsd.Prelude.{◌||◌, ◌&&◌, true, false, none, some, [], ◌∷◌, ◌≡◌, any, map, All}
use prd2tsd.Prelude.Dict.{lookup}
use prd2tsd.Webhooks.{
  IntegrationHub, Sent, targets, same_target, notify, completed_payload, register_webhook,
  unregister_webhook, get_webhook_url, restart,
}
use prd2tsd.Webhooks.Reach.{NoRepeat, hooked, subscribed, notify_reaches}
use prd2tsd.Webhooks.Restart.{restart_pins}

abbrev hub : IntegrationHub
hub = record {
  webhooks =
      ("w1", ("task.completed", "https://one") ∷ [])
      ∷ ("w2", ("task.completed", "https://two") ∷ [])
      ∷ [];
  table =
      record { workspace_id = "w1"; event = "task.completed"; url = "https://one"; secret = "s" }
      ∷ [];
}

-- A task of the first workspace is told to the second one too.
notify_reaches_example :
    let sent = notify true "task.completed" (completed_payload "t" "w1") hub in
    let told = map (λ (x : Sent). x.target) sent in
    (any (same_target ("w2", "https://two")) told ≡ (
      any (hooked "task.completed" ("w2", "https://two")) hub.webhooks
      || (true && any (subscribed "task.completed" ("w2", "https://two")) hub.table)))
    × NoRepeat told
    × All
        (λ (x : Sent).
          (lookup "workspace_id" x.payload ≡ some "w1") × (lookup "task_id" x.payload ≡ some "t"))
        sent
notify_reaches_example = notify_reaches true "task.completed" "t" "w1" ("w2", "https://two") hub

restart_pins_example :
    let registered = register_webhook true "w1" "https://new" "task.failed" "" hub in
    let (done, gone) = unregister_webhook true "w1" "task.failed" registered in
    let fresh = restart registered in
    (done ≡ true)
    × (get_webhook_url true "w1" "task.failed" gone ≡ none)
    × (get_webhook_url true "w1" "task.failed" fresh ≡ some "https://new")
    × (any (same_target ("w1", "https://new")) (targets true "task.failed" fresh) ≡ true)
    × (unregister_webhook true "w1" "task.failed" fresh ≡ (false, fresh))
restart_pins_example = restart_pins "w1" "task.failed" "https://new" "" hub
