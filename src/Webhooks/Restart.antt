-- ===== src/Webhooks/Restart.antt =====
-- What a restart of the process does to the hooks of app/integrations/webhook.py.
use prd2tsd.Prelude.{
  String, none, some, Bool, true, false, not, List, [], ◌∷◌, ◌≡◌, refl, ap, ◌∙◌, arith, any,
  keep_if, Bool-cases, inl, inr, eq_iff, text_same,
}
use prd2tsd.Prelude.Dict.{Dict, lookup, insert, erase, lookup-insert_same, lookup-erase}
use prd2tsd.Webhooks.{
  Subscription, IntegrationHub, hooks_of, hooks_or, is_row, upsert, register_webhook,
  unregister_webhook, unregister_found, find_url, get_webhook_url, url_or, targets, table_targets,
  same_target, restart, with_hooks, persist_delete, memory_targets,
}

is_row_refl : (s : Subscription) → is_row s.workspace_id s.event s ≡ true
is_row_refl s = ground (arith, text_same s.workspace_id, text_same s.event)

find_url-upsert :
    (s : Subscription) (rows : List Subscription)
    → find_url s.workspace_id s.event (upsert s rows) ≡ some s.url
unfolding find_url upsert
find_url-upsert s [] = rw (is_row_refl s)
find_url-upsert s (r ∷ rows) = elim (Bool-cases (is_row s.workspace_id s.event r)) [
  | inl here ↦ rw here (rw here)
  | inr there ↦ rw there (rw there (find_url-upsert s rows))
]

find_url-delete :
    (w e : String) (rows : List Subscription)
    → find_url w e (keep_if (λ s. not (is_row w e s)) rows) ≡ none
unfolding find_url
find_url-delete w e [] = refl
find_url-delete w e (r ∷ rows) = elim (Bool-cases (is_row w e r)) [
  | inl here ↦ rw here (find_url-delete w e rows)
  | inr there ↦ rw there (rw there (find_url-delete w e rows))
]

targets-upsert :
    (s : Subscription) (rows : List Subscription)
    → any (same_target (s.workspace_id, s.url)) (table_targets s.event (upsert s rows)) ≡ true
unfolding upsert
targets-upsert s [] = ground (arith, text_same s.event, text_same s.workspace_id, text_same s.url)
targets-upsert s (r ∷ rows) = elim (Bool-cases (is_row s.workspace_id s.event r)) [
  | inl here ↦ rw here (
      ground (
        arith,
        here,
        eq_iff r.workspace_id s.workspace_id,
        eq_iff s.workspace_id r.workspace_id,
        text_same s.url,
      ))
  | inr there ↦ rw there (ground (arith, targets-upsert s rows))
]

erased : (e : String) (hooks : Dict String) → lookup e (erase e hooks) ≡ none
erased e hooks = lookup-erase e e hooks ∙ ground (arith, text_same e)

-- What a lookup in the hub of a workspace finds after its hooks are replaced.
hooks_replaced :
    (w : String) (hooks : Dict String) (hub : IntegrationHub)
    → hooks_of w (with_hooks w hooks hub) ≡ hooks
hooks_replaced w hooks hub = ap hooks_or (lookup-insert_same w hooks hub.webhooks)

-- A hook that is registered while the database is up can be unregistered, after which it is not
-- found. After a restart it is found and notified as before, but it cannot be unregistered: the
-- request is answered with false and changes nothing.
pub restart_pins :
    (w e url secret : String) (hub : IntegrationHub)
    → let registered = register_webhook true w url e secret hub in
      let (done, gone) = unregister_webhook true w e registered in
      let fresh = restart registered in
      (done ≡ true)
      × (get_webhook_url true w e gone ≡ none)
      × (get_webhook_url true w e fresh ≡ some url)
      × (any (same_target (w, url)) (targets true e fresh) ≡ true)
      × (unregister_webhook true w e fresh ≡ (false, fresh))
unfolding register_webhook unregister_webhook get_webhook_url lookup memory_targets
restart_pins w e url secret hub =
    let s : Subscription = record { workspace_id = w; event = e; url = url; secret = secret } in
    let registered : IntegrationHub = register_webhook true w url e secret hub in
    let hooks : Dict String = hooks_of w registered in
    let known : lookup e hooks ≡ some url =
      ap (lookup e) (hooks_replaced w (insert e url (hooks_of w hub)) hub)
      ∙ lookup-insert_same e url (hooks_of w hub) in
    let gone : IntegrationHub = persist_delete true w e (with_hooks w (erase e hooks) registered) in
    let unregistered : unregister_webhook true w e registered ≡ (true, gone) =
      ap (λ o. unregister_found true w e o registered) known in
    (
      ap (λ (p : Bool × IntegrationHub). p.0) unregistered,
      ap (λ (p : Bool × IntegrationHub). get_webhook_url true w e p.1) unregistered
          ∙ ap (λ o. url_or o (find_url w e gone.table))
              (ap (lookup e) (hooks_replaced w (erase e hooks) registered) ∙ erased e hooks)
          ∙ find_url-delete w e registered.table,
      find_url-upsert s hub.table,
      targets-upsert s hub.table,
      refl,
    )
