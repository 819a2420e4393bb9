-- ===== src/Webhooks.antt =====
-- app/integrations/webhook.py, and the notification of app/orchestrator/main_graph.py. The hub keeps
-- its hooks in memory and writes them through to a table; whether the database is up is an input, and
-- the HTTP request of a sender is left out: what is sent is a value.
pub mod Reach
pub mod Restart
mod Tests
use prd2tsd.Prelude.{
  ℕ, String, Option, none, some, Bool, true, false, not, List, [], ◌∷◌, ◌++◌, ◌=?◌, ◌&&◌, any,
  keep_if, map, if◌then◌else◌,
}
use prd2tsd.Prelude.Dict.{Dict, lookup, insert, erase}

-- `WebhookSubscription`, without the time of its creation.
pub record Subscription : Type 0 where
  pub workspace_id : String
  pub event : String
  pub url : String
  pub secret : String

pub record IntegrationHub : Type 0 where
  pub webhooks : Dict (Dict String)
  pub table : List Subscription

abbrev pub hooks_or : Option (Dict String) → Dict String
hooks_or none = []
hooks_or (some hooks) = hooks

abbrev pub hooks_of : String → IntegrationHub → Dict String
hooks_of workspace_id hub = hooks_or (lookup workspace_id hub.webhooks)

abbrev pub with_hooks : String → Dict String → IntegrationHub → IntegrationHub
with_hooks workspace_id hooks hub = record hub { webhooks = insert workspace_id hooks hub.webhooks }

abbrev pub is_row : String → String → Subscription → Bool
is_row workspace_id event s = s.workspace_id =? workspace_id && s.event =? event

-- `INSERT ... ON CONFLICT DO UPDATE`
unfoldable pub upsert : Subscription → List Subscription → List Subscription
upsert s [] = s ∷ []
upsert s (r ∷ rows) =
    let rest = upsert s rows in
    if is_row s.workspace_id s.event r
    then record r { url = s.url; secret = s.secret } ∷ rows
    else r ∷ rest

-- `_persist_upsert` and `_persist_delete`: a failure is logged and forgotten.
abbrev pub persist_upsert : Bool → Subscription → IntegrationHub → IntegrationHub
persist_upsert up s hub = record hub { table = if up then upsert s hub.table else hub.table }

abbrev pub persist_delete : Bool → String → String → IntegrationHub → IntegrationHub
persist_delete up workspace_id event hub = record hub {
  table = if up then keep_if (λ s. not (is_row workspace_id event s)) hub.table else hub.table;
}

-- `register_webhook`
unfoldable pub register_webhook :
    Bool → String → String → String → String → IntegrationHub → IntegrationHub
register_webhook up workspace_id url event secret hub =
    persist_upsert up
      (record { workspace_id = workspace_id; event = event; url = url; secret = secret })
      (with_hooks workspace_id (insert event url (hooks_of workspace_id hub)) hub)

-- `unregister_webhook`
abbrev pub unregister_found :
    Bool → String → String → Option String → IntegrationHub → Bool × IntegrationHub
unregister_found up workspace_id event none hub = (false, hub)
unregister_found up workspace_id event (some url) hub = (
  true,
  persist_delete up workspace_id event
      (with_hooks workspace_id (erase event (hooks_of workspace_id hub)) hub),
)

unfoldable pub unregister_webhook : Bool → String → String → IntegrationHub → Bool × IntegrationHub
unregister_webhook up workspace_id event hub =
    unregister_found up workspace_id event (lookup event (hooks_of workspace_id hub)) hub

-- `_load_url`
unfoldable pub find_url : String → String → List Subscription → Option String
find_url workspace_id event [] = none
find_url workspace_id event (s ∷ rows) =
    let rest = find_url workspace_id event rows in
    if is_row workspace_id event s then some s.url else rest

abbrev pub load_url : Bool → String → String → IntegrationHub → Option String
load_url up workspace_id event hub = if up then find_url workspace_id event hub.table else none

-- `get_webhook_url`
abbrev pub url_or : Option String → Option String → Option String
url_or none loaded = loaded
url_or (some url) loaded = some url

unfoldable pub get_webhook_url : Bool → String → String → IntegrationHub → Option String
get_webhook_url up workspace_id event hub =
    url_or (lookup event (hooks_of workspace_id hub)) (load_url up workspace_id event hub)

-- `hooks.setdefault` for the rows of the workspace.
abbrev pub set_default : String → String → Option String → Dict String → Dict String
set_default event url none hooks = insert event url hooks
set_default event url (some old) hooks = hooks

unfoldable pub add_rows : List Subscription → Dict String → Dict String
add_rows [] hooks = hooks
add_rows (s ∷ rows) hooks = add_rows rows (set_default s.event s.url (lookup s.event hooks) hooks)

-- `list_webhooks`: the events with their URLs.
pub list_webhooks : Bool → String → IntegrationHub → Dict String
list_webhooks up workspace_id hub =
    let rows = keep_if (λ s. s.workspace_id =? workspace_id) hub.table in
    if up then add_rows rows (hooks_of workspace_id hub) else hooks_of workspace_id hub

-- The targets of `notify`: workspaces and URLs, from memory and from the table.
abbrev pub add_target : String → Option String → List (String × String) → List (String × String)
add_target workspace_id none targets = targets
add_target workspace_id (some url) targets = (workspace_id, url) ∷ targets

unfoldable pub memory_targets : String → Dict (Dict String) → List (String × String)
memory_targets event [] = []
memory_targets event ((workspace_id, hooks) ∷ webhooks) =
    add_target workspace_id (lookup event hooks) (memory_targets event webhooks)

abbrev pub table_targets : String → List Subscription → List (String × String)
table_targets event rows = map (λ s. (s.workspace_id, s.url)) (keep_if (λ s. s.event =? event) rows)

abbrev pub targets : Bool → String → IntegrationHub → List (String × String)
targets up event hub =
    memory_targets event hub.webhooks ++ (if up then table_targets event hub.table else [])

abbrev pub same_target : String × String → String × String → Bool
same_target (w, u) (v, t) = w =? v && u =? t

-- The loop over the targets with the set of those that it has seen.
unfoldable pub unseen : List (String × String) → List (String × String) → List (String × String)
unseen seen [] = []
unseen seen (t ∷ ts) =
    let passed_over = unseen seen ts in
    let sent = t ∷ unseen (t ∷ seen) ts in if any (same_target t) seen then passed_over else sent

pub record Sent : Type 0 where
  pub target : String × String
  pub payload : Dict String

-- `{"workspace_id": ws_id, **payload}`
unfoldable pub update_all : Dict String → Dict String → Dict String
update_all [] d = d
update_all ((k, v) ∷ payload) d = update_all payload (insert k v d)

abbrev pub merged : String → Dict String → Dict String
merged workspace_id payload = update_all payload (("workspace_id", workspace_id) ∷ [])

abbrev pub sent_to : Dict String → String × String → Sent
sent_to payload (workspace_id, url) = record {
  target = (workspace_id, url);
  payload = merged workspace_id payload;
}

-- `notify`
unfoldable pub notify : Bool → String → Dict String → IntegrationHub → List Sent
notify up event payload hub = map (sent_to payload) (unseen [] (targets up event hub))

-- What the graph sends when a task is complete.
abbrev pub completed_payload : String → String → Dict String
completed_payload task_id workspace_id =
    ("task_id", task_id)
    ∷ ("workspace_id", workspace_id)
    ∷ ("status", "completed")
    ∷ ("progress", "1.0")
    ∷ []

-- A new process: the memory is empty, and the table is as it was.
abbrev pub restart : IntegrationHub → IntegrationHub
restart hub = record hub { webhooks = [] }
