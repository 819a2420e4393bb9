-- ===== src/Webhooks/Reach.antt =====
-- Whom `notify` of app/integrations/webhook.py reaches, and with what.
use mathlib.Core.Path.{subst}
use prd2tsd.Prelude.{
  String, Option, none, some, Bool, true, false, not, ◌++◌, ◌||◌, ◌=?◌, if◌then◌else◌, List, [],
  ◌∷◌, ◌≡◌, refl, sym, ap, ◌∙◌, arith, ◌&&◌, any, map, All, Bool-cases, inl, inr, eq_iff, text_same,
}
use prd2tsd.Prelude.Dict.{Dict, lookup, insert}
use prd2tsd.Webhooks.{
  IntegrationHub, Subscription, add_target, memory_targets, table_targets, targets, same_target,
  unseen, Sent, update_all, merged, sent_to, notify, completed_payload,
}

and_true : (b : Bool) → (b && true) ≡ b
and_true true = refl
and_true false = refl

same_target_refl : (t : String × String) → same_target t t ≡ true
same_target_refl (w, u) = ground (arith, text_same w, text_same u)

-- A target that is like another one is like the same targets.
same_target_trans :
    (s t x : String × String) → same_target s t ≡ true → same_target s x ≡ same_target t x
same_target_trans (a, b) (c, d) (e, f) h = ground (arith, h, eq_iff a c, eq_iff b d)

any_same :
    (s t : String × String) (seen : List (String × String))
    → same_target s t ≡ true
    → any (same_target s) seen ≡ any (same_target t) seen
any_same s t [] h = refl
any_same s t (x ∷ seen) h = ground (arith, same_target_trans s t x h, any_same s t seen h)

-- A target is sent to exactly if it is among the targets and has not been seen.
any-unseen :
    (s : String × String) (seen ts : List (String × String))
    → any (same_target s) (unseen seen ts)
      ≡ (any (same_target s) ts && not (any (same_target s) seen))
unfolding unseen
any-unseen s seen [] = refl
any-unseen s seen (t ∷ ts) = elim (Bool-cases (same_target s t)) [
  | inl same ↦
      ground (arith, same, any_same s t seen same, any-unseen s seen ts, any-unseen s (t ∷ seen) ts)
  | inr other ↦ ground (arith, other, any-unseen s seen ts, any-unseen s (t ∷ seen) ts)
]

abbrev pub NoRepeat : List (String × String) → Type 0
NoRepeat [] = Unit
NoRepeat (t ∷ ts) = (any (same_target t) ts ≡ false) × NoRepeat ts

unseen-NoRepeat : (seen ts : List (String × String)) → NoRepeat (unseen seen ts)
unfolding unseen
unseen-NoRepeat seen [] = tt
unseen-NoRepeat seen (t ∷ ts) = elim (Bool-cases (any (same_target t) seen)) [
  | inl old ↦ rw old (unseen-NoRepeat seen ts)
  | inr new ↦ rw new (
    ground (arith, any-unseen t (t ∷ seen) ts, same_target_refl t),
    unseen-NoRepeat (t ∷ seen) ts,
  )
]

map-target :
    (payload : Dict String) (ts : List (String × String))
    → map (λ (s : Sent). s.target) (map (sent_to payload) ts) ≡ ts
map-target payload [] = refl
map-target payload ((w, u) ∷ ts) = ap (λ l. (w, u) ∷ l) (map-target payload ts)

names_task :
    (v w task_id : String)
    → (lookup "workspace_id" (merged v (completed_payload task_id w)) ≡ some w)
      × (lookup "task_id" (merged v (completed_payload task_id w)) ≡ some task_id)
unfolding update_all lookup insert
names_task v w task_id = (refl, refl)

all_told :
    (w task_id : String) (ts : List (String × String))
    → All
        (λ (x : Sent).
          (lookup "workspace_id" x.payload ≡ some w) × (lookup "task_id" x.payload ≡ some task_id))
        (map (sent_to (completed_payload task_id w)) ts)
all_told w task_id [] = tt
all_told w task_id ((v, u) ∷ ts) = (names_task v w task_id, all_told w task_id ts)

any-append :
    (s : String × String) (xs ys : List (String × String))
    → any (same_target s) (xs ++ ys) ≡ (any (same_target s) xs || any (same_target s) ys)
any-append s [] ys = refl
any-append s (x ∷ xs) ys = ground (arith, any-append s xs ys)

abbrev is_url : String → Option String → Bool
is_url url none = false
is_url url (some u) = url =? u

-- A workspace of the memory has the URL as its hook for the event.
abbrev pub hooked : String → String × String → String × Dict String → Bool
hooked event (w, url) (workspace_id, hooks) = w =? workspace_id && is_url url (lookup event hooks)

-- A row of the table has the URL for the event.
abbrev pub subscribed : String → String × String → Subscription → Bool
subscribed event (w, url) row = row.event =? event && (w =? row.workspace_id && url =? row.url)

any-add_target :
    (s : String × String) (w : String) (o : Option String) (ts : List (String × String))
    → any (same_target s) (add_target w o ts)
      ≡ ((s.0 =? w && is_url s.1 o) || any (same_target s) ts)
any-add_target s w none ts = ground arith
any-add_target s w (some url) ts = ground arith

any-memory_targets :
    (event : String) (s : String × String) (webhooks : Dict (Dict String))
    → any (same_target s) (memory_targets event webhooks) ≡ any (hooked event s) webhooks
unfolding memory_targets
any-memory_targets event s [] = refl
any-memory_targets event s ((w, hooks) ∷ webhooks) =
    any-add_target s w (lookup event hooks) (memory_targets event webhooks)
    ∙ ap (λ b. (s.0 =? w && is_url s.1 (lookup event hooks)) || b)
        (any-memory_targets event s webhooks)
    ∙ or_if (s.0 =? w && is_url s.1 (lookup event hooks)) (any (hooked event s) webhooks)
  where
    or_if : (a b : Bool) → (a || b) ≡ (if a then true else b)
    or_if true b = refl
    or_if false b = refl

any-table_targets :
    (event : String) (s : String × String) (rows : List Subscription)
    → any (same_target s) (table_targets event rows) ≡ any (subscribed event s) rows
any-table_targets event s [] = refl
any-table_targets event s (row ∷ rows) = ground (arith, any-table_targets event s rows)

any-table_if :
    (up : Bool) (event : String) (s : String × String) (rows : List Subscription)
    → any (same_target s) (if up then table_targets event rows else [])
      ≡ (up && any (subscribed event s) rows)
any-table_if true event s rows = any-table_targets event s rows
any-table_if false event s rows = refl

-- A workspace and URL are sent to exactly if the workspace has the URL as its hook for the event in
-- the memory or, while the table can be read, in a row of the table, whichever workspace it is; each
-- of them once; and each of them is told the workspace and the task that is complete.
pub notify_reaches :
    (up : Bool) (event task_id w : String) (s : String × String) (hub : IntegrationHub)
    → let sent = notify up event (completed_payload task_id w) hub in
      let told = map (λ (x : Sent). x.target) sent in
      (any (same_target s) told
        ≡ (any (hooked event s) hub.webhooks || (up && any (subscribed event s) hub.table)))
      × NoRepeat told
      × All
          (λ (x : Sent).
            (lookup "workspace_id" x.payload ≡ some w)
            × (lookup "task_id" x.payload ≡ some task_id))
          sent
unfolding notify
notify_reaches up event task_id w s hub =
    let payload : Dict String = completed_payload task_id w in
    let all : List (String × String) = targets up event hub in
    let ts : List (String × String) = unseen [] all in
    let memory = any-memory_targets event s hub.webhooks in
    let table = any-table_if up event s hub.table in
    (
      ap (any (same_target s)) (map-target payload ts)
          ∙ any-unseen s [] all
          ∙ and_true (any (same_target s) all)
          ∙ any-append s (memory_targets event hub.webhooks)
              (if up then table_targets event hub.table else [])
          ∙ ap (λ b. b || any (same_target s) (if up then table_targets event hub.table else []))
              memory
          ∙ ap (λ b. any (hooked event s) hub.webhooks || b) table,
      subst NoRepeat (sym (map-target payload ts)) (unseen-NoRepeat [] all),
      all_told w task_id ts,
    )
