-- ===== src/Sessions/Kept.antt =====
-- What holds of the sessions and messages through everything that app/session_history/repository.py does.
use mathlib.Core.Path.{subst}
use prd2tsd.Prelude.{
  ℕ, String, Option, none, some, Bool, true, false, [], ◌∷◌, ◌++◌, ◌≡◌, refl, ap, ◌∙◌, ◌=?◌,
  if◌then◌else◌, if_both, map, any, All, All-append,
}
use prd2tsd.Sessions.{
  Session, SessionMessage, Repository, SessionCreate, SessionUpdate, MessageCreate, create_session,
  update_session, updated_if, is_empty, soft_delete_session, deleted_if, is_live, has_session,
  next_turn, counted_if, add_message, get_messages, page_of,
}
use prd2tsd.Sessions.Turns.{IsNumbered, by_turn-IsNumbered}
use prd2tsd.Sessions.Counted.{
  messages_of, CountsOf, HasSession, IsCounted, added-IsCounted, counted-CountsOf,
  posted-IsNumbered, any-has_session, map-HasSession, map-IsCounted,
}

-- What the repository does with new ids, from empty tables on; a message that the table refuses
-- changes nothing.
pub data Reach : Repository → Type 0 where
  empty : Reach (record { sessions = []; messages = [] })
  created :
      (r : Repository) (now : ℕ) (id thread workspace_id user_id : String) (d : SessionCreate)
      (thread_id : Option String)
      → Reach r
      → any (has_session id) r.sessions ≡ false
      → Reach (create_session now id thread workspace_id user_id d thread_id r).1
  updated :
      (r : Repository) (now : ℕ) (id : String) (u : SessionUpdate)
      → Reach r
      → Reach (update_session now id u r).1
  deleted :
      (r : Repository) (now : ℕ) (id : String) → Reach r → Reach (soft_delete_session now id r).1
  posted :
      (r : Repository) (now : ℕ) (id session_id : String) (user_id : Option String)
      (d : MessageCreate) (m : SessionMessage) (r' : Repository)
      → Reach r
      → add_message now id session_id user_id d r ≡ some (m, r')
      → Reach r'

if_some :
    (test : Bool) (p q : SessionMessage × Repository)
    → (if test then some p else none) ≡ some q
    → (test ≡ true) × (p ≡ q)
if_some true p q h =
    (refl, ap (λ (o : Option (SessionMessage × Repository)). elim o [ none ↦ p | some x ↦ x ]) h)
if_some false p q h = cc h

abbrev Posted : Repository → ℕ → SessionMessage × Repository → Type 0
Posted r now (m, r') =
    (any (has_session m.session_id) r.sessions ≡ true)
    × (m.turn_index ≡ next_turn (messages_of m.session_id r))
    × (r' ≡ record {
      sessions = map (counted_if now m.session_id) r.sessions;
      messages = r.messages ++ m ∷ [];
    })

-- What an accepted message is, and what it leaves.
add_message_cases :
    (r : Repository) (now : ℕ) (id session_id : String) (user_id : Option String)
    (d : MessageCreate) (m : SessionMessage) (r' : Repository)
    → add_message now id session_id user_id d r ≡ some (m, r')
    → Posted r now (m, r')
unfolding add_message
add_message_cases r now id session_id user_id d m r' h =
    let (has, same) = if_some (any (has_session session_id) r.sessions) _ (m, r') h in
    subst (Posted r now) same (has, refl, refl)

Posted-IsCounted :
    (r : Repository) (now : ℕ) (m : SessionMessage) (r' : Repository)
    → IsCounted r
    → Posted r now (m, r')
    → IsCounted r'
unfolding IsCounted
Posted-IsCounted r now m r' (numbered, counts, has) (known, turn, same) = rw same (
  (λ id. posted-IsNumbered id r.messages m turn (numbered id)),
  counted-CountsOf now r.messages m r.sessions counts,
  All-append (HasSession (map (counted_if now m.session_id) r.sessions)) r.messages (m ∷ [])
      (map-HasSession (counted_if now m.session_id) same_id r.sessions r.messages has)
      (any-has_session (counted_if now m.session_id) same_id m.session_id r.sessions ∙ known, tt),
)
  where
    same_id : (s : Session) → (counted_if now m.session_id s).id ≡ s.id
    same_id s = if_both (λ (t : Session). t.id ≡ s.id) (s.id =? m.session_id) _ _ refl refl

pub reach-IsCounted : (r : Repository) → Reach r → IsCounted r
unfolding IsCounted create_session update_session soft_delete_session IsNumbered
reach-IsCounted r0 empty = ((λ id. tt), tt, tt)
reach-IsCounted r0 (created r now id thread w u d t h fresh) =
    added-IsCounted (create_session now id thread w u d t r).0 r refl fresh (reach-IsCounted r h)
reach-IsCounted r0 (updated r now id u h) =
    if_both IsCounted (is_empty u) r (record r { sessions = map (updated_if now id u) r.sessions })
      (reach-IsCounted r h)
      (map-IsCounted (updated_if now id u)
        (λ s. if_both (λ (t : Session). t.id ≡ s.id) (s.id =? id) _ _ refl refl) r
        (λ s.
          if_both (λ (t : Session). t.message_count ≡ s.message_count) (s.id =? id) _ _ refl refl)
        (reach-IsCounted r h))
reach-IsCounted r0 (deleted r now id h) =
    map-IsCounted (deleted_if now id)
      (λ s. if_both (λ (t : Session). t.id ≡ s.id) (is_live id s) _ _ refl refl) r
      (λ s.
        if_both (λ (t : Session). t.message_count ≡ s.message_count) (is_live id s) _ _ refl refl)
      (reach-IsCounted r h)
reach-IsCounted r0 (posted r now id session_id user_id d m r' h e) =
    Posted-IsCounted r now m r' (reach-IsCounted r h)
      (add_message_cases r now id session_id user_id d m r' e)

-- Whatever was created, changed, deleted and posted before, the pages of the messages of a session are
-- those of its messages in the order in which they were added, whose turns count up from 0, and
-- every session counts exactly its messages.
pub conversation_kept :
    (r : Repository) (session_id : String) (page page_size : ℕ)
    → Reach r
    → ((get_messages session_id page page_size r).items
        ≡ page_of page page_size (messages_of session_id r))
      × IsNumbered 0 (messages_of session_id r)
      × All (CountsOf r.messages) r.sessions
unfolding get_messages IsCounted
conversation_kept r session_id page page_size h =
    let (numbered, counts, has) = reach-IsCounted r h in
    (
      ap (λ ms. page_of page page_size ms)
          (by_turn-IsNumbered 0 (messages_of session_id r) (numbered session_id)),
      numbered session_id,
      counts,
    )
