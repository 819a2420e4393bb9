-- ===== src/Sessions.antt =====
-- app/session_history/repository.py, which app/session_history/service.py passes on: the sessions and
-- their messages in one database session. Rows stand in the order in which they were added; what a
-- clock and uuid4 give is an input.
pub mod Turns
pub mod Counted
pub mod Kept
mod Tests
use prd2tsd.Prelude.{
  ℕ, zero, suc, max, ◌+◌, ◌-◌, ◌*◌, ◌/◌, String, Option, none, some, Bool, true, false, not, List,
  [], ◌∷◌, ◌++◌, map, leb, ◌=?◌, ◌&&◌, ◌||◌, if◌then◌else◌, length, take, keep_if, any,
}

-- `Session`, without the columns of costs and checkpoints, which no operation here writes.
pub record Session : Type 0 where
  pub id : String
  pub workspace_id : String
  pub user_id : String
  pub title : String
  pub session_type : String
  pub status : String
  pub summary : Option String
  pub message_count : ℕ
  pub rating : Option ℕ
  pub tags : List String
  pub last_message_at : Option ℕ
  pub deleted_at : Option ℕ
  pub updated_at : ℕ
  pub thread_id : String

pub record SessionMessage : Type 0 where
  pub id : String
  pub session_id : String
  pub user_id : Option String
  pub role : String
  pub content : String
  pub content_type : String
  pub parent_message_id : Option String
  pub turn_index : ℕ

pub record Repository : Type 0 where
  pub sessions : List Session
  pub messages : List SessionMessage

pub record SessionCreate : Type 0 where
  pub title : String
  pub session_type : String
  pub tags : Option (List String)

pub record SessionUpdate : Type 0 where
  pub title : Option String
  pub session_type : Option String
  pub status : Option String
  pub summary : Option String
  pub tags : Option (List String)
  pub rating : Option ℕ

pub record MessageCreate : Type 0 where
  pub role : String
  pub content : String
  pub content_type : String
  pub parent_message_id : Option String

abbrev pub or_default : {A : Type 0} → Option A → A → A
or_default none x = x
or_default (some y) x = y

-- Python's `or` on texts.
abbrev pub or_empty : String → String → String
or_empty x y = if x =? "" then y else x

-- `create_session`; a thread id that is not given is a new one.
unfoldable pub create_session :
    ℕ
    → String
    → String
    → String
    → String
    → SessionCreate
    → Option String
    → Repository
    → Session × Repository
create_session now new_id new_thread workspace_id user_id d thread_id r =
    let session : Session = record {
      id = new_id;
      workspace_id = workspace_id;
      user_id = user_id;
      title = d.title;
      session_type = or_empty d.session_type "generate";
      status = "active";
      summary = none;
      message_count = 0;
      rating = none;
      tags = or_default d.tags [];
      last_message_at = none;
      deleted_at = none;
      updated_at = now;
      thread_id = or_empty (or_default thread_id "") new_thread;
    } in
    (session, record r { sessions = r.sessions ++ session ∷ [] })

abbrev pub is_none : {A : Type 0} → Option A → Bool
is_none none = true
is_none (some x) = false

abbrev pub is_live : String → Session → Bool
is_live session_id s = s.id =? session_id && is_none s.deleted_at

unfoldable pub find_live : String → List Session → Option Session
find_live session_id [] = none
find_live session_id (s ∷ rows) =
    let rest = find_live session_id rows in if is_live session_id s then some s else rest

-- `get_session`
abbrev pub get_session : String → Repository → Option Session
get_session session_id r = find_live session_id r.sessions

-- `offset((page - 1) * page_size).limit(page_size)`
abbrev pub skip : {A : Type 0} → ℕ → List A → List A
skip zero xs = xs
skip (suc n) [] = []
skip (suc n) (x ∷ xs) = skip n xs

abbrev pub page_of : {A : Type 0} → ℕ → ℕ → List A → List A
page_of page page_size xs = take page_size (skip ((page - 1) * page_size) xs)

-- `update_session`: a row that is not given something keeps it, and the time with it.
abbrev pub with_update : ℕ → SessionUpdate → Session → Session
with_update now u s = record s {
  title = or_default u.title s.title;
  session_type = or_default u.session_type s.session_type;
  status = or_default u.status s.status;
  summary = (elim u.summary [ none ↦ s.summary | some x ↦ some x ]);
  tags = or_default u.tags s.tags;
  rating = (elim u.rating [ none ↦ s.rating | some x ↦ some x ]);
  updated_at = now;
}

abbrev pub updated_if : ℕ → String → SessionUpdate → Session → Session
updated_if now session_id u s = if s.id =? session_id then with_update now u s else s

abbrev pub is_empty : SessionUpdate → Bool
is_empty u =
    is_none u.title
    && is_none u.session_type
    && is_none u.status
    && is_none u.summary
    && is_none u.tags
    && is_none u.rating

unfoldable pub update_session :
    ℕ → String → SessionUpdate → Repository → Option Session × Repository
update_session now session_id u r =
    let r' : Repository =
      if is_empty u
      then r
      else record r { sessions = map (updated_if now session_id u) r.sessions } in
    (get_session session_id r', r')

-- `soft_delete_session`
abbrev pub deleted_if : ℕ → String → Session → Session
deleted_if now session_id s =
    if is_live session_id s then record s { deleted_at = some now; status = "deleted" } else s

unfoldable pub soft_delete_session : ℕ → String → Repository → Bool × Repository
soft_delete_session now session_id r = (
  any (is_live session_id) r.sessions,
  record r { sessions = map (deleted_if now session_id) r.sessions },
)

abbrev pub in_session : String → SessionMessage → Bool
in_session session_id m = m.session_id =? session_id

-- One more than the highest turn, which is -1 if there is none.
abbrev pub next_turn : List SessionMessage → ℕ
next_turn [] = 0
next_turn (m ∷ ms) = max (suc m.turn_index) (next_turn ms)

abbrev pub counted_if : ℕ → String → Session → Session
counted_if now session_id s =
    if s.id =? session_id
    then record s {
      message_count = s.message_count + 1;
      last_message_at = some now;
      updated_at = now;
    }
    else s

abbrev pub has_session : String → Session → Bool
has_session session_id s = s.id =? session_id

-- `add_message`: `none` if the table refuses a message of no session.
unfoldable pub add_message :
    ℕ
    → String
    → String
    → Option String
    → MessageCreate
    → Repository
    → Option (SessionMessage × Repository)
add_message now new_id session_id user_id d r =
    let message : SessionMessage = record {
      id = new_id;
      session_id = session_id;
      user_id = user_id;
      role = d.role;
      content = d.content;
      content_type = d.content_type;
      parent_message_id = d.parent_message_id;
      turn_index = next_turn (keep_if (in_session session_id) r.messages);
    } in
    let r' : Repository = record {
      sessions = map (counted_if now session_id) r.sessions;
      messages = r.messages ++ message ∷ [];
    } in
    if any (has_session session_id) r.sessions then some (message, r') else none

-- `order_by(turn_index.asc())`
unfoldable pub insert_turn : SessionMessage → List SessionMessage → List SessionMessage
insert_turn m [] = m ∷ []
insert_turn m (n ∷ ms) =
    let rest = insert_turn m ms in if leb m.turn_index n.turn_index then m ∷ n ∷ ms else n ∷ rest

unfoldable pub by_turn : List SessionMessage → List SessionMessage
by_turn [] = []
by_turn (m ∷ ms) = insert_turn m (by_turn ms)

pub record PageResult (A : Type 0) : Type 0 where
  pub items : List A
  pub total : ℕ
  pub total_pages : ℕ

abbrev pub pages : ℕ → ℕ → ℕ
pages total page_size = max 1 ((total + page_size - 1) / page_size)

-- `get_messages`
unfoldable pub get_messages : String → ℕ → ℕ → Repository → PageResult SessionMessage
get_messages session_id page page_size r =
    let own = keep_if (in_session session_id) r.messages in
    record {
      items = page_of page page_size (by_turn own);
      total = length own;
      total_pages = pages (length own) page_size;
    }
