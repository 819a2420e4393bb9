-- ===== src/Batch/Jobs.antt =====
-- The Celery jobs `cleanup_expired_sessions` and `index_document_to_kg` of app/batch/tasks.py, over
-- `SessionCleanupPolicy` of app/session_history/cleanup.py, `cleanup_expired` of
-- app/session_history/repository.py and `update` of app/document_management/repository.py. A database
-- session works on rows of its own, which other sessions see once it commits.
use prd2tsd.Prelude.{
  ℕ, ◌+◌, ◌-◌, ◌*◌, String, Option, none, some, Bool, true, false, List, [], ◌∷◌, ltb, ◌==◌, ◌=?◌,
  ◌&&◌, if◌then◌else◌, map, length, keep_if, Text, codes, same_text, lower,
}
use prd2tsd.Documents.{Document, Service}

-- The rows as the session itself sees them, and as the others do.
pub record DbSession (A : Type 0) : Type 0 where
  pub working : A
  pub committed : A

-- `connector.get_session()`
abbrev pub get_session : {A : Type 0} → A → DbSession A
get_session rows = record { working = rows; committed = rows }

-- The end of `async with`: what was not committed is rolled back.
abbrev pub close : {A : Type 0} → DbSession A → A
close db = db.committed

pub record SessionRow : Type 0 where
  pub workspace_id : String
  pub last_message_at : Option ℕ
  pub deleted_at : Option ℕ
  pub status : String

abbrev pub day : ℕ
day = 86400

-- `get_retention_days`
unfoldable pub get_retention_days : Text → ℕ
get_retention_days plan =
    let name = lower plan in
    if same_text name (codes "pro")
    then 180
    else if same_text name (codes "enterprise")
    then 0
    else 30

abbrev pub is_none : Option ℕ → Bool
is_none none = true
is_none (some t) = false

-- A session without messages is never before a time.
abbrev pub is_before : Option ℕ → ℕ → Bool
is_before none before = false
is_before (some t) before = ltb t before

abbrev pub is_expired : String → ℕ → SessionRow → Bool
is_expired workspace_id before row =
    row.workspace_id =? workspace_id
    && is_none row.deleted_at
    && is_before row.last_message_at before

abbrev pub deleted_if : String → ℕ → ℕ → SessionRow → SessionRow
deleted_if workspace_id before now row =
    if is_expired workspace_id before row
    then record row { deleted_at = some now; status = "deleted" }
    else row

-- `repository.cleanup_expired`: the number of rows, and the session after the statement.
unfoldable pub cleanup_expired :
    ℕ → String → ℕ → DbSession (List SessionRow) → ℕ × DbSession (List SessionRow)
cleanup_expired now workspace_id before db = (
  length (keep_if (is_expired workspace_id before) db.working),
  record db { working = map (deleted_if workspace_id before now) db.working },
)

-- `SessionCleanupPolicy.cleanup`
unfoldable pub cleanup :
    ℕ → String → Text → DbSession (List SessionRow) → ℕ × DbSession (List SessionRow)
cleanup now workspace_id plan db =
    let days = get_retention_days plan in
    if days == 0 then (0, db) else cleanup_expired now workspace_id (now - days * day) db

unfoldable pub cleanup_all :
    ℕ → List (String × Text) → DbSession (List SessionRow) → ℕ × DbSession (List SessionRow)
cleanup_all now [] db = (0, db)
cleanup_all now ((workspace_id, plan) ∷ rest) db =
    let (deleted, db') = cleanup now workspace_id plan db in
    let (more, db'') = cleanup_all now rest db' in (deleted + more, db'')

-- `cleanup_expired_sessions`: the number that it reports, and the table. A workspace's plan is its
-- organization's, or "free". Without a database nothing is deleted.
unfoldable pub cleanup_expired_sessions :
    Bool → ℕ → List (String × Text) → List SessionRow → ℕ × List SessionRow
cleanup_expired_sessions false now workspaces rows = (0, rows)
cleanup_expired_sessions true now workspaces rows =
    let (deleted, db) = cleanup_all now workspaces (get_session rows) in (deleted, close db)

-- The answer of an indexing job; `retry` is Celery's.
pub data Answer : Type 0 where
  not_found : Answer
  completed : ℕ → ℕ → Answer
  retry : Answer

-- What the graph builder answers: the numbers of entities and relations, or an exception.
pub data Build : Type 0 where
  built : ℕ → ℕ → Build
  raised : String → Build

-- `DocumentUpdate`: an error that is not given stays. The columns that only report the graph are left
-- out, as in the documents' table.
abbrev pub updated : String → String → Option (Option String) → Document → Document
updated document_id status none d =
    if d.id =? document_id then record d { processing_status = status } else d
updated document_id status (some error) d =
    if d.id =? document_id
    then record d { processing_status = status; processing_error = error }
    else d

-- `repository.update`: a statement and a flush.
abbrev pub update :
    String → String → Option (Option String) → DbSession (List Document) → DbSession (List Document)
update document_id status error db = record db {
  working = map (updated document_id status error) db.working;
}

unfoldable pub find_document : String → List Document → Option Document
find_document document_id [] = none
find_document document_id (d ∷ rows) =
    let rest = find_document document_id rows in if d.id =? document_id then some d else rest

abbrev pub build_found :
    String → Build → DbSession (List Document) → Answer × DbSession (List Document)
build_found document_id (built entities relations) db =
    (completed entities relations, update document_id "indexed" (some none) db)
build_found document_id (raised error) db =
    (retry, update document_id "failed" (some (some error)) db)

-- From the download on, which raises where the bucket has no object.
abbrev pub index_content :
    (String → Build)
    → String
    → Option String
    → DbSession (List Document)
    → Answer × DbSession (List Document)
index_content builder document_id none db = (retry, db)
index_content builder document_id (some content) db =
    build_found document_id (builder content) (update document_id "processing" none db)

abbrev pub index_found :
    (String → Build)
    → String
    → Service
    → Option Document
    → DbSession (List Document)
    → Answer × DbSession (List Document)
index_found builder document_id s none db = (not_found, db)
index_found builder document_id s (some d) db =
    index_content builder document_id (s.objects d.storage_path) db

-- `index_document_to_kg`, one attempt. A path that `build_path` made is never empty.
unfoldable pub index_document_to_kg : Bool → (String → Build) → String → Service → Answer × Service
index_document_to_kg false builder document_id s = (retry, s)
index_document_to_kg true builder document_id s =
    let (answer, db) =
      index_found builder document_id s (find_document document_id s.rows) (get_session s.rows) in
    (answer, record s { rows = close db })
