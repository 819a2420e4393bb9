-- ===== src/Batch/Tests.antt =====
-- A batch of two documents, two workspaces with old sessions, an uploaded document and two pages.
use prd2tsd.Prelude.{
  String, none, some, true, false, List, [], ◌∷◌, ◌≡◌, refl, arith, map, take, codes, lower,
  same_text, eq_iff,
}
use prd2tsd.Prelude.Dict.{lookup}
use prd2tsd.Documents.{Document, Service, StoragePath}
use prd2tsd.Batch.{
  BatchTaskService, Made, reindex_documents, get_task_status, update_progress, restart,
}
use prd2tsd.Batch.Restart.{untimed, Reach, started, reindexed, updated, restart_answers}
use prd2tsd.Batch.Jobs.{
  SessionRow, get_retention_days, cleanup_expired_sessions, Build, built, completed, find_document,
  index_document_to_kg,
}
use prd2tsd.Batch.Rollback.{
  Workspaces, expired, expired_total, IsDistinct, cleanup_undone, index_undone,
}
use prd2tsd.Batch.Sync.{Condition, Response, page, sync_web_resources}
use prd2tsd.Batch.Changes.{IsRepeatFree, first_meeting, job_never_remembers}

abbrev made : Made
made = record { task_id = "b1"; now = 5; later = 6 }

abbrev begun : BatchTaskService
begun = (reindex_documents true made "w1" ("d1" ∷ "d2" ∷ []) (record { tasks = []; table = [] })).1

abbrev advanced : BatchTaskService
advanced = (update_progress true "b1" 50 "running" 7 begun).1

begun-Reach : Reach begun
unfolding lookup
begun-Reach =
    reindexed (record { tasks = []; table = [] }) made "w1" ("d1" ∷ "d2" ∷ []) (started []) refl

restart_answers_example :
    (untimed (get_task_status true "b1" (restart advanced))
      ≡ untimed (get_task_status true "b1" advanced))
    × ((update_progress true "b1" 100 "completed" 9 (restart advanced)).0
        ≡ (update_progress true "b1" 100 "completed" 9 advanced).0)
restart_answers_example =
    restart_answers advanced "b1" 100 "completed" 9 (updated begun "b1" 50 "running" 7 begun-Reach)

abbrev workspaces : Workspaces
workspaces = ("w1", codes "free") ∷ ("w2", codes "Enterprise") ∷ []

abbrev sessions : List SessionRow
sessions =
    record { workspace_id = "w1"; last_message_at = some 10; deleted_at = none; status = "active" }
    ∷ record {
      workspace_id = "w2";
      last_message_at = some 10;
      deleted_at = none;
      status = "active";
    }
    ∷ []

workspaces-IsDistinct : IsDistinct workspaces
unfolding IsDistinct
workspaces-IsDistinct = (((λ e. ground (arith, (eq_iff "w1" "w2").1 e)), tt), (tt, tt))

-- One session is reported as deleted, again and again.
one_expired : expired_total 9000000 sessions workspaces ≡ 1
unfolding expired get_retention_days lower same_text
one_expired = refl

cleanup_undone_example :
    let (deleted, left) = cleanup_expired_sessions true 9000000 workspaces sessions in
    (deleted ≡ expired_total 9000000 sessions workspaces)
    × (left ≡ sessions)
    × ((cleanup_expired_sessions true 9000000 workspaces left).0 ≡ deleted)
cleanup_undone_example = cleanup_undone 9000000 workspaces sessions workspaces-IsDistinct

abbrev path : StoragePath
path = record { workspace_id = "w1"; year = 2026; month = 7; file_hash = "h"; ext = codes ".txt" }

abbrev document : Document
document = record {
  id = "d1";
  workspace_id = "w1";
  user_id = "u1";
  original_filename = "a.txt";
  storage_path = path;
  file_size = 4;
  file_type = codes ".txt";
  file_hash = "h";
  session_id = none;
  tags = [];
  processing_status = "pending";
  processing_error = none;
  is_deleted = false;
}

abbrev documents : Service
documents = record { rows = document ∷ []; objects = λ p. some "text"; queued = "d1" ∷ [] }

abbrev builder : String → Build
builder content = built 3 2

found : find_document "d1" documents.rows ≡ some document
unfolding find_document
found = refl

index_undone_example :
    let (answer, s') = index_document_to_kg true builder "d1" documents in
    (answer ≡ completed 3 2) × (s' ≡ documents)
index_undone_example = index_undone builder "d1" documents document "text" 3 2 found refl refl

abbrev network : String → Condition → Response
network url c = page "text" "tag" ""

abbrev later : String → Condition → Response
later url c = page "other" "tag2" ""

abbrev hash : String → String
hash content = content

urls-IsRepeatFree : IsRepeatFree (take 50 ("https://a" ∷ "https://b" ∷ []))
unfolding IsRepeatFree
urls-IsRepeatFree = (((λ e. ground (arith, (eq_iff "https://a" "https://b").1 e)), tt), (tt, tt))

job_never_remembers_example :
    sync_web_resources hash network ("https://a" ∷ "https://b" ∷ [])
    ≡ map (first_meeting hash network) (take 50 ("https://a" ∷ "https://b" ∷ []))
job_never_remembers_example =
    job_never_remembers hash network ("https://a" ∷ "https://b" ∷ []) urls-IsRepeatFree
