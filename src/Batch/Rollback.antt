-- ===== src/Batch/Rollback.antt =====
-- What the jobs of app/batch/tasks.py report, and what they leave in the database.
use prd2tsd.Prelude.{
  ℕ, ◌+◌, ◌-◌, ◌*◌, String, some, true, List, [], ◌∷◌, ◌≡◌, ◌≢◌, refl, ap, ◌∙◌, arith, ◌==◌,
  if◌then◌else◌, map, length, keep_if, All, Text, eq_iff,
}
use prd2tsd.Documents.{Document, Service}
use prd2tsd.Batch.Jobs.{
  DbSession, get_session, SessionRow, day, get_retention_days, is_expired, deleted_if,
  cleanup_expired, cleanup, cleanup_all, cleanup_expired_sessions, Build, built, completed,
  find_document, index_document_to_kg,
}

abbrev pub Workspaces : Type 0
Workspaces = List (String × Text)

unfoldable pub IsDistinct : Workspaces → Type 0
IsDistinct [] = Unit
IsDistinct (w ∷ rest) = All (λ (v : String × Text). w.0 ≢ v.0) rest × IsDistinct rest

-- The live sessions of a workspace that are older than its plan keeps.
unfoldable pub expired : ℕ → List SessionRow → String × Text → ℕ
expired now rows (w, plan) =
    let days = get_retention_days plan in
    if days == 0 then 0 else length (keep_if (is_expired w (now - days * day)) rows)

abbrev pub expired_total : ℕ → List SessionRow → Workspaces → ℕ
expired_total now rows [] = 0
expired_total now rows (w ∷ rest) = expired now rows w + expired_total now rows rest

-- A deletion in one workspace leaves the others' expired sessions.
deleted_elsewhere :
    (now : ℕ) (w v : String) (b c : ℕ) (rows : List SessionRow)
    → w ≢ v
    → length (keep_if (is_expired v c) (map (deleted_if w b now) rows))
      ≡ length (keep_if (is_expired v c) rows)
deleted_elsewhere now w v b c [] other = refl
deleted_elsewhere now w v b c (row ∷ rows) other = ground (
  arith,
  eq_iff row.workspace_id w,
  eq_iff row.workspace_id v,
  deleted_elsewhere now w v b c rows other,
)

cleanup_elsewhere :
    (now : ℕ) (w : String) (plan : Text) (v : String × Text) (db : DbSession (List SessionRow))
    → w ≢ v.0
    → expired now (cleanup now w plan db).1.working v ≡ expired now db.working v
unfolding cleanup expired cleanup_expired
cleanup_elsewhere now w plan v db other = ground (
  arith,
  deleted_elsewhere now w v.0 (now - get_retention_days plan * day)
      (now - get_retention_days v.1 * day) db.working other,
)

cleanup_elsewhere_total :
    (now : ℕ) (w : String) (plan : Text) (rest : Workspaces) (db : DbSession (List SessionRow))
    → All (λ (v : String × Text). w ≢ v.0) rest
    → expired_total now (cleanup now w plan db).1.working rest ≡ expired_total now db.working rest
cleanup_elsewhere_total now w plan [] db others = refl
cleanup_elsewhere_total now w plan (v ∷ rest) db (other, others) = omega (
  arith,
  cleanup_elsewhere now w plan v db other,
  cleanup_elsewhere_total now w plan rest db others,
)

cleanup-expired :
    (now : ℕ) (w : String) (plan : Text) (db : DbSession (List SessionRow))
    → let (deleted, db') = cleanup now w plan db in
      (deleted ≡ expired now db.working (w, plan)) × (db'.committed ≡ db.committed)
unfolding cleanup expired cleanup_expired
cleanup-expired now w plan db = ground arith

cleanup_all-expired :
    (now : ℕ) (workspaces : Workspaces) (db : DbSession (List SessionRow))
    → IsDistinct workspaces
    → let (deleted, db') = cleanup_all now workspaces db in
      (deleted ≡ expired_total now db.working workspaces) × (db'.committed ≡ db.committed)
unfolding cleanup_all IsDistinct
cleanup_all-expired now [] db distinct = (refl, refl)
cleanup_all-expired now ((w, plan) ∷ rest) db (others, distinct) =
    let (first, kept) = cleanup-expired now w plan db in
    let (more, kept') = cleanup_all-expired now rest (cleanup now w plan db).1 distinct in
    let same = cleanup_elsewhere_total now w plan rest db others in (omega arith, kept' ∙ kept)

-- The cleanup job reports as deleted exactly the live sessions that are older than the plans of their
-- workspaces keep, each workspace being listed once, and the table is the one before: no session that
-- opens later sees a deletion, and the next run reports the same sessions again.
pub cleanup_undone :
    (now : ℕ) (workspaces : Workspaces) (rows : List SessionRow)
    → IsDistinct workspaces
    → let (deleted, left) = cleanup_expired_sessions true now workspaces rows in
      (deleted ≡ expired_total now rows workspaces)
      × (left ≡ rows)
      × ((cleanup_expired_sessions true now workspaces left).0 ≡ deleted)
unfolding cleanup_expired_sessions
cleanup_undone now workspaces rows distinct =
    let (count, kept) = cleanup_all-expired now workspaces (get_session rows) distinct in
    (count, kept, ap (λ l. (cleanup_all now workspaces (get_session l)).0) kept)

-- An indexing job whose document, object and graph builder answer reports the graph's size, and the
-- documents and the bucket stay as they were: the document keeps the status that it had before.
pub index_undone :
    (builder : String → Build) (document_id : String) (s : Service) (d : Document)
    (content : String) (entities relations : ℕ)
    → find_document document_id s.rows ≡ some d
    → s.objects d.storage_path ≡ some content
    → builder content ≡ built entities relations
    → let (answer, s') = index_document_to_kg true builder document_id s in
      (answer ≡ completed entities relations) × (s' ≡ s)
unfolding index_document_to_kg
index_undone builder document_id s d content entities relations found stored graph =
    rw found (rw stored (rw graph (refl, refl)))
