-- ===== src/Documents.antt =====
-- app/document_management: service.py over repository.py, deduplication.py and storage.py. A section
-- takes what the code calls elsewhere: the hash function. Clocks, new identifiers and whether MinIO
-- and Celery are up are inputs; the database is up.
pub mod Valid
pub mod Objects
pub mod Retrieval
pub mod Race
pub mod Queries
mod Tests
use prd2tsd.Prelude.{
  ℕ, zero, suc, ◌+◌, ◌-◌, ◌*◌, String, Option, none, some, Bool, true, false, not, List, [], ◌∷◌,
  ◌++◌, ltb, leb, ◌==◌, ◌=?◌, ◌&&◌, ◌||◌, length, take, keep_if, any, map, if◌then◌else◌, Text,
  codes, same_text, lower,
}

-- The parts that `_build_path` formats. Workspace ids and hashes hold no slash and no dot, so that
-- the formatted paths are the same exactly if the parts are.
pub record StoragePath : Type 0 where
  pub workspace_id : String
  pub year : ℕ
  pub month : ℕ
  pub file_hash : String
  pub ext : Text

abbrev pub same_path : StoragePath → StoragePath → Bool
same_path p q =
    p.workspace_id =? q.workspace_id
    && p.file_hash =? q.file_hash
    && p.year == q.year
    && p.month == q.month
    && same_text p.ext q.ext

-- `UploadedDocument`, without the columns that no operation here reads.
pub record Document : Type 0 where
  pub id : String
  pub workspace_id : String
  pub user_id : String
  pub original_filename : String
  pub storage_path : StoragePath
  pub file_size : ℕ
  pub file_type : Text
  pub file_hash : String
  pub session_id : Option String
  pub tags : List String
  pub processing_status : String
  pub processing_error : Option String
  pub is_deleted : Bool

-- The table, the bucket and the queue of the indexing task.
pub record Service : Type 0 where
  pub rows : List Document
  pub objects : StoragePath → Option String
  pub queued : List String

-- `filename[filename.rfind("."):]`, if there is a dot.
abbrev or_else : Option Text → Option Text → Option Text
or_else none o = o
or_else (some t) o = some t

pub from_last_dot : Text → Option Text
from_last_dot [] = none
from_last_dot (c ∷ s) = or_else (from_last_dot s) (if c == b'.' then some (c ∷ s) else none)

abbrev ext_or : Option Text → Text
ext_or none = codes ".bin"
ext_or (some t) = lower t

-- `_get_ext`
unfoldable pub get_ext : String → Text
unfolding from_last_dot
get_ext filename = ext_or (from_last_dot (codes filename))

abbrev pub allowed_extensions : List Text
allowed_extensions =
    map codes (".md" ∷ ".pdf" ∷ ".docx" ∷ ".txt" ∷ ".csv" ∷ ".tsv" ∷ ".png" ∷ ".jpg" ∷ ".jpeg" ∷ [])

abbrev pub max_file_size : ℕ
max_file_size = 50 * 1024 * 1024

-- The set of `is_indexable` in multi_format_loader.py.
abbrev pub supported_extensions : List Text
supported_extensions =
    map codes (".md" ∷ ".txt" ∷ ".csv" ∷ ".tsv" ∷ ".docx" ∷ ".pdf" ∷ ".png" ∷ ".jpg" ∷ ".jpeg" ∷ [])

abbrev pub is_indexable : String → Bool
is_indexable filename = any (same_text (get_ext filename)) supported_extensions

-- `ext.lstrip(".")`
unfoldable pub lstrip_dots : Text → Text
lstrip_dots [] = []
lstrip_dots (c ∷ s) = let rest = lstrip_dots s in if c == b'.' then rest else c ∷ s

-- `_build_path`
abbrev pub build_path : String → ℕ → ℕ → String → Text → StoragePath
build_path workspace_id year month file_hash ext = record {
  workspace_id = workspace_id;
  year = year;
  month = month;
  file_hash = file_hash;
  ext = ext;
}

-- `repository.get`: the row of an id that is not deleted.
abbrev pub has_id : String → Document → Bool
has_id document_id d = d.id =? document_id && not d.is_deleted

unfoldable pub find_row : String → List Document → Option Document
find_row document_id [] = none
find_row document_id (d ∷ rows) =
    let rest = find_row document_id rows in if has_id document_id d then some d else rest

abbrev pub get : Service → String → Option Document
get s document_id = find_row document_id s.rows

-- `scalar_one_or_none`: raises if there are several rows.
pub data Found : Type 0 where
  nothing : Found
  one : Document → Found
  several : Found

abbrev pub scalar_one_or_none : List Document → Found
scalar_one_or_none [] = nothing
scalar_one_or_none (d ∷ []) = one d
scalar_one_or_none (d ∷ e ∷ rows) = several

abbrev pub has_hash : String → String → Document → Bool
has_hash workspace_id file_hash d =
    d.workspace_id =? workspace_id && d.file_hash =? file_hash && not d.is_deleted

-- `get_by_hash`
abbrev pub get_by_hash : Service → String → String → Found
get_by_hash s workspace_id file_hash =
    scalar_one_or_none (keep_if (has_hash workspace_id file_hash) s.rows)

-- `update` of the status: every row of the id.
abbrev pub with_status : String → String → Document → Document
with_status document_id status d =
    if d.id =? document_id
    then record d { processing_status = status; processing_error = none }
    else d

abbrev pub set_status : String → String → List Document → List Document
set_status document_id status = map (with_status document_id status)

-- `soft_delete`
abbrev pub with_mark : String → Document → Document
with_mark document_id d = if has_id document_id d then record d { is_deleted = true } else d

abbrev pub mark_deleted : String → List Document → List Document
mark_deleted document_id = map (with_mark document_id)

pub record Upload : Type 0 where
  pub workspace_id : String
  pub user_id : String
  pub content : String
  pub size : ℕ
  pub filename : String
  pub session_id : Option String
  pub tags : List String

-- The inputs of an upload: the new id, the date, and whether MinIO and Celery are up.
pub record World : Type 0 where
  pub fresh : String
  pub year : ℕ
  pub month : ℕ
  pub minio_up : Bool
  pub celery_up : Bool

pub data UploadResult : Type 0 where
  unsupported : UploadResult
  too_large : UploadResult
  several_found : UploadResult
  storage_down : UploadResult
  deduplicated : Document → UploadResult
  uploaded : Document → UploadResult

abbrev pub put_object :
    StoragePath → String → (StoragePath → Option String) → StoragePath → Option String
put_object p content objects q = if same_path p q then some content else objects q

abbrev pub remove_object : StoragePath → (StoragePath → Option String) → StoragePath → Option String
remove_object p objects q = if same_path p q then none else objects q

module _ (sha256 : String → String) where
  -- The row that `create` writes.
  abbrev pub new_document : World → Upload → Document
  new_document world u = record {
    id = world.fresh;
    workspace_id = u.workspace_id;
    user_id = u.user_id;
    original_filename = u.filename;
    storage_path =
        build_path u.workspace_id world.year world.month (sha256 u.content) (get_ext u.filename);
    file_size = u.size;
    file_type = lstrip_dots (get_ext u.filename);
    file_hash = sha256 u.content;
    session_id = u.session_id;
    tags = u.tags;
    processing_status = "pending";
    processing_error = none;
    is_deleted = false;
  }

  -- Step 3: the object, the row and the task. The row that is returned was read before the update.
  unfoldable pub store_document : World → Upload → Service → UploadResult × Service
  store_document world u s =
      let d = new_document world u in
      let indexes = is_indexable u.filename in
      let rows = s.rows ++ d ∷ [] in
      if world.minio_up
      then (
        uploaded d,
        record s {
          rows = if indexes then set_status d.id "pending" rows else rows;
          objects = put_object d.storage_path u.content s.objects;
          queued = if indexes && world.celery_up then d.id ∷ s.queued else s.queued;
        },
      )
      else (storage_down, s)

  -- Step 2: what the search for the hash has found.
  unfoldable pub after_search : World → Upload → Found → Service → UploadResult × Service
  after_search world u nothing s = store_document world u s
  after_search world u (one d) s = (deduplicated d, s)
  after_search world u several s = (several_found, s)

  -- `upload`
  unfoldable pub upload : World → Upload → Service → UploadResult × Service
  upload world u s =
      if not (any (same_text (get_ext u.filename)) allowed_extensions)
      then (unsupported, s)
      else if ltb max_file_size u.size
      then (too_large, s)
      else after_search world u (get_by_hash s u.workspace_id (sha256 u.content)) s

-- `get_document_content`: `none` if there is no such document; a missing object raises.
pub data Content : Type 0 where
  no_document : Content
  missing : Content
  content_of : String → String → Content

abbrev pub downloaded : String → Option String → Content
downloaded filename none = missing
downloaded filename (some content) = content_of content filename

abbrev pub content_at : Service → Option Document → Content
content_at s none = no_document
content_at s (some d) = downloaded d.original_filename (s.objects d.storage_path)

abbrev pub get_document_content : Service → String → Content
get_document_content s document_id = content_at s (get s document_id)

-- `delete_document`: a removal that MinIO refuses is logged and forgotten.
abbrev pub delete_found : Bool → String → Option Document → Service → Bool × Service
delete_found minio_up document_id none s = (false, s)
delete_found minio_up document_id (some d) s = (
  any (has_id document_id) s.rows,
  record s {
    objects = if minio_up then remove_object d.storage_path s.objects else s.objects;
    rows = mark_deleted document_id s.rows;
  },
)

unfoldable pub delete_document : Bool → String → Service → Bool × Service
delete_document minio_up document_id s = delete_found minio_up document_id (get s document_id) s

-- `reindex`
abbrev pub reindex_found : String → Option Document → Service → Bool × Service
reindex_found document_id none s = (false, s)
reindex_found document_id (some d) s =
    (true, record s { rows = set_status document_id "pending" s.rows })

unfoldable pub reindex : String → Service → Bool × Service
reindex document_id s = reindex_found document_id (get s document_id) s
