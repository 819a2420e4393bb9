-- ===== src/Documents/Tests.antt =====
-- A service with one document, and the theorems about it; the content stands for its own hash.
use prd2tsd.Prelude.{
  String, none, some, true, false, [], ◌∷◌, ◌≡◌, refl, arith, All, inr, ◌=?◌, lower, codes,
  same_text, if◌then◌else◌, any,
}
use prd2tsd.Documents.{
  Document, Service, StoragePath, build_path, Upload, World, upload, delete_document, reindex,
  get_ext, allowed_extensions, is_indexable, several_found, missing, get_document_content,
}
use prd2tsd.Documents.Objects.{IsValid, operations-IsValid}
use prd2tsd.Documents.Retrieval.{Answered, Kept, upload-Kept}
use prd2tsd.Documents.Race.{twice, uploads_collide}

report_ext : get_ext "report.v2.PDF" ≡ codes ".pdf"
unfolding get_ext lower
report_ext = refl

no_ext : get_ext "README" ≡ codes ".bin"
unfolding get_ext
no_ext = refl

abbrev hash : String → String
hash content = content

abbrev path : StoragePath
path = build_path "w" 2026 5 "abc" (codes ".md")

abbrev document : Document
document = record {
  id = "d1";
  workspace_id = "w";
  user_id = "u";
  original_filename = "a.md";
  storage_path = path;
  file_size = 3;
  file_type = codes "md";
  file_hash = "abc";
  session_id = none;
  tags = [];
  processing_status = "pending";
  processing_error = none;
  is_deleted = false;
}

abbrev service : Service
service = record {
  rows = document ∷ [];
  objects = λ p. if p.file_hash =? "abc" then some "abc" else none;
  queued = [];
}

service-IsValid : IsValid hash service
service-IsValid = record {
  distinct = (tt, tt);
  placed = ((refl, refl), tt);
  stored = (inr ("abc", refl, refl), tt);
}

abbrev world : World
world = record { fresh = "d2"; year = 2026; month = 6; minio_up = true; celery_up = false }

abbrev sent : Upload
sent = record {
  workspace_id = "w";
  user_id = "u";
  content = "xyz";
  size = 3;
  filename = "b.txt";
  session_id = none;
  tags = [];
}

fresh : All (λ e. (e.id =? "d2") ≡ false) service.rows
fresh = (refl, tt)

operations-IsValid_example :
    IsValid hash (upload hash world sent service).1
    × IsValid hash (delete_document true "d1" service).1
    × IsValid hash (reindex "d1" service).1
operations-IsValid_example = operations-IsValid hash world sent "d1" service service-IsValid fresh

allowed : any (same_text (get_ext "b.txt")) allowed_extensions ≡ true
unfolding get_ext lower same_text
allowed = refl

indexable : is_indexable "b.txt" ≡ true
unfolding get_ext lower same_text
indexable = refl

upload-Kept_example :
    let (r, s') = upload hash world sent service in
    (d : Document) × Answered hash r d × Kept hash s' d.id "xyz"
upload-Kept_example =
    upload-Kept hash world sent service service-IsValid fresh refl allowed (omega arith)

uploads_collide_example :
    let s' = twice hash world "d3" sent service in
    ((upload hash (record world { fresh = "d4" }) sent s').0 ≡ several_found)
    × (get_document_content (delete_document true "d2" s').1 "d3" ≡ missing)
uploads_collide_example =
    uploads_collide hash world (record world { fresh = "d4" }) "d3" sent service refl fresh
      (refl, tt) refl refl allowed indexable (omega arith)
