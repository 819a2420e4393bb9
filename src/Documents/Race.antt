-- ===== src/Documents/Race.antt =====
-- Two uploads of one file at the same time (app/document_management/service.py): the search for the
-- hash and the new row are two transactions, and another upload may come between them.
use prd2tsd.Prelude.{
  String, some, Bool, true, false, List, [], ◌∷◌, ◌++◌, ◌≡◌, refl, ap, ◌∙◌, arith, ◌=?◌, ◌&&◌,
  keep_if, keep_if-append, any, All, if◌then◌else◌, Bool-cases, map, same_text, eq_iff, text_same,
  inl, inr, le→not_ltb, ◌≤◌,
}
use prd2tsd.Documents.{
  Document, Service, find_row, nothing, has_hash, get_by_hash, with_status, set_status,
  mark_deleted, Upload, World, several_found, put_object, new_document, store_document,
  after_search, upload, get_ext, allowed_extensions, max_file_size, is_indexable, delete_document,
  missing, get_document_content,
}
use prd2tsd.Documents.Valid.{not_found}
use prd2tsd.Documents.Retrieval.{keep_none}
use prd2tsd.Documents.Objects.{same_path_refl}

-- The rows after two uploads.
abbrev two_rows : List Document → Document → Document → List Document
two_rows rows d e = set_status e.id "pending" (set_status d.id "pending" (rows ++ d ∷ []) ++ e ∷ [])

abbrev first_of : Document → Document → Document
first_of d e = with_status e.id "pending" (with_status d.id "pending" d)

abbrev second_of : Document → Document
second_of e = with_status e.id "pending" e

keep_if-map :
    (p : Document → Bool) (f : Document → Document)
    → ((d : Document) → p (f d) ≡ p d)
    → (rows : List Document) → keep_if p (map f rows) ≡ map f (keep_if p rows)
keep_if-map p f same [] = refl
keep_if-map p f same (r ∷ rows) = elim (Bool-cases (p r)) [
  | inl passes ↦ rw (same r) (rw passes (ap (λ l. f r ∷ l) (keep_if-map p f same rows)))
  | inr fails ↦ rw (same r) (rw fails (keep_if-map p f same rows))
]

has_hash-with_status :
    (w h i : String) (d : Document) → has_hash w h (with_status i "pending" d) ≡ has_hash w h d
has_hash-with_status w h i d = elim (Bool-cases (d.id =? i)) [ inl e ↦ rw e | inr e ↦ rw e ]

kept_two :
    (w h : String) (rows : List Document) (d e : Document)
    → All (λ r. has_hash w h r ≡ false) rows
    → has_hash w h d ≡ true
    → has_hash w h e ≡ true
    → keep_if (has_hash w h) (two_rows rows d e) ≡ first_of d e ∷ second_of e ∷ []
kept_two w h rows d e none_yet hd he =
    let p : Document → Bool = has_hash w h in
    rw
      (keep_if-map p (with_status e.id "pending") (has_hash-with_status w h e.id)
        (set_status d.id "pending" (rows ++ d ∷ []) ++ e ∷ []))
      (rw (keep_if-append p (set_status d.id "pending" (rows ++ d ∷ [])) (e ∷ [])) (
        rw
          (keep_if-map p (with_status d.id "pending") (has_hash-with_status w h d.id)
            (rows ++ d ∷ []))
          (rw (keep_if-append p rows (d ∷ [])) (rw (keep_none p rows none_yet) (rw hd (rw he))))))

find_first :
    (rows : List Document) (d e : Document)
    → All (λ r. (r.id =? d.id) ≡ false) rows
    → d.is_deleted ≡ false
    → find_row d.id (two_rows rows d e) ≡ some (first_of d e)
unfolding find_row
find_first [] d e new live = ground (arith, live, text_same d.id)
find_first (r ∷ rows) d e new live = ground (arith, new.0, find_first rows d e new.1 live)

find_second :
    (rows : List Document) (d e : Document)
    → All (λ r. (r.id =? e.id) ≡ false) rows
    → (d.id =? e.id) ≡ false
    → e.is_deleted ≡ false
    → find_row e.id (mark_deleted d.id (two_rows rows d e)) ≡ some (second_of e)
unfolding find_row
find_second [] d e new other live =
    ground (arith, live, other, text_same e.id, eq_iff d.id e.id, eq_iff e.id d.id)
find_second (r ∷ rows) d e new other live =
    ground (arith, new.0, find_second rows d e new.1 other live)

first_path : (d e : Document) → (first_of d e).storage_path ≡ d.storage_path
first_path d e = ground arith

second_path : (e : Document) → (second_of e).storage_path ≡ e.storage_path
second_path e = ground arith

module _ (sha256 : String → String) where
  -- Both uploads have found nothing, and store their documents one after the other.
  abbrev pub twice : World → String → Upload → Service → Service
  twice world second u s =
      (store_document sha256 (record world { fresh = second }) u
        (store_document sha256 world u s).1).1

  -- The service after one.
  abbrev one_stored : World → Upload → Service → Service
  one_stored world u s =
      let d = new_document sha256 world u in
      record {
        rows = set_status d.id "pending" (s.rows ++ d ∷ []);
        objects = put_object d.storage_path u.content s.objects;
        queued = if is_indexable u.filename && world.celery_up then d.id ∷ s.queued else s.queued;
      }

  store_lem :
      (world : World) (u : Upload) (s : Service)
      → world.minio_up ≡ true
      → is_indexable u.filename ≡ true
      → (store_document sha256 world u s).1 ≡ one_stored world u s
  unfolding store_document
  store_lem world u s up indexes = ground (arith, up, indexes)

  twice_lem :
      (world : World) (second : String) (u : Upload) (s : Service)
      → world.minio_up ≡ true
      → is_indexable u.filename ≡ true
      → twice world second u s
        ≡ (one_stored (record world { fresh = second }) u (one_stored world u s))
  twice_lem world second u s up indexes =
      store_lem (record world { fresh = second }) u (store_document sha256 world u s).1 up indexes
      ∙ ap (one_stored (record world { fresh = second }) u) (store_lem world u s up indexes)

  -- A file of an allowed type and size, and of a type that is indexed, is uploaded twice at once under
  -- two fresh ids while MinIO is up, so that both searches for its hash find nothing. Then an upload of
  -- it to the workspace right after the two raises, and a deletion of the first document right after
  -- the two takes away the content of the second one.
  pub uploads_collide :
      (world third : World) (second : String) (u : Upload) (s : Service)
      → get_by_hash s u.workspace_id (sha256 u.content) ≡ nothing
      → All (λ r. (r.id =? world.fresh) ≡ false) s.rows
      → All (λ r. (r.id =? second) ≡ false) s.rows
      → (world.fresh =? second) ≡ false
      → world.minio_up ≡ true
      → any (same_text (get_ext u.filename)) allowed_extensions ≡ true
      → is_indexable u.filename ≡ true
      → u.size ≤ max_file_size
      → let s' = twice world second u s in
        ((upload sha256 third u s').0 ≡ several_found)
        × (get_document_content (delete_document true world.fresh s').1 second ≡ missing)
  unfolding upload after_search delete_document
  uploads_collide world third second u s new fresh fresh' other up allowed indexes small =
      let d : Document = new_document sha256 world u in
      let e : Document = new_document sha256 (record world { fresh = second }) u in
      let s' : Service = (one_stored (record world { fresh = second }) u (one_stored world u s)) in
      rw (twice_lem world second u s up indexes) (
        rw allowed (
            rw (le→not_ltb max_file_size u.size small) (
              rw (
                kept_two u.workspace_id (sha256 u.content) s.rows d e
                  (not_found (has_hash u.workspace_id (sha256 u.content)) s.rows new)
                  (ground (arith, text_same u.workspace_id, text_same (sha256 u.content)))
                  (ground (arith, text_same u.workspace_id, text_same (sha256 u.content)))))),
        rw (find_first s.rows d e fresh refl) (
            rw (find_second s.rows d e fresh' other refl)
              (rw (first_path d e) (rw (second_path e) (rw (same_path_refl d.storage_path))))),
      )
