-- ===== src/Documents/Retrieval.antt =====
-- What app/document_management/service.py gives back of an upload, and what two uploads at once of the
-- same content do.
use mathlib.Core.Path.{subst}
use prd2tsd.Prelude.{
  ◌≤◌, String, some, Bool, true, false, List, [], ◌∷◌, ◌++◌, ◌≡◌, ◌≢◌, ◌⊎◌, inl, inr, refl, ap, ◌∙◌,
  arith, ◌=?◌, keep_if, any, All, All-map, Bool-cases, same_text, eq_iff, text_same, le→not_ltb,
}
use prd2tsd.Documents.{
  Document, Service, find_row, Found, nothing, one, several, scalar_one_or_none, has_hash,
  get_by_hash, with_status, set_status, Upload, World, UploadResult, uploaded, deduplicated,
  new_document, store_document, after_search, upload, get_ext, allowed_extensions, max_file_size,
  is_indexable, get, content_at, downloaded, content_of, get_document_content,
}
use prd2tsd.Documents.Valid.{Apart, Distinct, Placed, All_found}
use prd2tsd.Documents.Objects.{IsValid, Stored, after_search-IsValid, found_lives}

-- The rows that a test keeps satisfy it, and what all rows satisfy.
pub keep_none :
    (p : Document → Bool) (rows : List Document) → All (λ d. p d ≡ false) rows → keep_if p rows ≡ []
keep_none p [] h = refl
keep_none p (d ∷ rows) h = ground (arith, h.0, keep_none p rows h.1)

head_one : (r d : Document) (rows : List Document) → scalar_one_or_none (r ∷ rows) ≡ one d → r ≡ d
head_one r d [] e = cc e
head_one r d (q ∷ rows) e = absurd (cc e)

kept_one {ℓ} :
    (P : Document → Type ℓ) (p : Document → Bool) (rows : List Document) (d : Document)
    → All P rows
    → scalar_one_or_none (keep_if p rows) ≡ one d
    → P d × (p d ≡ true)
kept_one P p [] d h e = absurd (cc e)
kept_one P p (r ∷ rows) d h e = elim (Bool-cases (p r)) [
  | inl passes ↦
      let same : r ≡ d = head_one r d (keep_if p rows) (ground (arith, passes, e)) in
      (subst P same h.0, subst (λ x. p x ≡ true) same passes)
  | inr fails ↦ kept_one P p rows d h.1 (ground (arith, fails, e))
]

-- In rows with different hashes a hash is found once at most.
never_several :
    (w h : String) (rows : List Document)
    → Distinct rows
    → scalar_one_or_none (keep_if (has_hash w h) rows) ≢ several
never_several w h [] v = λ e. cc e
never_several w h (d ∷ rows) v = elim (Bool-cases (has_hash w h d)) [
  | inl passes ↦
      let others : keep_if (has_hash w h) rows ≡ [] = keep_none (has_hash w h) rows (
        All-map
          (λ e a. ground (
            arith,
            passes,
            a.0,
            eq_iff d.workspace_id e.workspace_id,
            eq_iff d.workspace_id w,
            eq_iff e.workspace_id w,
            eq_iff d.file_hash e.file_hash,
            eq_iff d.file_hash h,
            eq_iff e.file_hash h,
          ))
          rows v.0) in
      rw passes (rw others (λ e. cc e))
  | inr fails ↦ rw fails (never_several w h rows v.1)
]

-- The row that is found by a hash is found by its id.
found_by_id :
    (w h : String) (rows : List Document) (d : Document)
    → Distinct rows
    → scalar_one_or_none (keep_if (has_hash w h) rows) ≡ one d
    → find_row d.id rows ≡ some d
unfolding find_row
found_by_id w h [] d v e = absurd (cc e)
found_by_id w h (r ∷ rows) d v e = elim (Bool-cases (has_hash w h r)) [
  | inl passes ↦
      let same : r ≡ d = head_one r d (keep_if (has_hash w h) rows) (ground (arith, passes, e)) in
      subst (λ x. find_row x.id (r ∷ rows) ≡ some x) same (ground (arith, passes, text_same r.id))
  | inr fails ↦
      let later : scalar_one_or_none (keep_if (has_hash w h) rows) ≡ one d =
        ground (arith, fails, e) in
      ground (
        arith,
        (kept_one (Apart r) (has_hash w h) rows d v.0 later).0.1,
        found_by_id w h rows d v.1 later,
      )
]

-- A new row is found by its id behind rows with other ids.
found_last :
    (rows : List Document) (d : Document)
    → All (λ e. (e.id =? d.id) ≡ false) rows
    → d.is_deleted ≡ false
    → find_row d.id (rows ++ d ∷ []) ≡ some d
unfolding find_row
found_last [] d new live = ground (arith, live, text_same d.id)
found_last (r ∷ rows) d new live = ground (arith, new.0, found_last rows d new.1 live)

found_last_pending :
    (rows : List Document) (d : Document)
    → All (λ e. (e.id =? d.id) ≡ false) rows
    → d.is_deleted ≡ false
    → find_row d.id (set_status d.id "pending" (rows ++ d ∷ []))
      ≡ some (with_status d.id "pending" d)
unfolding find_row
found_last_pending [] d new live = ground (arith, live, text_same d.id)
found_last_pending (r ∷ rows) d new live =
    ground (arith, new.0, found_last_pending rows d new.1 live)

module _ (sha256 : String → String) where
  -- A document of the service whose content has the hash.
  abbrev pub Kept : Service → String → String → Type 0
  Kept s document_id file_hash =
      (content : String) × (filename : String) × (get_document_content s document_id
        ≡ content_of content filename)
      × (sha256 content ≡ file_hash)

  found-Kept :
      (s : Service) (document_id : String) (d : Document)
      → IsValid sha256 s
      → get s document_id ≡ some d
      → Kept s document_id d.file_hash
  found-Kept s document_id d v e =
      elim (All_found (Stored sha256 s.objects) document_id s.rows d v.stored e) [
        | inl gone ↦ absurd (ground (arith, gone, found_lives document_id s.rows d e))
        | inr (content, there, right) ↦ (
          content,
          d.original_filename,
          ap (content_at s) e ∙ ap (downloaded d.original_filename) there,
          right,
        )
      ]

  -- An upload has been answered with a document.
  abbrev pub Answered : UploadResult → Document → Type 0
  Answered r d = (r ≡ uploaded d) ⊎ (r ≡ deduplicated d)

  stored_found :
      (world : World) (u : Upload) (s : Service)
      → All (λ e. (e.id =? world.fresh) ≡ false) s.rows
      → world.minio_up ≡ true
      → let (r, s') = store_document sha256 world u s in
        (d : Document) × (r ≡ uploaded (new_document sha256 world u))
        × (get s' world.fresh ≡ some d)
        × (d.file_hash ≡ sha256 u.content)
  unfolding store_document
  stored_found world u s fresh up =
      let d : Document = new_document sha256 world u in
      elim (Bool-cases (is_indexable u.filename)) [
        | inl indexes ↦ (
          with_status world.fresh "pending" d,
          rw up,
          rw up (rw indexes (found_last_pending s.rows d fresh refl)),
          ground arith,
        )
        | inr plain ↦ (d, rw up, rw up (rw plain (found_last s.rows d fresh refl)), refl)
      ]

  searched-Kept :
      (world : World) (u : Upload) (s : Service) (o : Found)
      → get_by_hash s u.workspace_id (sha256 u.content) ≡ o
      → IsValid sha256 s
      → IsValid sha256 (after_search sha256 world u o s).1
      → All (λ e. (e.id =? world.fresh) ≡ false) s.rows
      → world.minio_up ≡ true
      → let (r, s') = after_search sha256 world u o s in
        (d : Document) × Answered r d × Kept s' d.id (sha256 u.content)
  unfolding after_search
  searched-Kept world u s nothing e v v' fresh up =
      let f : (d : Document) × ((store_document sha256 world u s).0
            ≡ uploaded (new_document sha256 world u))
          × (get (store_document sha256 world u s).1 world.fresh ≡ some d)
          × (d.file_hash ≡ sha256 u.content) =
        stored_found world u s fresh up in
      let s' : Service = (store_document sha256 world u s).1 in
      (
        new_document sha256 world u,
        inl f.1,
        subst (λ h. Kept s' world.fresh h) f.3 (found-Kept s' world.fresh f.0 v' f.2),
      )
  searched-Kept world u s (one d) e v v' fresh up =
      let test : Document → Bool = has_hash u.workspace_id (sha256 u.content) in
      let right : d.file_hash ≡ sha256 u.content = ground (
        arith,
        (kept_one Placed test s.rows d v.placed e).1,
        eq_iff d.file_hash (sha256 u.content),
      ) in
      (
        d,
        inr refl,
        subst (λ h. Kept s d.id h) right
            (found-Kept s d.id d v
              (found_by_id u.workspace_id (sha256 u.content) s.rows d v.distinct e)),
      )
  searched-Kept world u s several e v v' fresh up =
      absurd (never_several u.workspace_id (sha256 u.content) s.rows v.distinct e)

  -- In a service that is valid (no two rows share an id, no two that are not deleted share workspace
  -- and hash, each path names the workspace and the hash of its document, and each document that is not
  -- deleted has its object), an upload of a file of an allowed type and size, while
  -- MinIO is up and the new id is fresh, is answered with a document, an old one or a new one, whose
  -- content can be downloaded afterwards and has the hash of what was uploaded.
  pub upload-Kept :
      (world : World) (u : Upload) (s : Service)
      → IsValid sha256 s
      → All (λ e. (e.id =? world.fresh) ≡ false) s.rows
      → world.minio_up ≡ true
      → any (same_text (get_ext u.filename)) allowed_extensions ≡ true
      → u.size ≤ max_file_size
      → let (r, s') = upload sha256 world u s in
        (d : Document) × Answered r d × Kept s' d.id (sha256 u.content)
  unfolding upload
  upload-Kept world u s v fresh up allowed small =
      let o : Found = get_by_hash s u.workspace_id (sha256 u.content) in
      rw allowed (
        rw (le→not_ltb max_file_size u.size small) (
          searched-Kept world u s o refl v (after_search-IsValid sha256 world u s o refl v fresh)
            fresh up))
