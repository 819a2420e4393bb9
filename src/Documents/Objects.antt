-- ===== src/Documents/Objects.antt =====
-- The invariant of app/document_management/service.py: no two live documents of a workspace have the
-- same hash, and every live document's object is in the bucket.
use mathlib.Core.Path.{subst}
use prd2tsd.Prelude.{
  String, Option, none, some, Bool, true, false, not, List, [], ◌∷◌, ◌++◌, ◌≡◌, ◌⊎◌, inl, inr, refl,
  sym, ap, ◌∙◌, arith, ◌=?◌, ◌&&◌, any, All, All-append, if◌then◌else◌, if_both, Bool-cases, map,
  same_text, text_same, same_text_refl, ltb,
}
use prd2tsd.Documents.{
  StoragePath, same_path, Document, Service, has_id, find_row, Found, nothing, one, several,
  has_hash, get_by_hash, set_status, with_mark, mark_deleted, Upload, World, UploadResult,
  unsupported, too_large, put_object, remove_object, new_document, store_document, after_search,
  upload, get_ext, allowed_extensions, max_file_size, is_indexable, delete_found, delete_document,
  reindex_found, reindex, get,
}
use prd2tsd.Documents.Valid.{
  clash, Distinct, Placed, found_apart, Keeps, Keeps-Distinct, Keeps-Placed, with_status-Keeps,
  with_mark-Keeps, Distinct-append, not_found, same_path_parts, clash_of_path, All_image, All_found,
  found_cases,
}

pub same_path_refl : (p : StoragePath) → same_path p p ≡ true
same_path_refl p =
    ground (arith, text_same p.workspace_id, text_same p.file_hash, same_text_refl p.ext)

All_both :
    {P Q R : Document → Type 0}
    → ((e : Document) → P e → Q e → R e)
    → (rows : List Document) → All P rows
    → All Q rows
    → All R rows
All_both step [] hp hq = tt
All_both step (e ∷ rows) hp hq = (step e hp.0 hq.0, All_both step rows hp.1 hq.1)

pub found_lives :
    (document_id : String) (rows : List Document) (d : Document)
    → find_row document_id rows ≡ some d
    → d.is_deleted ≡ false
unfolding find_row
found_lives document_id [] d e = absurd (cc e)
found_lives document_id (r ∷ rows) d e = elim (found_cases document_id r rows d e) [
  | inl (here, same) ↦ subst (λ x. x.is_deleted ≡ false) same (ground (arith, here))
  | inr (there, later) ↦ found_lives document_id rows d later
]

module _ (sha256 : String → String) where
  -- A live document's object is in the bucket, and has its hash.
  abbrev pub Stored : (StoragePath → Option String) → Document → Type 0
  Stored objects d =
      (d.is_deleted ≡ true)
      ⊎ ((content : String) × (objects d.storage_path ≡ some content)
          × (sha256 content ≡ d.file_hash))

  pub record IsValid (s : Service) : Type 0 where
    pub distinct : Distinct s.rows
    pub placed : All Placed s.rows
    pub stored : All (Stored s.objects) s.rows

  Keeps-Stored :
      {f : Document → Document} (objects : StoragePath → Option String)
      → Keeps f
      → (d : Document) → Stored objects d
      → Stored objects (f d)
  Keeps-Stored objects k d (inl gone) = inl (k.stays_deleted d gone)
  Keeps-Stored objects k d (inr (content, there, right)) =
      inr (content, ap objects (k.same_place d) ∙ there, right ∙ sym (k.same_hash d))

  Keeps-IsValid :
      {f : Document → Document} {s : Service}
      → Keeps f
      → IsValid s
      → IsValid (record s { rows = map f s.rows })
  Keeps-IsValid {f} {s} k v = record {
    distinct = Keeps-Distinct k s.rows v.distinct;
    placed = All_image Placed f (Keeps-Placed k) s.rows v.placed;
    stored = All_image (Stored s.objects) f (Keeps-Stored s.objects k) s.rows v.stored;
  }

  reindex_found-IsValid :
      {s : Service} (document_id : String) (o : Option Document)
      → IsValid s
      → IsValid (reindex_found document_id o s).1
  reindex_found-IsValid document_id none v = v
  reindex_found-IsValid document_id (some d) v =
      Keeps-IsValid (with_status-Keeps document_id "pending") v

  pub reindex-IsValid :
      {s : Service} (document_id : String) → IsValid s → IsValid (reindex document_id s).1
  unfolding reindex
  reindex-IsValid {s} document_id v = reindex_found-IsValid document_id (get s document_id) v

  put-Stored :
      (p : StoragePath) (content : String) (objects : StoragePath → Option String) (d : Document)
      → sha256 content ≡ p.file_hash
      → Placed d
      → Stored objects d
      → Stored (put_object p content objects) d
  put-Stored p content objects d right placed (inl gone) = inl gone
  put-Stored p content objects d right placed (inr (old, there, same)) =
      elim (Bool-cases (same_path p d.storage_path)) [
        | inl here ↦
            inr (content, rw here, right ∙ (same_path_parts p d.storage_path here).1 ∙ placed.1)
        | inr other ↦ inr (old, rw other there, same)
      ]

  remove-Stored :
      (d : Document) (objects : StoragePath → Option String) (document_id : String) (e : Document)
      → d.is_deleted ≡ false
      → Placed d
      → Placed e
      → (has_id document_id e ≡ true) ⊎ (clash d e ≡ false)
      → Stored objects e
      → Stored (remove_object d.storage_path objects) (with_mark document_id e)
  remove-Stored d objects document_id e live here there (inl gone) stored = inl (rw gone)
  remove-Stored d objects document_id e live here there (inr c) (inl gone) =
      inl ((with_mark-Keeps document_id).stays_deleted e gone)
  remove-Stored d objects document_id e live here there (inr c) (inr (content, found, right)) =
      let k : Keeps (with_mark document_id) = with_mark-Keeps document_id in
      elim (Bool-cases e.is_deleted) [
        | inl gone ↦ inl (k.stays_deleted e gone)
        | inr lives ↦ elim (Bool-cases (same_path d.storage_path e.storage_path)) [
          | inl same ↦ absurd (clash_of_path d e live lives here there same c)
          | inr other ↦ inr (
            content,
            ap (remove_object d.storage_path objects) (k.same_place e) ∙ (rw other found),
            right ∙ sym (k.same_hash e),
          )
        ]
      ]

  remove_rows :
      (d : Document) (objects : StoragePath → Option String) (document_id : String)
      (rows : List Document)
      → d.is_deleted ≡ false
      → Placed d
      → All (λ e. (has_id document_id e ≡ true) ⊎ (clash d e ≡ false)) rows
      → All Placed rows
      → All (Stored objects) rows
      → All (Stored (remove_object d.storage_path objects)) (mark_deleted document_id rows)
  remove_rows d objects document_id [] live here apart there stored = tt
  remove_rows d objects document_id (e ∷ rows) live here apart there stored = (
    remove-Stored d objects document_id e live here there.0 apart.0 stored.0,
    remove_rows d objects document_id rows live here apart.1 there.1 stored.1,
  )

  delete_found-IsValid :
      {s : Service} (minio_up : Bool) (document_id : String) (o : Option Document)
      → get s document_id ≡ o
      → IsValid s
      → IsValid (delete_found minio_up document_id o s).1
  delete_found-IsValid minio_up document_id none e v = v
  delete_found-IsValid {s} false document_id (some d) e v =
      Keeps-IsValid (with_mark-Keeps document_id) v
  delete_found-IsValid {s} true document_id (some d) e v =
      let k : Keeps (with_mark document_id) = with_mark-Keeps document_id in
      record {
        distinct = Keeps-Distinct k s.rows v.distinct;
        placed = All_image Placed (with_mark document_id) (Keeps-Placed k) s.rows v.placed;
        stored =
            remove_rows d s.objects document_id s.rows (found_lives document_id s.rows d e)
              (All_found Placed document_id s.rows d v.placed e)
              (found_apart document_id s.rows d v.distinct e) v.placed v.stored;
      }

  new_rows :
      (world : World) (u : Upload) (s : Service)
      → IsValid s
      → All (λ e. (e.id =? world.fresh) ≡ false) s.rows
      → All (λ e. has_hash u.workspace_id (sha256 u.content) e ≡ false) s.rows
      → let d = new_document sha256 world u in
        IsValid (record s {
          rows = s.rows ++ d ∷ [];
          objects = put_object d.storage_path u.content s.objects;
        })
  new_rows world u s v fresh new =
      let d : Document = new_document sha256 world u in
      record {
        distinct =
            Distinct-append d s.rows v.distinct
              (All_both (λ e i h. (ground (arith, h), i)) s.rows fresh new);
        placed = All-append Placed s.rows (d ∷ []) v.placed ((refl, refl), tt);
        stored =
            All-append (Stored (put_object d.storage_path u.content s.objects)) s.rows (d ∷ [])
              (All_both (λ e p h. put-Stored d.storage_path u.content s.objects e refl p h) s.rows
                v.placed v.stored)
              (inr (u.content, rw (same_path_refl d.storage_path), refl), tt);
      }

  queued-IsValid :
      {s : Service} (queued : List String) → IsValid s → IsValid (record s { queued = queued })
  queued-IsValid queued v = record { distinct = v.distinct; placed = v.placed; stored = v.stored }

  store_document-IsValid :
      (world : World) (u : Upload) (s : Service)
      → IsValid s
      → All (λ e. (e.id =? world.fresh) ≡ false) s.rows
      → All (λ e. has_hash u.workspace_id (sha256 u.content) e ≡ false) s.rows
      → IsValid (store_document sha256 world u s).1
  unfolding store_document
  store_document-IsValid world u s v fresh new =
      let d : Document = new_document sha256 world u in
      let rows : List Document = s.rows ++ d ∷ [] in
      let objects : StoragePath → Option String = put_object d.storage_path u.content s.objects in
      let queued : List String =
        if is_indexable u.filename && world.celery_up then d.id ∷ s.queued else s.queued in
      let v' : IsValid (record s { rows = rows; objects = objects }) =
        new_rows world u s v fresh new in
      if_both (λ (p : UploadResult × Service). IsValid p.1) world.minio_up _ _
        (queued-IsValid queued (
          if_both (λ l. IsValid (record s { rows = l; objects = objects }))
            (is_indexable u.filename) (set_status d.id "pending" rows) rows
            (Keeps-IsValid (with_status-Keeps d.id "pending") v') v'))
        v

  pub after_search-IsValid :
      (world : World) (u : Upload) (s : Service) (o : Found)
      → get_by_hash s u.workspace_id (sha256 u.content) ≡ o
      → IsValid s
      → All (λ e. (e.id =? world.fresh) ≡ false) s.rows
      → IsValid (after_search sha256 world u o s).1
  unfolding after_search
  after_search-IsValid world u s nothing e v fresh =
      store_document-IsValid world u s v fresh
        (not_found (has_hash u.workspace_id (sha256 u.content)) s.rows e)
  after_search-IsValid world u s (one d) e v fresh = v
  after_search-IsValid world u s several e v fresh = v

  -- Uploading, deleting and reindexing keep the invariant, whether MinIO and Celery are up or not, if
  -- a new document gets an id that no row has: the live documents of a workspace have different
  -- hashes, and the object of every live document is in the bucket and has its hash.
  pub operations-IsValid :
      (world : World) (u : Upload) (document_id : String) (s : Service)
      → IsValid s
      → All (λ e. (e.id =? world.fresh) ≡ false) s.rows
      → IsValid (upload sha256 world u s).1
        × IsValid (delete_document world.minio_up document_id s).1
        × IsValid (reindex document_id s).1
  unfolding upload delete_document
  operations-IsValid world u document_id s v fresh = (
    (let found : UploadResult × Service =
          after_search sha256 world u (get_by_hash s u.workspace_id (sha256 u.content)) s in
        if_both (λ (p : UploadResult × Service). IsValid p.1)
          (not (any (same_text (get_ext u.filename)) allowed_extensions)) (unsupported, s)
          (if ltb max_file_size u.size then (too_large, s) else found) v
          (if_both (λ (p : UploadResult × Service). IsValid p.1) (ltb max_file_size u.size)
            (too_large, s) found v
            (after_search-IsValid world u s (get_by_hash s u.workspace_id (sha256 u.content)) refl v
              fresh))),
    delete_found-IsValid world.minio_up document_id _ refl v,
    reindex-IsValid document_id v,
  )
