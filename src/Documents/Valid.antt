-- ===== src/Documents/Valid.antt =====
-- What the operations of app/document_management/service.py keep: no two live documents of a
-- workspace have the same hash, and every live document's object is in the bucket.
use mathlib.Core.Path.{subst}
use prd2tsd.Prelude.{
  String, some, Bool, true, false, not, List, [], ◌∷◌, ◌++◌, ◌≡◌, ◌≢◌, ◌⊎◌, inl, inr, sym, ap, ◌∙◌,
  arith, ◌=?◌, ◌&&◌, keep_if, All, All-map, All-append, Bool-cases, map, eq_iff,
}
use prd2tsd.Documents.{
  StoragePath, same_path, Document, has_id, find_row, nothing, scalar_one_or_none, with_status,
  with_mark,
}

-- Two live documents of one workspace with the same hash.
abbrev pub clash : Document → Document → Bool
clash d e =
    not d.is_deleted
    && not e.is_deleted
    && d.workspace_id =? e.workspace_id
    && d.file_hash =? e.file_hash

abbrev pub Apart : Document → Document → Type 0
Apart d e = (clash d e ≡ false) × ((d.id =? e.id) ≡ false)

abbrev pub Distinct : List Document → Type 0
Distinct [] = Unit
Distinct (d ∷ rows) = All (Apart d) rows × Distinct rows

-- The path of a document names its workspace and its hash.
abbrev pub Placed : Document → Type 0
Placed d = (d.storage_path.workspace_id ≡ d.workspace_id) × (d.storage_path.file_hash ≡ d.file_hash)

Apart-sym : (d e : Document) → Apart d e → Apart e d
Apart-sym d e (c, i) = (
  ground (
    arith,
    c,
    eq_iff d.workspace_id e.workspace_id,
    eq_iff e.workspace_id d.workspace_id,
    eq_iff d.file_hash e.file_hash,
    eq_iff e.file_hash d.file_hash,
  ),
  ground (arith, i, eq_iff d.id e.id, eq_iff e.id d.id),
)

pub found_cases :
    (document_id : String) (r : Document) (rows : List Document) (d : Document)
    → find_row document_id (r ∷ rows) ≡ some d
    → ((has_id document_id r ≡ true) × (r ≡ d))
      ⊎ ((has_id document_id r ≡ false) × (find_row document_id rows ≡ some d))
unfolding find_row
found_cases document_id r rows d e = elim (Bool-cases (has_id document_id r)) [
  | inl here ↦ inl (here, ground (arith, here, e))
  | inr there ↦ inr (there, ground (arith, there, e))
]

pub All_found {ℓ} :
    (P : Document → Type ℓ) (document_id : String) (rows : List Document) (d : Document)
    → All P rows
    → find_row document_id rows ≡ some d
    → P d
unfolding find_row
All_found P document_id [] d h e = absurd (cc e)
All_found P document_id (r ∷ rows) d h e = elim (found_cases document_id r rows d e) [
  | inl (here, same) ↦ subst P same h.0
  | inr (there, later) ↦ All_found P document_id rows d h.1 later
]

-- Of the rows that are not found under an id, none clashes with the one that is.
pub found_apart :
    (document_id : String) (rows : List Document) (d : Document)
    → Distinct rows
    → find_row document_id rows ≡ some d
    → All (λ e. (has_id document_id e ≡ true) ⊎ (clash d e ≡ false)) rows
unfolding find_row
found_apart document_id [] d h e = tt
found_apart document_id (r ∷ rows) d h e = elim (found_cases document_id r rows d e) [
  | inl (here, same) ↦
      (inl here, All-map (λ x a. inr (subst (λ y. clash y x ≡ false) same a.0)) rows h.0)
  | inr (there, later) ↦ (
    inr (Apart-sym r d (All_found (Apart r) document_id rows d h.0 later)).0,
    found_apart document_id rows d h.1 later,
  )
]

-- A change of the rows one by one keeps what each of them and each two of them satisfy.
pub record Keeps (f : Document → Document) : Type 0 where
  pub same_id : (d : Document) → (f d).id ≡ d.id
  pub same_workspace : (d : Document) → (f d).workspace_id ≡ d.workspace_id
  pub same_hash : (d : Document) → (f d).file_hash ≡ d.file_hash
  pub same_place : (d : Document) → (f d).storage_path ≡ d.storage_path
  pub stays_deleted : (d : Document) → d.is_deleted ≡ true → (f d).is_deleted ≡ true

Keeps-Apart :
    {f : Document → Document} (k : Keeps f) (d e : Document) → Apart d e → Apart (f d) (f e)
Keeps-Apart k d e h = ground (
  arith,
  k.same_id d,
  k.same_id e,
  k.same_workspace d,
  k.same_workspace e,
  k.same_hash d,
  k.same_hash e,
  k.stays_deleted d,
  k.stays_deleted e,
)

pub All_image {ℓ κ} :
    {P : Document → Type ℓ} (Q : Document → Type κ) (f : Document → Document)
    → ((d : Document) → P d → Q (f d))
    → (rows : List Document) → All P rows
    → All Q (map f rows)
All_image Q f step [] h = tt
All_image Q f step (d ∷ rows) h = (step d h.0, All_image Q f step rows h.1)

pub Keeps-Distinct :
    {f : Document → Document}
    → Keeps f
    → (rows : List Document) → Distinct rows
    → Distinct (map f rows)
Keeps-Distinct k [] h = tt
Keeps-Distinct {f} k (d ∷ rows) h =
    (All_image (Apart (f d)) f (Keeps-Apart k d) rows h.0, Keeps-Distinct k rows h.1)

pub Keeps-Placed : {f : Document → Document} → Keeps f → (d : Document) → Placed d → Placed (f d)
Keeps-Placed {f} k d (w, h) = (
  ap (λ p. p.workspace_id) (k.same_place d) ∙ w ∙ sym (k.same_workspace d),
  ap (λ p. p.file_hash) (k.same_place d) ∙ h ∙ sym (k.same_hash d),
)

pub with_status-Keeps : (document_id status : String) → Keeps (with_status document_id status)
with_status-Keeps document_id status = record {
  same_id = λ d. ground arith;
  same_workspace = λ d. ground arith;
  same_hash = λ d. ground arith;
  same_place = λ d. ground arith;
  stays_deleted = λ d h. ground (arith, h);
}

pub with_mark-Keeps : (document_id : String) → Keeps (with_mark document_id)
with_mark-Keeps document_id = record {
  same_id = λ d. ground arith;
  same_workspace = λ d. ground arith;
  same_hash = λ d. ground arith;
  same_place = λ d. ground arith;
  stays_deleted = λ d h. ground (arith, h);
}

-- A new row at the end is apart from the ones before it.
pub Distinct-append :
    (d : Document) (rows : List Document)
    → Distinct rows
    → All (λ e. Apart e d) rows
    → Distinct (rows ++ d ∷ [])
Distinct-append d [] h new = (tt, tt)
Distinct-append d (e ∷ rows) h new =
    (All-append (Apart e) rows (d ∷ []) h.0 (new.0, tt), Distinct-append d rows h.1 new.1)

found_some : (d : Document) (rows : List Document) → scalar_one_or_none (d ∷ rows) ≢ nothing
found_some d [] = λ h. cc h
found_some d (e ∷ rows) = λ h. cc h

pub same_path_parts :
    (p q : StoragePath)
    → same_path p q ≡ true
    → (p.workspace_id ≡ q.workspace_id) × (p.file_hash ≡ q.file_hash)
same_path_parts p q h = (
  ground (arith, h, eq_iff p.workspace_id q.workspace_id),
  ground (arith, h, eq_iff p.file_hash q.file_hash),
)

-- A search that finds nothing has tested every row.
pub not_found :
    (p : Document → Bool) (rows : List Document)
    → scalar_one_or_none (keep_if p rows) ≡ nothing
    → All (λ d. p d ≡ false) rows
not_found p [] h = tt
not_found p (d ∷ rows) h = elim (Bool-cases (p d)) [
  | inl passes ↦ absurd (found_some d (keep_if p rows) (ground (arith, passes, h)))
  | inr fails ↦ (fails, not_found p rows (ground (arith, fails, h)))
]

pub clash_of_path :
    (d e : Document)
    → d.is_deleted ≡ false
    → e.is_deleted ≡ false
    → Placed d
    → Placed e
    → same_path d.storage_path e.storage_path ≡ true
    → clash d e ≢ false
clash_of_path d e live lives (dw, dh) (ew, eh) same c =
    let parts : (d.storage_path.workspace_id ≡ e.storage_path.workspace_id)
        × (d.storage_path.file_hash ≡ e.storage_path.file_hash) =
      same_path_parts d.storage_path e.storage_path same in
    let w : d.workspace_id ≡ e.workspace_id = sym dw ∙ parts.0 ∙ ew in
    let h : d.file_hash ≡ e.file_hash = sym dh ∙ parts.1 ∙ eh in
    ground (
      arith,
      c,
      live,
      lives,
      w,
      h,
      eq_iff d.workspace_id e.workspace_id,
      eq_iff d.file_hash e.file_hash,
    )
