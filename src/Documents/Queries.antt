-- ===== src/Documents/Queries.antt =====
-- `list_documents` and `get_stats` of app/document_management/repository.py. The order of the rows is
-- the database's, and enters as a function.
use prd2tsd.Prelude.{
  ℕ, zero, suc, ◌+◌, ◌-◌, ◌*◌, ◌≤◌, String, Option, none, some, Bool, true, not, List, [], ◌∷◌,
  ◌++◌, ◌≡◌, refl, sym, ap, ◌∙◌, arith, ◌=?◌, ◌&&◌, ◌||◌, length, take, keep_if, if◌then◌else◌,
  Text, same_text,
}
use prd2tsd.Documents.{Document, Service}

abbrev drop : ℕ → List Document → List Document
drop zero rows = rows
drop (suc n) [] = []
drop (suc n) (d ∷ rows) = drop n rows

-- A filter that is not given, or empty, passes every row.
abbrev pub passes_type : Option Text → Document → Bool
passes_type none d = true
passes_type (some []) d = true
passes_type (some (c ∷ s)) d = same_text d.file_type (c ∷ s)

abbrev pub passes_status : Option String → Document → Bool
passes_status none d = true
passes_status (some status) d = status =? "" || d.processing_status =? status

abbrev pub listed : String → Option Text → Option String → Document → Bool
listed workspace_id file_type status d =
    d.workspace_id =? workspace_id
    && not d.is_deleted
    && passes_type file_type d
    && passes_status status d

-- The rows of a page, from 1 on.
pub page_of : ℕ → ℕ → List Document → List Document
page_of page page_size rows = take page_size (drop ((page - 1) * page_size) rows)

-- `list_documents`
pub list_documents :
    (List Document → List Document)
    → String
    → ℕ
    → ℕ
    → Option Text
    → Option String
    → Service
    → List Document × ℕ
list_documents order workspace_id page page_size file_type status s =
    let rows = keep_if (listed workspace_id file_type status) s.rows in
    (page_of page page_size (order rows), length rows)

-- Pages 1 to n, one after the other.
abbrev pub pages :
    (List Document → List Document)
    → String
    → ℕ
    → ℕ
    → Option Text
    → Option String
    → Service
    → List Document
pages order workspace_id zero page_size file_type status s = []
pages order workspace_id (suc n) page_size file_type status s =
    pages order workspace_id n page_size file_type status s
    ++ (list_documents order workspace_id (suc n) page_size file_type status s).0

take_eq : (n m : ℕ) (rows : List Document) → n ≡ m → take n rows ≡ take m rows
take_eq n m rows e = ap (λ k. take k rows) e

take_nil : (n : ℕ) → take {A = Document} n [] ≡ []
take_nil zero = refl
take_nil (suc n) = refl

take-append-drop :
    (n m : ℕ) (rows : List Document) → take n rows ++ take m (drop n rows) ≡ take (n + m) rows
take-append-drop zero m rows = take_eq m (0 + m) rows (omega arith)
take-append-drop (suc n) zero [] = sym (take_nil (suc n + 0))
take-append-drop (suc n) (suc m) [] = sym (take_nil (suc n + suc m))
take-append-drop (suc n) m (d ∷ rows) =
    ap (λ l. d ∷ l) (take-append-drop n m rows)
    ∙ take_eq (suc (n + m)) (suc n + m) (d ∷ rows) (omega arith)

take_all : (n : ℕ) (rows : List Document) → length rows ≤ n → take n rows ≡ rows
take_all zero [] h = refl
take_all zero (d ∷ rows) h = elim h [ ]
take_all (suc n) [] h = refl
take_all (suc n) (d ∷ rows) h = ap (λ l. d ∷ l) (take_all n rows (omega arith))

pages-take :
    (order : List Document → List Document) (workspace_id : String) (n page_size : ℕ)
    (file_type : Option Text) (status : Option String) (s : Service)
    → pages order workspace_id n page_size file_type status s
      ≡ take (n * page_size) (order (keep_if (listed workspace_id file_type status) s.rows))
unfolding list_documents page_of
pages-take order workspace_id zero page_size file_type status s =
    take_eq 0 (0 * page_size) _ (omega arith)
pages-take order workspace_id (suc n) page_size file_type status s =
    let rows : List Document = order (keep_if (listed workspace_id file_type status) s.rows) in
    ap (λ l. l ++ page_of (suc n) page_size rows)
      (pages-take order workspace_id n page_size file_type status s)
    ∙ ap (λ k. take (n * page_size) rows ++ take page_size (drop (k * page_size) rows))
        (let e : suc n - 1 ≡ n = omega arith in e)
    ∙ take-append-drop (n * page_size) page_size rows
    ∙ take_eq (n * page_size + page_size) (suc n * page_size) rows (grind arith)

-- The pages of a listing, one after the other, are all its rows in the order of the database, if
-- they are as many as the rows need: no row is left out or comes twice.
pub pages_complete :
    (order : List Document → List Document) (workspace_id : String) (n page_size : ℕ)
    (file_type : Option Text) (status : Option String) (s : Service)
    → let rows = order (keep_if (listed workspace_id file_type status) s.rows) in
      length rows ≤ n * page_size → pages order workspace_id n page_size file_type status s ≡ rows
pages_complete order workspace_id n page_size file_type status s h =
    pages-take order workspace_id n page_size file_type status s ∙ take_all (n * page_size) _ h

module _ {K : Type 0} (same : K → K → Bool) where
  -- `GROUP BY` with a count.
  abbrev pub bump : K → List (K × ℕ) → List (K × ℕ)
  bump k [] = (k, 1) ∷ []
  bump k ((j, n) ∷ counts) =
      let rest = bump k counts in if same j k then (j, n + 1) ∷ counts else (j, n) ∷ rest

  abbrev pub count_by : (Document → K) → List Document → List (K × ℕ)
  count_by column [] = []
  count_by column (d ∷ rows) = bump (column d) (count_by column rows)

abbrev pub sum_counts : {K : Type 0} → List (K × ℕ) → ℕ
sum_counts [] = 0
sum_counts ((k, n) ∷ counts) = n + sum_counts counts

pub total_size : List Document → ℕ
total_size [] = 0
total_size (d ∷ rows) = d.file_size + total_size rows

pub record DocumentStats : Type 0 where
  pub total_documents : ℕ
  pub total_size_bytes : ℕ
  pub by_type : List (Text × ℕ)
  pub by_status : List (String × ℕ)

-- `get_stats`
pub get_stats : String → Service → DocumentStats
get_stats workspace_id s =
    let rows = keep_if (listed workspace_id none none) s.rows in
    record {
      total_documents = length rows;
      total_size_bytes = total_size rows;
      by_type = count_by same_text (λ d. d.file_type) rows;
      by_status = count_by (λ a b. a =? b) (λ d. d.processing_status) rows;
    }

sum_counts-bump :
    {K : Type 0} (same : K → K → Bool) (k : K) (counts : List (K × ℕ))
    → sum_counts (bump same k counts) ≡ sum_counts counts + 1
sum_counts-bump same k [] = refl
sum_counts-bump same k ((j, n) ∷ counts) = ground (arith, sum_counts-bump same k counts)

sum_counts-count_by :
    {K : Type 0} (same : K → K → Bool) (column : Document → K) (rows : List Document)
    → sum_counts (count_by same column rows) ≡ length rows
sum_counts-count_by same column [] = refl
sum_counts-count_by same column (d ∷ rows) =
    sum_counts-bump same (column d) (count_by same column rows)
    ∙ omega (arith, sum_counts-count_by same column rows)

-- The counts by type and the counts by status both add up to the number of documents, which is the
-- total that an unfiltered listing reports.
pub stats_add_up :
    (order : List Document → List Document) (workspace_id : String) (page page_size : ℕ)
    (s : Service)
    → let stats = get_stats workspace_id s in
      (sum_counts stats.by_type ≡ stats.total_documents)
      × (sum_counts stats.by_status ≡ stats.total_documents)
      × ((list_documents order workspace_id page page_size none none s).1 ≡ stats.total_documents)
unfolding get_stats list_documents
stats_add_up order workspace_id page page_size s =
    let rows : List Document = keep_if (listed workspace_id none none) s.rows in
    (
      sum_counts-count_by same_text (λ d. d.file_type) rows,
      sum_counts-count_by (λ a b. a =? b) (λ d. d.processing_status) rows,
      refl,
    )
