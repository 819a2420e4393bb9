-- ===== src/Batch/Sync.antt =====
-- `WebSyncScheduler` of app/web_indexing/web_sync.py, and the job `sync_web_resources` of
-- app/batch/tasks.py, which makes one. What a request of a page brings is an input; the SHA-256 of a
-- text is a function of it.
use prd2tsd.Prelude.{
  String, Option, none, some, Bool, true, false, not, List, [], ◌∷◌, ◌=?◌, if◌then◌else◌, take,
}
use prd2tsd.Prelude.Dict.{Dict, lookup, insert}

pub record Tracked : Type 0 where
  pub etag : String
  pub last_modified : String
  pub content_hash : String

-- The headers that make a request conditional.
pub data Condition : Type 0 where
  always : Condition
  if_none_match : String → Condition
  if_modified_since : String → Condition

pub data Response : Type 0 where
  not_modified : Response
  page : (content etag last_modified : String) → Response
  failed : String → Response

-- The answer of `sync`, without the headers that it repeats.
pub record Result : Type 0 where
  pub url : String
  pub changed : Bool
  pub content : Option String
  pub error : Option String

abbrev pub condition_of : Option Tracked → Condition
condition_of none = always
condition_of (some prev) =
    if not (prev.etag =? "")
    then if_none_match prev.etag
    else if not (prev.last_modified =? "")
    then if_modified_since prev.last_modified
    else always

abbrev pub condition : Bool → Option Tracked → Condition
condition true prev = always
condition false prev = condition_of prev

-- Whether the remembered hash is another one; there may be none.
abbrev pub is_new : Option Tracked → String → Bool
is_new none content_hash = true
is_new (some prev) content_hash = not (prev.content_hash =? content_hash)

module _ (sha256 : String → String) where
  abbrev pub received : String → Option Tracked → Response → Dict Tracked → Result × Dict Tracked
  received url prev not_modified tracked =
      (record { url = url; changed = false; content = none; error = none }, tracked)
  received url prev (page content etag last_modified) tracked =
      let content_hash = sha256 content in
      let now : Tracked = record {
        etag = etag;
        last_modified = last_modified;
        content_hash = content_hash;
      } in
      (
        record {
          url = url;
          changed = is_new prev content_hash;
          content = some content;
          error = none;
        },
        insert url now tracked,
      )
  received url prev (failed error) tracked =
      (record { url = url; changed = false; content = none; error = some error }, tracked)

  -- `sync`: the network answers a URL and a condition.
  unfoldable pub sync :
      (String → Condition → Response) → String → Bool → Dict Tracked → Result × Dict Tracked
  sync network url force tracked =
      let prev = lookup url tracked in
      received url prev (network url (condition force prev)) tracked

  unfoldable pub sync_multi :
      (String → Condition → Response)
      → List String
      → Bool
      → Dict Tracked
      → List Result × Dict Tracked
  sync_multi network [] force tracked = ([], tracked)
  sync_multi network (url ∷ urls) force tracked =
      let (result, tracked') = sync network url force tracked in
      let (results, tracked'') = sync_multi network urls force tracked' in
      (result ∷ results, tracked'')

  -- The job: the addresses of the documents that are not deleted, with a new scheduler every time.
  unfoldable pub sync_web_resources : (String → Condition → Response) → List String → List Result
  sync_web_resources network urls = (sync_multi network (take 50 urls) false []).0
