-- ===== src/Batch/Changes.antt =====
-- What app/web_indexing/web_sync.py finds changed, and what its job in app/batch/tasks.py does.
use prd2tsd.Prelude.{
  String, Option, none, some, false, not, List, [], ◌∷◌, ◌≡◌, ◌≢◌, refl, ap, ◌∙◌, ◌=?◌, map, take,
  All, text_other,
}
use prd2tsd.Prelude.Dict.{Dict, lookup, insert, lookup-insert_same, lookup-insert_other}
use prd2tsd.Batch.Sync.{
  Tracked, Condition, always, if_none_match, Response, not_modified, page, Result, condition,
  received, sync, sync_multi, sync_web_resources,
}

unfoldable pub IsRepeatFree : List String → Type 0
IsRepeatFree [] = Unit
IsRepeatFree (u ∷ urls) = All (λ v. u ≢ v) urls × IsRepeatFree urls

module _ (sha256 : String → String) (network : String → Condition → Response) where
  -- What a scheduler that has not met the address finds there.
  abbrev pub first_meeting : String → Result
  first_meeting url = (received sha256 url none (network url always) []).0

  abbrev NotMet : Dict Tracked → String → Type 0
  NotMet tracked url = lookup url tracked ≡ none

  first_result :
      (url : String) (response : Response) (tracked : Dict Tracked)
      → (received sha256 url none response tracked).0 ≡ (received sha256 url none response []).0
  first_result url not_modified tracked = refl
  first_result url (page content etag last_modified) tracked = refl
  first_result url (Response.failed error) tracked = refl

  still-NotMet :
      (url other : String) (prev : Option Tracked) (response : Response) (tracked : Dict Tracked)
      → url ≢ other
      → NotMet tracked other
      → NotMet (received sha256 url prev response tracked).1 other
  still-NotMet url other prev not_modified tracked ne h = h
  still-NotMet url other prev (page content etag last_modified) tracked ne h =
      lookup-insert_other url other _ tracked ne ∙ h
  still-NotMet url other prev (Response.failed error) tracked ne h = h

  still-NotMet_all :
      (url : String) (urls : List String) (prev : Option Tracked) (response : Response)
      (tracked : Dict Tracked)
      → All (λ v. url ≢ v) urls
      → All (NotMet tracked) urls
      → All (NotMet (received sha256 url prev response tracked).1) urls
  still-NotMet_all url [] prev response tracked ne h = tt
  still-NotMet_all url (v ∷ urls) prev response tracked ne h = (
    still-NotMet url v prev response tracked ne.0 h.0,
    still-NotMet_all url urls prev response tracked ne.1 h.1,
  )

  sync_multi-first :
      (urls : List String) (tracked : Dict Tracked)
      → IsRepeatFree urls
      → All (NotMet tracked) urls
      → (sync_multi sha256 network urls false tracked).0 ≡ map first_meeting urls
  unfolding sync_multi sync IsRepeatFree
  sync_multi-first [] tracked distinct new = refl
  sync_multi-first (url ∷ urls) tracked distinct new =
      let prev : Option Tracked = lookup url tracked in
      let response : Response = network url (condition false prev) in
      let later = still-NotMet_all url urls prev response tracked distinct.0 new.1 in
      let head =
        ap (λ p. (received sha256 url p (network url (condition false p)) tracked).0) new.0
        ∙ first_result url (network url always) tracked in
      rw head (
        ap (λ l. first_meeting url ∷ l)
          (sync_multi-first urls (sync sha256 network url false tracked).1 distinct.1 later))

  nothing_known : (urls : List String) → All (NotMet []) urls
  unfolding lookup
  nothing_known [] = tt
  nothing_known (url ∷ urls) = (refl, nothing_known urls)

  -- Whatever an earlier run of the job found, a run answers of each of its first fifty addresses, each
  -- of them named once, what a scheduler finds that never met the address: every request is
  -- unconditional, and every page is reported as changed.
  pub job_never_remembers :
      (urls : List String)
      → IsRepeatFree (take 50 urls)
      → sync_web_resources sha256 network urls ≡ map first_meeting (take 50 urls)
  unfolding sync_web_resources
  job_never_remembers urls distinct =
      sync_multi-first (take 50 urls) [] distinct (nothing_known (take 50 urls))

second_sync :
    (sha256 : String → String) (later : String → Condition → Response) (url : String)
    (prev : Tracked) (content' etag' modified' : String) (tracked : Dict Tracked)
    → lookup url tracked ≡ some prev
    → prev.etag ≢ ""
    → let (second, tracked'') = sync sha256 later url false tracked in
      (later url (if_none_match prev.etag) ≡ page content' etag' modified'
        → (second.changed ≡ not (prev.content_hash =? sha256 content'))
          × (second.content ≡ some content'))
      × (later url (if_none_match prev.etag) ≡ not_modified
          → (second.changed ≡ false) × (tracked'' ≡ tracked))
unfolding sync
second_sync sha256 later url prev content' etag' modified' tracked known tagged =
    rw known (rw (text_other prev.etag "" tagged) (λ h. rw h (refl, refl), λ h. rw h (refl, refl)))

-- A scheduler that received a page, without being told to force it, asks for it by its tag the next
-- time, if it has one, and reports a later page as changed exactly if its hash is another one. An
-- answer that the page was not modified changes nothing.
pub sync_detects :
    (sha256 : String → String) (network later : String → Condition → Response) (url : String)
    (content content' etag etag' modified modified' : String) (tracked : Dict Tracked)
    → network url (condition false (lookup url tracked)) ≡ page content etag modified
    → etag ≢ ""
    → let (first, tracked') = sync sha256 network url false tracked in
      let (second, tracked'') = sync sha256 later url false tracked' in
      (first.content ≡ some content)
      × (later url (if_none_match etag) ≡ page content' etag' modified'
          → (second.changed ≡ not (sha256 content =? sha256 content'))
            × (second.content ≡ some content'))
      × (later url (if_none_match etag) ≡ not_modified
          → (second.changed ≡ false) × (tracked'' ≡ tracked'))
unfolding sync
sync_detects sha256 network later url content content' etag etag' modified modified' tracked h
      tagged =
    let now : Tracked = record {
      etag = etag;
      last_modified = modified;
      content_hash = sha256 content;
    } in
    let met = lookup-insert_same url now tracked in
    let (on_page, on_same) =
      second_sync sha256 later url now content' etag' modified' (insert url now tracked) met
        tagged in
    rw h (refl, on_page, on_same)
