-- ===== src/Sessions/Counted.antt =====
-- The counts and the turns of app/session_history/repository.py through everything that it does.
use prd2tsd.Prelude.{
  ℕ, ◌+◌, String, Bool, true, false, List, [], ◌∷◌, ◌++◌, ◌≡◌, refl, sym, ap, ◌∙◌, arith, ◌=?◌,
  if◌then◌else◌, Bool-cases, inl, inr, map, length, length-append, keep_if, keep_if-append, any,
  All, All-append, All-map, eq_iff,
}
use prd2tsd.Sessions.{
  Session, SessionMessage, Repository, in_session, has_session, next_turn, counted_if,
}
use prd2tsd.Sessions.Turns.{IsNumbered, next_turn_first, append-IsNumbered, append_nothing}

abbrev pub messages_of : String → Repository → List SessionMessage
messages_of session_id r = keep_if (in_session session_id) r.messages

-- Every session counts its messages.
abbrev pub CountsOf : List SessionMessage → Session → Type 0
CountsOf messages s = s.message_count ≡ length (keep_if (in_session s.id) messages)

-- Every message's session is in the table.
abbrev pub HasSession : List Session → SessionMessage → Type 0
HasSession rows m = any (has_session m.session_id) rows ≡ true

unfoldable pub IsCounted : Repository → Type 0
IsCounted r =
    ((session_id : String) → IsNumbered 0 (messages_of session_id r))
    × All (CountsOf r.messages) r.sessions
    × All (HasSession r.sessions) r.messages

-- A change of a row that keeps what the invariant reads.
module _ (f : Session → Session) (same_id : (s : Session) → (f s).id ≡ s.id) where
  pub any-has_session :
      (session_id : String) (rows : List Session)
      → any (has_session session_id) (map f rows) ≡ any (has_session session_id) rows
  any-has_session session_id [] = refl
  any-has_session session_id (s ∷ rows) =
      rw (same_id s)
        (ap (λ rest. if s.id =? session_id then true else rest) (any-has_session session_id rows))

  pub map-HasSession :
      (rows : List Session) (messages : List SessionMessage)
      → All (HasSession rows) messages
      → All (HasSession (map f rows)) messages
  map-HasSession rows messages h =
      All-map (λ m has. any-has_session m.session_id rows ∙ has) messages h

  map-CountsOf :
      (messages : List SessionMessage) (rows : List Session)
      → ((s : Session) → (f s).message_count ≡ s.message_count)
      → All (CountsOf messages) rows
      → All (CountsOf messages) (map f rows)
  map-CountsOf messages [] same h = tt
  map-CountsOf messages (s ∷ rows) same (hs, h) = (
    same s ∙ hs ∙ ap (λ i. length (keep_if (in_session i) messages)) (sym (same_id s)),
    map-CountsOf messages rows same h,
  )

  pub map-IsCounted :
      (r : Repository)
      → ((s : Session) → (f s).message_count ≡ s.message_count)
      → IsCounted r
      → IsCounted (record r { sessions = map f r.sessions })
  unfolding IsCounted
  map-IsCounted r same (numbered, counts, has) = (
    numbered,
    map-CountsOf r.messages r.sessions same counts,
    map-HasSession r.sessions r.messages has,
  )

any-append :
    (p : Session → Bool) (rows more : List Session)
    → any p rows ≡ true
    → any p (rows ++ more) ≡ true
any-append p [] more h = cc h
any-append p (s ∷ rows) more h = ground (arith, any-append p rows more)

length-no_messages :
    (session_id : String) (rows : List Session) (messages : List SessionMessage)
    → any (has_session session_id) rows ≡ false
    → All (HasSession rows) messages
    → length (keep_if (in_session session_id) messages) ≡ 0
length-no_messages session_id rows [] fresh h = refl
length-no_messages session_id rows (m ∷ messages) fresh (has, h) =
    elim (Bool-cases (m.session_id =? session_id)) [
      | inl own ↦ absurd (
          cc (
            sym has
            ∙ ap (λ i. any (has_session i) rows) ((eq_iff m.session_id session_id).0 own)
            ∙ fresh))
      | inr other ↦ rw other (length-no_messages session_id rows messages fresh h)
    ]

pub added-IsCounted :
    (session : Session) (r : Repository)
    → session.message_count ≡ 0
    → any (has_session session.id) r.sessions ≡ false
    → IsCounted r
    → IsCounted (record r { sessions = r.sessions ++ session ∷ [] })
unfolding IsCounted
added-IsCounted session r empty fresh (numbered, counts, has) = (
  numbered,
  All-append (CountsOf r.messages) r.sessions (session ∷ []) counts
      (empty ∙ sym (length-no_messages session.id r.sessions r.messages fresh has), tt),
  All-map (λ m h. any-append (has_session m.session_id) r.sessions (session ∷ []) h) r.messages has,
)

-- What a message adds to the messages of a session.
length-one_more :
    (session_id : String) (messages : List SessionMessage) (m : SessionMessage)
    → length (keep_if (in_session session_id) (messages ++ m ∷ []))
      ≡ length (keep_if (in_session session_id) messages)
        + (if m.session_id =? session_id then 1 else 0)
length-one_more session_id messages m =
    ap length (keep_if-append (in_session session_id) messages (m ∷ []))
    ∙ length-append (keep_if (in_session session_id) messages)
        (keep_if (in_session session_id) (m ∷ []))
    ∙ ap (λ n. length (keep_if (in_session session_id) messages) + n)
        (one (m.session_id =? session_id))
  where
    one : (b : Bool) → length (if b then m ∷ [] else []) ≡ (if b then 1 else 0)
    one true = refl
    one false = refl

pub counted-CountsOf :
    (now : ℕ) (messages : List SessionMessage) (m : SessionMessage) (rows : List Session)
    → All (CountsOf messages) rows
    → All (CountsOf (messages ++ m ∷ [])) (map (counted_if now m.session_id) rows)
counted-CountsOf now messages m [] h = tt
counted-CountsOf now messages m (s ∷ rows) (hs, h) = (
  elim (Bool-cases (s.id =? m.session_id)) [
    | inl own ↦ rw own (
        ground (
          arith,
          hs,
          own,
          length-one_more s.id messages m,
          eq_iff s.id m.session_id,
          eq_iff m.session_id s.id,
        ))
    | inr other ↦ rw other (
        ground (
          arith,
          hs,
          other,
          length-one_more s.id messages m,
          eq_iff s.id m.session_id,
          eq_iff m.session_id s.id,
        ))
  ],
  counted-CountsOf now messages m rows h,
)

pub posted-IsNumbered :
    (session_id : String) (messages : List SessionMessage) (m : SessionMessage)
    → m.turn_index ≡ next_turn (keep_if (in_session m.session_id) messages)
    → IsNumbered 0 (keep_if (in_session session_id) messages)
    → IsNumbered 0 (keep_if (in_session session_id) (messages ++ m ∷ []))
posted-IsNumbered session_id messages m turn h =
    rw (keep_if-append (in_session session_id) messages (m ∷ []))
      (elim (Bool-cases (m.session_id =? session_id)) [
        | inl same ↦ rw same (
            append-IsNumbered 0 (keep_if (in_session session_id) messages) m h (
              omega (
                arith,
                turn
                    ∙ ap (λ i. next_turn (keep_if (in_session i) messages))
                        ((eq_iff m.session_id session_id).0 same)
                    ∙ next_turn_first (keep_if (in_session session_id) messages) h,
              )))
        | inr other ↦ rw other (append_nothing 0 (keep_if (in_session session_id) messages) h)
      ])
