-- ===== src/Sessions/Tests.antt =====
-- A session with one message.
use prd2tsd.Prelude.{none, some, [], ◌∷◌, ◌≡◌, refl, All}
use prd2tsd.Sessions.{
  SessionMessage, Repository, MessageCreate, create_session, add_message, get_messages, page_of,
}
use prd2tsd.Sessions.Turns.{IsNumbered}
use prd2tsd.Sessions.Counted.{CountsOf, messages_of}
use prd2tsd.Sessions.Kept.{Reach, empty, created, posted, conversation_kept}

abbrev fresh : Repository
fresh = record { sessions = []; messages = [] }

abbrev opened : Repository
opened =
    (create_session 1 "s1" "t1" "w1" "u1" (record { title = "a"; session_type = ""; tags = none })
      none fresh).1

abbrev hello : SessionMessage
hello = record {
  id = "m1";
  session_id = "s1";
  user_id = some "u1";
  role = "user";
  content = "hello";
  content_type = "text";
  parent_message_id = none;
  turn_index = 0;
}

abbrev talk : Repository
talk = record {
  sessions =
      record {
        id = "s1";
        workspace_id = "w1";
        user_id = "u1";
        title = "a";
        session_type = "generate";
        status = "active";
        summary = none;
        message_count = 1;
        rating = none;
        tags = [];
        last_message_at = some 2;
        deleted_at = none;
        updated_at = 2;
        thread_id = "t1";
      }
      ∷ [];
  messages = hello ∷ [];
}

abbrev words : MessageCreate
words = record { role = "user"; content = "hello"; content_type = "text"; parent_message_id = none }

talk-Reach : Reach talk
unfolding create_session add_message
talk-Reach =
    posted opened 2 "m1" "s1" (some "u1") words hello talk
      (created fresh 1 "s1" "t1" "w1" "u1" (record { title = "a"; session_type = ""; tags = none })
        none empty refl)
      refl

conversation_kept_example :
    ((get_messages "s1" 1 10 talk).items ≡ page_of 1 10 (messages_of "s1" talk))
    × IsNumbered 0 (messages_of "s1" talk)
    × All (CountsOf talk.messages) talk.sessions
conversation_kept_example = conversation_kept talk "s1" 1 10 talk-Reach
