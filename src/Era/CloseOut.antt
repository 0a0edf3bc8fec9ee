-- ===== src/Era/CloseOut.antt =====
-- packages/api/src/lib/installation.ts: `closeOutInstallation`, which brings an era to its end.
use telephone_booth_operator.Common.{
  ℕ, ◌+◌, ◌≡◌, ◌≢◌, refl, ap, String, Bool, true, false, not, ◌&&◌, Option, none, some, List, [],
  ◌∷◌, arith, update_many, count, filter, filter-update_many, length, is_none, count-update_many,
}
use telephone_booth_operator.Analytics.{InteractionSession}
use telephone_booth_operator.Store.{
  MessageStatus, approved, rejected, status_eq, is_awaiting, is_landed, active, archived,
  question_status_eq, Message, Question, CallSession, InstallationSummary, Db, is_in,
}
use telephone_booth_operator.Store.Summary.{
  slice_of, landed_in, session_in, question_in, event_in, compute_installation_summary,
}

abbrev pub rollover_outcome : String
rollover_outcome = "installation_ended"

abbrev pub rollover_message_note : String
rollover_message_note = "Closed out when the installation ended."

-- The three `where` clauses.
abbrev pub open_session_in : ℕ → CallSession → Bool
open_session_in e s = is_in e s.installation_id && is_none s.call.ended_at

abbrev pub awaiting_in : ℕ → Message → Bool
awaiting_in e m = is_in e m.installation_id && is_awaiting m.status

abbrev pub live_question_in : ℕ → Question → Bool
live_question_in e q = is_in e q.installation_id && question_status_eq q.status active

-- The three `data` arguments.
end_call : ℕ → InteractionSession → InteractionSession
end_call t c = record c { ended_at = some t; outcome = some rollover_outcome }

end_session : ℕ → CallSession → CallSession
unfolding end_call
end_session t s = record s { call = end_call t s.call }

reject_message : ℕ → Message → Message
reject_message t m = record m {
  status = rejected;
  notes = some rollover_message_note;
  decided_at = some t;
}

archive_question : ℕ → Question → Question
archive_question t q = record q { status = archived; retired_at = some t }

-- The row lock excludes other writers; what it guards is one step here.
close_out_rows : Db → ℕ → ℕ → Db
unfolding end_session reject_message archive_question
close_out_rows db e t = record db {
  sessions = update_many (open_session_in e) (end_session t) db.sessions;
  messages = update_many (awaiting_in e) (reject_message t) db.messages;
  questions = update_many (live_question_in e) (archive_question t) db.questions;
}

unfoldable pub close_out_installation : Db → ℕ → ℕ → Db × InstallationSummary
unfolding close_out_rows
close_out_installation db e t =
    let closed = close_out_rows db e t in (closed, compute_installation_summary closed e)

module _ (e t : ℕ) where
  no_open_session :
      (ss : List CallSession)
      → count (open_session_in e) (update_many (open_session_in e) (end_session t) ss) ≡ 0
  unfolding end_session
  no_open_session [] = refl
  no_open_session (s ∷ ss) = ground (arith, no_open_session ss)

  no_awaiting :
      (ms : List Message)
      → count (awaiting_in e) (update_many (awaiting_in e) (reject_message t) ms) ≡ 0
  unfolding reject_message
  no_awaiting [] = refl
  no_awaiting (m ∷ ms) = ground (arith, no_awaiting ms)

  no_live_question :
      (qs : List Question)
      → count (live_question_in e) (update_many (live_question_in e) (archive_question t) qs) ≡ 0
  unfolding archive_question
  no_live_question [] = refl
  no_live_question (q ∷ qs) = ground (arith, no_live_question qs)

-- After the close-out the era has no open session, no message awaiting moderation and no live
-- question, and the summary is what computing it afterwards gives.
pub close_out-drains :
    (db : Db) (e t : ℕ)
    → let closed = close_out_installation db e t in
      (count (open_session_in e) closed.0.sessions ≡ 0)
      × (count (awaiting_in e) closed.0.messages ≡ 0)
      × (count (live_question_in e) closed.0.questions ≡ 0)
      × (closed.1 ≡ compute_installation_summary closed.0 e)
unfolding close_out_installation
close_out-drains db e t = (
  no_open_session e t db.sessions,
  no_awaiting e t db.messages,
  no_live_question e t db.questions,
  refl,
)

pub is_in_unique : (e f : ℕ) (i : Option ℕ) → e ≢ f → is_in e i ≡ true → is_in f i ≡ false
is_in_unique e f none h k = refl
is_in_unique e f (some i) h k = ground arith

-- A message in flight, which the close-out leaves alone.
abbrev pub in_flight : Message → Bool
in_flight m = not (is_landed m.status)

close_out-messages :
    (e f t : ℕ) (ms : List Message)
    → e ≢ f
    → filter (landed_in f) (update_many (awaiting_in e) (reject_message t) ms)
      ≡ filter (landed_in f) ms
unfolding reject_message
close_out-messages e f t ms h =
    filter-update_many (landed_in f) (awaiting_in e) (reject_message t) ms
      λ m a. ground (arith, is_in_unique e f m.installation_id h)

close_out-sessions :
    (e f t : ℕ) (ss : List CallSession)
    → e ≢ f
    → filter (session_in f) (update_many (open_session_in e) (end_session t) ss)
      ≡ filter (session_in f) ss
unfolding end_session
close_out-sessions e f t ss h =
    filter-update_many (session_in f) (open_session_in e) (end_session t) ss
      λ s a. ground (arith, is_in_unique e f s.installation_id h)

close_out-questions :
    (e f t : ℕ) (qs : List Question)
    → count (question_in f) (update_many (live_question_in e) (archive_question t) qs)
      ≡ count (question_in f) qs
unfolding archive_question
close_out-questions e f t qs =
    count-update_many (question_in f) (live_question_in e) (archive_question t) qs (λ q a. refl)

-- The close-out of one era changes nothing that another era's counters are computed from, and
-- leaves every upload in flight as it was, its own era's included.
pub close_out-other :
    (db : Db) (e f t : ℕ)
    → e ≢ f
    → (slice_of (close_out_installation db e t).0 f ≡ slice_of db f)
      × (filter in_flight (close_out_installation db e t).0.messages ≡ filter in_flight db.messages)
unfolding close_out_installation
close_out-other db e f t h = (
  λ i. record {
    sessions = close_out-sessions e f t db.sessions h i;
    landed = close_out-messages e f t db.messages h i;
    questions = close_out-questions e f t db.questions i;
    events = filter (event_in f) db.events;
  },
  filter-update_many in_flight (awaiting_in e) (reject_message t) db.messages λ m a. ground arith,
)

-- The counters that the close-out freezes, against the rows before it.
abbrev pub status_in : MessageStatus → ℕ → Message → Bool
status_in k e m = is_in e m.installation_id && status_eq m.status k

frozen_rejected :
    (e t : ℕ) (ms : List Message)
    → count
        (λ m. status_eq m.status rejected)
        (filter (landed_in e) (update_many (awaiting_in e) (reject_message t) ms))
      ≡ count (status_in rejected e) ms + count (awaiting_in e) ms
unfolding reject_message
frozen_rejected e t [] = refl
frozen_rejected e t (m ∷ ms) = ground (arith, frozen_rejected e t ms)

frozen_approved :
    (e t : ℕ) (ms : List Message)
    → count
        (λ m. status_eq m.status approved)
        (filter (landed_in e) (update_many (awaiting_in e) (reject_message t) ms))
      ≡ count (status_in approved e) ms
unfolding reject_message
frozen_approved e t [] = refl
frozen_approved e t (m ∷ ms) = ground (arith, frozen_approved e t ms)

frozen_landed :
    (e t : ℕ) (ms : List Message)
    → length (filter (landed_in e) (update_many (awaiting_in e) (reject_message t) ms))
      ≡ count (landed_in e) ms
unfolding reject_message
frozen_landed e t [] = refl
frozen_landed e t (m ∷ ms) = ground (arith, frozen_landed e t ms)

-- The frozen counters: the approved messages are those approved before, the rejected ones are those
-- rejected before and all that awaited moderation, and no recording is lost from the total.
pub close_out-summary :
    (db : Db) (e t : ℕ)
    → let s = (close_out_installation db e t).1 in
      (s.messages ≡ count (status_in approved e) db.messages)
      × (s.messages_rejected
          ≡ count (status_in rejected e) db.messages + count (awaiting_in e) db.messages)
      × (s.all_recordings ≡ count (landed_in e) db.messages)
unfolding close_out_installation compute_installation_summary
close_out-summary db e t = (
  frozen_approved e t db.messages,
  frozen_rejected e t db.messages,
  frozen_landed e t db.messages,
)

-- Updating the matching rows a second time changes nothing, if the update leaves none that match.
update_many_twice {ℓ} :
    {A : Type ℓ} (p : A → Bool) (f g : A → A) (xs : List A)
    → ((x : A) → p x ≡ true → p (f x) ≡ false)
    → update_many p g (update_many p f xs) ≡ update_many p f xs
update_many_twice p f g [] h = refl
update_many_twice p f g (x ∷ xs) h = ground (arith, h x, update_many_twice p f g xs h)

-- Closing out an era again, at whatever time, changes no row and gives the same summary.
pub close_out_twice :
    (db : Db) (e t u : ℕ)
    → let once = close_out_installation db e t in close_out_installation once.0 e u ≡ once
unfolding close_out_installation
close_out_twice db e t u =
    ap (λ d. (d, compute_installation_summary d e))
      λ i. record db {
        sessions =
            update_many_twice (open_session_in e) (end_session t) (end_session u) db.sessions
              (λ s a. ground arith) i;
        messages =
            update_many_twice (awaiting_in e) (reject_message t) (reject_message u) db.messages
              (λ m a. ground arith) i;
        questions =
            update_many_twice (live_question_in e) (archive_question t) (archive_question u)
              db.questions (λ q a. ground arith) i;
      }
