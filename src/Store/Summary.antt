-- ===== src/Store/Summary.antt =====
-- `computeInstallationSummary` of packages/api/src/lib/installation.ts: the counters of one era.
use telephone_booth_operator.Common.{
  ℕ, ◌+◌, min, max, ◌≡◌, refl, Bool, true, false, ◌&&◌, Option, none, some, List, [], ◌∷◌, map,
  length, filter, count, sum_by, with_default, arith, ◌↔◌,
}
use telephone_booth_operator.Common.Counter.{
  inc_record, tally, tally-inc_record, total_of, total_of-inc_record,
}
use telephone_booth_operator.Analytics.{EventType, digit_dialed, state_transition}
use telephone_booth_operator.Analytics.Breakdown.{summarize_interaction_breakdown}
use telephone_booth_operator.Store.{
  MessageStatus, uploading, received, pending, approved, rejected, status_eq, is_landed, Message,
  Question, CallSession, BoothEvent, InstallationSummary, Db, is_in,
}

-- What the counters of an era are computed from: its sessions, its landed messages, the number of
-- its questions and its events.
pub record Slice : Type 0 where
  pub sessions : List CallSession
  pub landed : List Message
  pub questions : ℕ
  pub events : List BoothEvent

abbrev pub landed_in : ℕ → Message → Bool
landed_in e m = is_in e m.installation_id && is_landed m.status

abbrev pub session_in : ℕ → CallSession → Bool
session_in e s = is_in e s.installation_id

abbrev pub question_in : ℕ → Question → Bool
question_in e q = is_in e q.installation_id

abbrev pub event_in : ℕ → BoothEvent → Bool
event_in e v = is_in e v.installation_id

abbrev pub slice_of : Db → ℕ → Slice
slice_of db e = record {
  sessions = filter (session_in e) db.sessions;
  landed = filter (landed_in e) db.messages;
  questions = count (question_in e) db.questions;
  events = filter (event_in e) db.events;
}

-- `type in ["digit_dialed", "state_transition"]`
is_action : EventType → Bool
is_action digit_dialed = true
is_action state_transition = true
is_action _ = false

count_by_status : List (MessageStatus × ℕ) → List Message → List (MessageStatus × ℕ)
unfolding inc_record
count_by_status r [] = r
count_by_status r (m ∷ ms) = count_by_status (inc_record status_eq r m.status) ms

-- The occurrence time of the first event by `occurredAt`, and of the last.
first_activity : List BoothEvent → Option ℕ
first_activity [] = none
first_activity (v ∷ vs) = some (min v.occurred_at (with_default (first_activity vs) v.occurred_at))

last_activity : List BoothEvent → Option ℕ
last_activity [] = none
last_activity (v ∷ vs) = some (max v.occurred_at (with_default (last_activity vs) v.occurred_at))

unfoldable pub summarize : Slice → InstallationSummary
unfolding is_action count_by_status first_activity last_activity
summarize s = record {
  calls = length s.sessions;
  interactions = length s.sessions;
  interaction_breakdown =
      summarize_interaction_breakdown (map (λ c. c.call) s.sessions)
        (map (λ v. v.event) (filter (λ v. is_action v.event.kind) s.events));
  messages = count (λ m. status_eq m.status approved) s.landed;
  all_recordings = length s.landed;
  by_status = count_by_status [] s.landed;
  messages_approved = count (λ m. status_eq m.status approved) s.landed;
  messages_rejected = count (λ m. status_eq m.status rejected) s.landed;
  questions = s.questions;
  events = length s.events;
  recorded_ms = sum_by (λ m. with_default m.audio_duration_ms 0) s.landed;
  first_activity_at = first_activity s.events;
  last_activity_at = last_activity s.events;
}

unfoldable pub compute_installation_summary : Db → ℕ → InstallationSummary
unfolding summarize
compute_installation_summary db e = summarize (slice_of db e)

status_eq_iff : (a b : MessageStatus) → (status_eq a b ≡ true) ↔ (a ≡ b)
status_eq_iff uploading b = ground arith
status_eq_iff received b = ground arith
status_eq_iff pending b = ground arith
status_eq_iff approved b = ground arith
status_eq_iff rejected b = ground arith

tally-count_by_status :
    (r : List (MessageStatus × ℕ)) (ms : List Message) (k : MessageStatus)
    → tally status_eq (count_by_status r ms) k
      ≡ tally status_eq r k + count (λ m. status_eq m.status k) ms
unfolding count_by_status
tally-count_by_status r [] k = omega arith
tally-count_by_status r (m ∷ ms) k = omega (
  arith,
  tally-inc_record status_eq status_eq_iff r m.status k,
  tally-count_by_status (inc_record status_eq r m.status) ms k,
)

total-count_by_status :
    (r : List (MessageStatus × ℕ)) (ms : List Message)
    → total_of (count_by_status r ms) ≡ total_of r + length ms
unfolding count_by_status
total-count_by_status r [] = omega arith
total-count_by_status r (m ∷ ms) = omega (
  arith,
  total_of-inc_record status_eq r m.status,
  total-count_by_status (inc_record status_eq r m.status) ms,
)

landed-uploading :
    (e : ℕ) (ms : List Message)
    → count (λ m. status_eq m.status uploading) (filter (landed_in e) ms) ≡ 0
landed-uploading e [] = refl
landed-uploading e (m ∷ ms) = ground (arith, landed-uploading e ms)

-- The histogram by status adds up to all recordings, its counts for approved and rejected are the
-- two counters of those names, and it counts no upload in flight.
pub summary-by_status :
    (db : Db) (e : ℕ)
    → let s = compute_installation_summary db e in
      (total_of s.by_status ≡ s.all_recordings)
      × (tally status_eq s.by_status approved ≡ s.messages_approved)
      × (tally status_eq s.by_status rejected ≡ s.messages_rejected)
      × (tally status_eq s.by_status uploading ≡ 0)
unfolding compute_installation_summary tally
summary-by_status db e =
    let ms = filter (landed_in e) db.messages in
    (
      omega (arith, total-count_by_status [] ms),
      omega (arith, tally-count_by_status [] ms approved),
      omega (arith, tally-count_by_status [] ms rejected),
      omega (arith, tally-count_by_status [] ms uploading, landed-uploading e db.messages),
    )
