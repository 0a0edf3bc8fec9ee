-- ===== src/Events.antt =====
-- packages/api/src/routes/events.ts, `POST /`: a batch of booth events, and the call sessions that are
-- derived from it. `before` is the database that the route reads first, `db` the one at its
-- transaction, and `codes` gives the characters of a text. A duration is a natural number.
pub mod Ingest
pub mod Frozen
pub mod Retry
pub mod Late
use text.Mathlib.Text.{◌==◌ as str_eq}
use telephone_booth_operator.Common.{
  ℕ, zero, suc, ◌+◌, String, Bool, true, false, ◌&&◌, ◌||◌, not, Option, none, some, List, [], ◌∷◌,
  ◌++◌, map, if◌then◌else◌, ◌==◌, ltb, is_none, is_some, holds, or_else, with_default, any, filter,
  length, count, find_first, update_many,
}
use telephone_booth_operator.Common.Json.{
  Json, null, bool, nat, negative, fraction, str, arr, obj, get_field,
}
use telephone_booth_operator.Analytics.{
  EventType, digit_dialed, state_transition, call_started, call_ended, other, InteractionSession,
  InteractionEvent,
}
use telephone_booth_operator.Store.{
  CallSession, BoothEvent, Installation, Db, has_id, is_in, is_open,
}
use telephone_booth_operator.Era.{
  open_era, find_installation, lock_installation, lock_open_installation,
}
use telephone_booth_operator.Era.CloseOut.{rollover_outcome}

abbrev pub booth_event_batch_max : ℕ
booth_event_batch_max = 500

pub record Incoming : Type 0 where
  pub event_id : ℕ
  pub booth_id : String
  pub boot_id : String
  pub occurred_at : ℕ
  pub session_id : Option ℕ
  pub recording_id : Option String
  pub version : Option String
  pub event : InteractionEvent

-- `Partial<StoredCallSession>`: null and absent fields are written alike.
pub record SessionInit : Type 0 where
  pub id : ℕ
  pub booth_id : String
  pub boot_id : String
  pub started_at : Option ℕ
  pub ended_at : Option ℕ
  pub digits_dialed : Option String
  pub outcome : Option String
  pub recording_id : Option String
  pub duration_ms : Option ℕ
  pub version : Option String

-- `payload[key]`, where null and undefined are alike under `??` and `typeof`.
not_null : Option Json → Option Json
not_null (some null) = none
not_null o = o

field_of : String → Json → Option Json
unfolding not_null get_field
field_of k (obj fs) = not_null (get_field k fs)
field_of k _ = none

as_text : Option Json → Option String
as_text (some (str s)) = some s
as_text _ = none

as_number : Option Json → Option ℕ
as_number (some (nat n)) = some n
as_number _ = none

abbrev pub reported_outcomes : List String
reported_outcomes =
    "hung_up_before_dial" ∷ "hung_up_during_prompt" ∷ "hung_up_during_recording"
    ∷ "hung_up_during_upload" ∷ "recording_completed" ∷ "recording_failed" ∷ "upload_failed"
    ∷ "operator_error" ∷ "aborted" ∷ []

-- `BoothReportedCallOutcomeSchema`
reported : Option String → Option String
reported none = none
reported (some o) = if any (str_eq o) reported_outcomes then some o else none

call_outcome : Json → Option String
unfolding field_of as_text reported
call_outcome p = reported (as_text (or_else (field_of "outcome" p) (field_of "call_outcome" p)))

-- What a start, and an end, writes over an entry of `sessionInits`.
start_init : Incoming → ℕ → Option SessionInit → SessionInit
start_init e id none = record {
  id = id;
  booth_id = e.booth_id;
  boot_id = e.boot_id;
  started_at = some e.occurred_at;
  ended_at = none;
  digits_dialed = none;
  outcome = none;
  recording_id = none;
  duration_ms = none;
  version = e.version;
}
start_init e id (some i) = record i {
  booth_id = e.booth_id;
  boot_id = e.boot_id;
  started_at = some e.occurred_at;
  version = e.version;
}

end_init : Incoming → ℕ → Option SessionInit → SessionInit
unfolding call_outcome as_number as_text field_of
end_init e id o = record {
  id = id;
  booth_id = e.booth_id;
  boot_id = e.boot_id;
  started_at = elim o [ none ↦ none | some i ↦ i.started_at ];
  ended_at = some e.occurred_at;
  digits_dialed = as_text (field_of "digits_dialed" e.event.payload);
  outcome = call_outcome e.event.payload;
  recording_id = or_else e.recording_id (as_text (field_of "recording_id" e.event.payload));
  duration_ms = as_number (field_of "duration_ms" e.event.payload);
  version = e.version;
}

abbrev pub is_init : ℕ → SessionInit → Bool
is_init id i = i.id == id

-- `Map.set`, which keeps the place of a key that is there.
set_init : SessionInit → List SessionInit → List SessionInit
set_init i [] = i ∷ []
set_init i (x ∷ xs) = let rest = set_init i xs in if x.id == i.id then i ∷ xs else x ∷ rest

init_event : Incoming → ℕ → EventType → List SessionInit → List SessionInit
unfolding set_init start_init end_init
init_event e id call_started inits =
    set_init (start_init e id (find_first (is_init id) inits)) inits
init_event e id call_ended inits = set_init (end_init e id (find_first (is_init id) inits)) inits
init_event e id _ inits = inits

pub session_inits : List Incoming → List SessionInit → List SessionInit
unfolding init_event
session_inits [] inits = inits
session_inits (e ∷ es) inits = elim e.session_id [
  | none ↦ session_inits es inits
  | some id ↦ session_inits es (init_event e id e.event.kind inits)
]

abbrev pub is_session : ℕ → CallSession → Bool
is_session id s = s.id == id

-- `sessionEra.get(id)`: read at first, or in the transaction.
unfoldable pub session_era : Db → Db → ℕ → Option CallSession
session_era before db id =
    or_else (find_first (is_session id) before.sessions) (find_first (is_session id) db.sessions)

-- `endedEras.has(e)`: an era of a session of the batch that was known and had ended at the first read.
known_in : Db → ℕ → Incoming → Bool
known_in before e v = elim v.session_id [
  | none ↦ false
  | some id ↦ elim (find_first (is_session id) before.sessions) [
    | none ↦ false
    | some s ↦ is_in e s.installation_id
  ]
]

has_ended : Db → List Incoming → ℕ → Bool
unfolding known_in find_installation
has_ended before batch e =
    any (known_in before e) batch
    && holds (λ row. is_some row.ended_at) (find_installation before e)

unfoldable pub is_frozen : Db → Db → List Incoming → ℕ → Bool
unfolding session_era has_ended
is_frozen before db batch id = elim (session_era before db id) [
  | none ↦ false
  | some s ↦ holds (has_ended before batch) s.installation_id
]

-- `eraFor`
unfoldable pub era_for : Db → Db → ℕ → Option ℕ → ℕ
unfolding session_era
era_for before db locked none = locked
era_for before db locked (some id) = elim (session_era before db id) [
  | none ↦ locked
  | some s ↦ with_default s.installation_id locked
]

-- The `where` of the update: not stamped by the rollover, and in no era that has ended.
unfoldable pub is_writable_session : Db → ℕ → CallSession → Bool
is_writable_session db id s =
    is_session id s
    && not (holds (λ o. str_eq o rollover_outcome) s.call.outcome)
    && (is_none s.installation_id || holds (lock_installation db) s.installation_id)

-- `...(init.outcome ? { outcome } : {})`: an empty text counts as absent there.
given : Option String → Option String
given none = none
given (some s) = if str_eq s "" then none else some s

patch_call : (String → List ℕ) → SessionInit → InteractionSession → InteractionSession
unfolding given
patch_call codes i c = record c {
  ended_at = or_else i.ended_at c.ended_at;
  outcome = or_else (given i.outcome) c.outcome;
  duration_ms = or_else i.duration_ms c.duration_ms;
  digits_dialed = elim i.digits_dialed [ none ↦ c.digits_dialed | some d ↦ some (codes d) ];
}

pub patch_session : (String → List ℕ) → SessionInit → CallSession → CallSession
unfolding patch_call given
patch_session codes i s = record s {
  recording_id = or_else (given i.recording_id) s.recording_id;
  version = or_else (given i.version) s.version;
  call = patch_call codes i s.call;
}

pub new_session : (String → List ℕ) → SessionInit → ℕ → ℕ → CallSession
new_session codes i era now = record {
  id = i.id;
  booth_id = i.booth_id;
  boot_id = i.boot_id;
  recording_id = i.recording_id;
  version = i.version;
  installation_id = some era;
  call = record {
    started_at = with_default i.started_at now;
    ended_at = i.ended_at;
    outcome = i.outcome;
    duration_ms = i.duration_ms;
    digits_dialed = elim i.digits_dialed [ none ↦ none | some d ↦ some (codes d) ];
  };
}
