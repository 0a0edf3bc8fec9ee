-- ===== src/Status.antt =====
-- packages/api/src/routes/status.ts, `PUT /`: a report of the booth's status is folded into the run of
-- equal reports that it belongs to, and an idle booth closes the sessions it left open.
pub mod Beats
pub mod Settled
use text.Mathlib.Text.{◌==◌ as str_eq}
use telephone_booth_operator.Common.{
  ℕ, ◌+◌, min, max, String, Bool, true, false, ◌&&◌, ◌||◌, Option, none, some, List, [], ◌∷◌, ◌++◌,
  if◌then◌else◌, ◌==◌, ◌==?◌, ltb, leb, is_none, count, update_many, with_default,
}
use telephone_booth_operator.Analytics.{InteractionSession}
use telephone_booth_operator.Store.{CallSession, Db, is_in}
use telephone_booth_operator.Era.{lock_open_installation}

pub record StatusSnapshot : Type 0 where
  pub id : ℕ
  pub state : String
  pub current_question_id : Option ℕ
  pub current_message_id : Option ℕ
  pub last_error : Option String
  pub runtime_mode : Option String
  pub first_seen_at : ℕ
  pub updated_at : ℕ
  pub repeat_count : ℕ
  pub installation_id : Option ℕ

-- A field that the report leaves out is null.
pub record StatusUpdate : Type 0 where
  pub state : String
  pub current_question_id : Option ℕ
  pub current_message_id : Option ℕ
  pub last_error : Option String
  pub runtime_mode : Option String
  pub updated_at : Option ℕ

-- `===` on two nullable texts.
unfoldable pub same_text : Option String → Option String → Bool
same_text none none = true
same_text none (some b) = false
same_text (some a) none = false
same_text (some a) (some b) = str_eq a b

unfoldable pub is_repeat_of : StatusSnapshot → StatusUpdate → Bool
unfolding same_text
is_repeat_of s u =
    str_eq s.state u.state
    && s.current_question_id ==? u.current_question_id
    && s.current_message_id ==? u.current_message_id
    && same_text s.last_error u.last_error
    && same_text s.runtime_mode u.runtime_mode

-- `findFirst` in the order that `before` gives.
pub first_by :
    (StatusSnapshot → StatusSnapshot → Bool)
    → (StatusSnapshot → Bool)
    → List StatusSnapshot
    → Option StatusSnapshot
first_by before p [] = none
first_by before p (s ∷ ss) =
    let rest = first_by before p ss in
    if p s
    then elim rest [ none ↦ some s | some t ↦ if before t s then some t else some s ]
    else rest

earlier : StatusSnapshot → StatusSnapshot → Bool
earlier a b =
    ltb a.first_seen_at b.first_seen_at || (a.first_seen_at == b.first_seen_at && ltb a.id b.id)

later : StatusSnapshot → StatusSnapshot → Bool
unfolding earlier
later a b = earlier b a

enclosing : ℕ → ℕ → List StatusSnapshot → Option StatusSnapshot
unfolding first_by later
enclosing e t ss = first_by later (λ s. is_in e s.installation_id && leb s.first_seen_at t) ss

successor : ℕ → ℕ → List StatusSnapshot → Option StatusSnapshot
unfolding first_by earlier
successor e t ss = first_by earlier (λ s. is_in e s.installation_id && ltb t s.first_seen_at) ss

-- `[enclosing, successor].find(...)`
repeat_in : StatusUpdate → Option StatusSnapshot → Option StatusSnapshot
repeat_in u none = none
repeat_in u (some s) = if is_repeat_of s u then some s else none

pub run_of : ℕ → ℕ → StatusUpdate → List StatusSnapshot → Option StatusSnapshot
unfolding repeat_in enclosing successor
run_of e t u ss = elim (repeat_in u (enclosing e t ss)) [
  | none ↦ repeat_in u (successor e t ss)
  | some s ↦ some s
]

pub widen : ℕ → StatusSnapshot → StatusSnapshot → StatusSnapshot
widen t run s = record s {
  first_seen_at = if ltb t run.first_seen_at then t else run.first_seen_at;
  updated_at = if ltb run.updated_at t then t else run.updated_at;
  repeat_count = s.repeat_count + 1;
}

pub new_snapshot : ℕ → ℕ → ℕ → StatusUpdate → StatusSnapshot
new_snapshot fresh e t u = record {
  id = fresh;
  state = u.state;
  current_question_id = u.current_question_id;
  current_message_id = u.current_message_id;
  last_error = u.last_error;
  runtime_mode = u.runtime_mode;
  first_seen_at = t;
  updated_at = t;
  repeat_count = 1;
  installation_id = some e;
}

-- `reconcileStaleSessionsOnIdle`
abbrev pub is_stale : ℕ → ℕ → CallSession → Bool
is_stale e t s = is_in e s.installation_id && (is_none s.call.ended_at && leb s.call.started_at t)

abort_call : ℕ → InteractionSession → InteractionSession
abort_call t c = record c { ended_at = some t; outcome = some "aborted"; duration_ms = none }

pub abort : ℕ → CallSession → CallSession
unfolding abort_call
abort t s = record s { call = abort_call t s.call }

pub reconcile_stale_sessions : Db → ℕ → ℕ → Db
unfolding abort
reconcile_stale_sessions db e t = record db {
  sessions = update_many (is_stale e t) (abort t) db.sessions;
}

-- The table afterwards, and the `updatedAt` of the row that holds the report. The run is read in `seen`
-- and written in `ss`; the update throws where its row is gone by then.
unfoldable pub report :
    ℕ
    → ℕ
    → ℕ
    → StatusUpdate
    → List StatusSnapshot
    → List StatusSnapshot
    → Option (List StatusSnapshot × ℕ)
unfolding run_of widen new_snapshot
report fresh e t u seen ss = elim (run_of e t u seen) [
  | some run ↦
      if count (λ s. s.id == run.id) ss == 0
      then none
      else some (
        update_many (λ s. s.id == run.id) (widen t run) ss,
        if ltb run.updated_at t then t else run.updated_at,
      )
  | none ↦ some (ss ++ new_snapshot fresh e t u ∷ [], t)
]

-- `PUT /`. `none` is the answer without an open era, or a failed update.
unfoldable pub put_status :
    Db
    → List StatusSnapshot
    → List StatusSnapshot
    → ℕ
    → StatusUpdate
    → ℕ
    → Option (Db × List StatusSnapshot)
unfolding report reconcile_stale_sessions
put_status db seen ss fresh u now = elim (lock_open_installation db none) [
  | none ↦ none
  | some e ↦ elim (report fresh e (with_default u.updated_at now) u seen ss) [
    | none ↦ none
    | some (after, t) ↦
        some (if str_eq u.state "idle" then reconcile_stale_sessions db e t else db, after)
  ]
]
