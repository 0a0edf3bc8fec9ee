-- ===== src/Installations.antt =====
-- packages/api/src/routes/installations.ts: starting and ending an era. A route's answer is
-- a result; its transaction is one step, and what it read before that is an argument of its own.
pub mod Settled
pub mod Lifecycle
pub mod Begin
pub mod Start
pub mod Carry
pub mod Purging
pub mod Purged
pub mod Cleared
use text.Mathlib.Text.{◌==◌ as str_eq}
use telephone_booth_operator.Common.{
  ℕ, ◌+◌, String, Bool, true, false, ◌&&◌, ◌||◌, not, Option, none, some, List, [], ◌∷◌, ◌++◌, map,
  if◌then◌else◌, ◌==◌, count, filter, any, find_first, find_latest, update_many, length, is_none,
  is_some, with_default, or_else, ltb,
}
use telephone_booth_operator.Store.{
  QuestionStatus, draft, active, archived, question_status_eq, Question, Installation,
  InstallationSummary, Db, is_open, has_id, is_in,
}
use telephone_booth_operator.Era.{find_active_installation, find_installation}
use telephone_booth_operator.Era.CloseOut.{close_out_installation}

-- `updateMany({ where: { id, endedAt: null }, data: { endedAt } })`
pub claims : ℕ → Installation → Bool
claims e row = has_id e row && is_open row

stamp_ended : ℕ → Installation → Installation
stamp_ended t row = record row { ended_at = some t }

-- The final update of an ended era. `notes` and `location` are written if the body gives them.
finish :
    ℕ → Option ℕ → InstallationSummary → Option String → Option String → Installation → Installation
finish t user summary notes location row = record row {
  ended_at = some t;
  ended_by = user;
  summary = some summary;
  notes = or_else notes row.notes;
  location = or_else location row.location;
}

-- Claim the era, close it out, and freeze its summary. `none` means that the claim was lost.
unfoldable pub end_era : Db → ℕ → ℕ → Option ℕ → Option String → Option String → Option Db
unfolding claims stamp_ended finish
end_era db e t user notes location =
    let claimed = record db {
      installations = update_many (claims e) (stamp_ended t) db.installations;
    } in
    let (closed, summary) = close_out_installation claimed e t in
    let ended = record closed {
      installations =
          update_many (has_id e) (finish t user summary notes location) closed.installations;
    } in
    if count (claims e) db.installations == 0 then none else some ended

pub record InstallationCreate : Type 0 where
  pub name : String
  pub notes : Option String
  pub location : Option String
  pub default_transcription_language : Option String
  pub copy_questions : Bool

-- `nextDefaultName`; `name_of n` is the text "Installation n".
next_installation_name : (ℕ → String) → Db → String
next_installation_name name_of db =
    let n = length db.installations in if n == 0 then "Installation 1" else name_of (n + 1)

new_installation : (ℕ → String) → Db → ℕ → InstallationCreate → ℕ → Installation
unfolding next_installation_name
new_installation name_of before fresh body now = record {
  id = fresh;
  name = if str_eq body.name "" then next_installation_name name_of before else body.name;
  notes = body.notes;
  location = body.location;
  default_transcription_language = body.default_transcription_language;
  started_at = now;
  ended_at = none;
  ended_by = none;
  summary = none;
  question_selection_cycle = 0;
  last_selected_question_id = none;
  recent_question_draws = [];
}

-- `create`, under the unique index that keeps at most one era open.
create_installation : Db → Installation → Option Db
create_installation db row =
    if any is_open db.installations
    then none
    else some (record db { installations = db.installations ++ row ∷ []; next_id = db.next_id + 1 })

-- `retiredAt: previous.endedAt`, in the branch where that is not null.
abbrev retired_then : Option ℕ → Option ℕ → Bool
retired_then (some t) (some u) = t == u
retired_then _ _ = false

-- The questions that carry forward: live or draft, or archived by the end of their era.
pub carries : Installation → Question → Bool
carries previous q =
    is_in previous.id q.installation_id
    && (question_status_eq q.status active
        || question_status_eq q.status draft
        || (question_status_eq q.status archived && retired_then previous.ended_at q.retired_at))

copy_of : ℕ → ℕ → Question → Question
copy_of fresh era q = record {
  id = fresh;
  prompt = q.prompt;
  audio_id = q.audio_id;
  status = if question_status_eq q.status draft then draft else active;
  weight = q.weight;
  installation_id = some era;
  retired_at = none;
  last_selected_cycle = none;
  selections_in_cycle = 0;
}

-- The loop over the source questions. `done` are the questions of the new era so far: their prompts
-- and recordings are the two sets that the loop skips by.
already_there : List Question → Question → Bool
already_there done q = any (λ d. str_eq d.prompt q.prompt || d.audio_id == q.audio_id) done

pub copy_questions : ℕ → ℕ → List Question → List Question → List Question
unfolding already_there copy_of
copy_questions fresh era done [] = []
copy_questions fresh era done (q ∷ qs) =
    let skipped = copy_questions fresh era done qs in
    let copied =
      copy_of fresh era q ∷ copy_questions (fresh + 1) era (copy_of fresh era q ∷ done) qs in
    if already_there done q then skipped else copied

pub carry_forward : Db → ℕ → Installation → Db
unfolding carries copy_questions
carry_forward db era previous =
    let done = filter (λ q. is_in era q.installation_id) db.questions in
    let copies = copy_questions db.next_id era done (filter (carries previous) db.questions) in
    record db { questions = db.questions ++ copies; next_id = db.next_id + length copies }

pub record Started : Type 0 where
  pub db : Db
  pub created : ℕ
  pub ended : Option ℕ

latest_ended : Db → Option Installation
latest_ended db =
    find_latest (λ row. is_some row.ended_at) (λ row. with_default row.ended_at 0) db.installations

-- The part after the close-out: create the era, and copy questions from `previous` if asked.
begin_era :
    (ℕ → String)
    → Db
    → Db
    → InstallationCreate
    → ℕ
    → Option Installation
    → Option ℕ
    → Option Started
unfolding new_installation create_installation carry_forward
begin_era name_of before db body now previous ended =
    elim (create_installation db (new_installation name_of before db.next_id body now)) [
      | none ↦ none
      | some created ↦ some (record {
        db = elim previous [
          | none ↦ created
          | some p ↦ if body.copy_questions then carry_forward created db.next_id p else created
        ];
        created = db.next_id;
        ended = ended;
      })
    ]

-- `POST /`: start an era, closing the open one out first. `none` is the answer 409, with nothing
-- written. The open era, the last ended one and the number of eras are read in `before`; the claim of
-- the open era, or else the insert, is made in `db`.
unfoldable pub start_installation :
    (ℕ → String) → Db → Db → InstallationCreate → Option ℕ → ℕ → ℕ → Option Started
unfolding latest_ended begin_era
start_installation name_of before db body user ended_at now =
    elim (find_active_installation before) [
      | none ↦ begin_era name_of before db body now (latest_ended before) none
      | some row ↦ elim (end_era db row.id ended_at user none none) [
        | none ↦ none
        | some ended ↦
            begin_era name_of before ended body now (find_installation ended row.id) (some row.id)
      ]
    ]

pub data EndAnswer : Type 0 where
  installation_not_found installation_already_ended : EndAnswer
  ended : Db → EndAnswer

-- `POST /:id/end`. `before` is the database at the first read, `db` at the transaction.
unfoldable pub end_installation :
    Db → Db → ℕ → ℕ → Option ℕ → Option String → Option String → EndAnswer
end_installation before db e t user notes location = elim (find_installation before e) [
  | none ↦ installation_not_found
  | some row ↦
      if is_some row.ended_at
      then installation_already_ended
      else elim (end_era db e t user notes location) [
        | none ↦ installation_already_ended
        | some db' ↦ ended db'
      ]
]
