-- ===== src/Questions/Editing.antt =====
-- packages/api/src/routes/questions.ts: editing, activating, deactivating and archiving a prompt. An
-- era that has ended keeps its prompts as they were.
pub mod Settled
use text.Mathlib.Text.{◌==◌ as str_eq}
use telephone_booth_operator.Common.{
  ℕ, String, Bool, true, ◌&&◌, not, Option, none, some, List, [], ◌∷◌, any, if◌then◌else◌, ◌==◌,
  count, find_first, update_many, holds, with_default,
}
use telephone_booth_operator.Store.{
  QuestionStatus, draft, active, archived, question_status_eq, Question, Db, is_in,
}
use telephone_booth_operator.Era.{era_is_writable}
use telephone_booth_operator.Questions.{is_question}

-- `question_gone` is the error of an update whose row does not exist.
pub data QuestionAnswer : Type 0 where
  question_not_found question_conflict question_era_ended question_gone : QuestionAnswer
  question_written : QuestionAnswer

unfoldable pub find_question : Db → ℕ → Option Question
find_question db id = find_first (is_question id) db.questions

write_questions : (Question → Bool) → (Question → Question) → Db → Db
write_questions p f db = record db { questions = update_many p f db.questions }

-- `withOpenEra`, around an update by id. `update` of a row that is gone is an error.
with_open_era :
    Db → Option ℕ → (Question → Bool) → (Question → Question) → QuestionAnswer → Db × QuestionAnswer
unfolding write_questions
with_open_era db era p f gone =
    if not (era_is_writable db era)
    then (db, question_era_ended)
    else if count p db.questions == 0
    then (db, gone)
    else (write_questions p f db, question_written)

not_archived : QuestionStatus → Bool
not_archived s = not (question_status_eq s archived)

-- `@@unique([installationId, prompt])`, where null equals nothing.
clashes : Question → Question → Bool
clashes q x = holds (λ e. is_in e x.installation_id) q.installation_id && str_eq q.prompt x.prompt

unique_prompts : List Question → Bool
unfolding clashes
unique_prompts [] = true
unique_prompts (q ∷ qs) = not (any (clashes q) qs) && unique_prompts qs

-- The body's fields that are given.
edit : Option String → Option ℕ → Question → Question
edit prompt weight q = record q {
  prompt = with_default prompt q.prompt;
  weight = with_default weight q.weight;
}

set_status : QuestionStatus → Option ℕ → Question → Question
set_status status retired_at q = record q { status = status; retired_at = retired_at }

-- `PATCH /:id`. The database refuses two questions with one prompt in one era.
unfoldable pub update_question : Db → Db → ℕ → Option String → Option ℕ → Db × QuestionAnswer
unfolding with_open_era not_archived edit find_question unique_prompts
update_question before db id prompt weight = elim (find_question before id) [
  | none ↦ (db, question_not_found)
  | some q ↦
      if question_status_eq q.status archived
      then (db, question_not_found)
      else let (after, answer) =
          with_open_era db q.installation_id (λ x. is_question id x && not_archived x.status)
            (edit prompt weight) question_not_found in
        if unique_prompts after.questions then (after, answer) else (db, question_conflict)
]

-- `POST /:id/activate`
unfoldable pub activate_question : Db → Db → ℕ → Db × QuestionAnswer
unfolding with_open_era set_status find_question
activate_question before db id = elim (find_question before id) [
  | none ↦ (db, question_not_found)
  | some q ↦
      with_open_era db q.installation_id (is_question id) (set_status active none) question_gone
]

-- `POST /:id/deactivate`
unfoldable pub deactivate_question : Db → Db → ℕ → Db × QuestionAnswer
unfolding with_open_era set_status find_question
deactivate_question before db id = elim (find_question before id) [
  | none ↦ (db, question_not_found)
  | some q ↦
      with_open_era db q.installation_id (is_question id) (set_status draft none) question_gone
]

-- `DELETE /:id`, which archives.
unfoldable pub archive_question_by_hand : Db → Db → ℕ → ℕ → Db × QuestionAnswer
unfolding with_open_era set_status find_question
archive_question_by_hand before db id now = elim (find_question before id) [
  | none ↦ (db, question_not_found)
  | some q ↦
      if question_status_eq q.status archived
      then (db, question_not_found)
      else with_open_era db q.installation_id (is_question id) (set_status archived (some now))
          question_gone
]
