-- ===== src/Results/Moderating.antt =====
-- packages/api/src/lib/ai/pipeline.ts, `recordModerationResultInTransaction`.
use text.Mathlib.Text.{◌==◌ as str_eq}
use telephone_booth_operator.Common.{
  ℕ, ◌+◌, ◌-◌, String, Bool, true, false, ◌&&◌, not, Option, none, some, List, [], ◌∷◌,
  if◌then◌else◌, ◌==◌, ◌==?◌, ltb, count, find_first, update_many, is_none, is_some, holds, or_else,
  with_default, all, length,
}
use telephone_booth_operator.Leases.Needs.{attempt_succeeded, is_succeeded}
use telephone_booth_operator.Results.{
  Runtime, Transcription, Moderation, Analysis, Outcome, transcription_not_found,
  stale_transcription, stale_input, unchanged, recorded, is_pending, same_string, latest_of,
  latest_succeeded, translation_of,
}

pub record ModerationResult : Type 0 where
  pub transcription_id : Option ℕ
  pub flagged : Bool
  pub recommendation : Option String
  pub max_score : Option ℕ
  pub categories : List (String × ℕ)
  pub reason_summary : Option String
  pub model : Option String
  pub input_digest : Option ℕ
  pub provider : Option String
  pub requested_by : Option ℕ
  pub create_when_missing : Bool

unfoldable pub same_bool : Bool → Bool → Bool
same_bool true b = b
same_bool false b = not b

lookup : String → List (String × ℕ) → Option ℕ
lookup key [] = none
lookup key (entry ∷ entries) =
    let rest = lookup key entries in if str_eq entry.0 key then some entry.1 else rest

-- `categoriesMatch`, of two maps whose keys are different.
unfoldable pub categories_match : List (String × ℕ) → List (String × ℕ) → Bool
unfolding lookup
categories_match stored submitted =
    length submitted == length stored
    && all (λ entry. lookup entry.0 stored ==? some entry.1) submitted

-- The text that is moderated: the translation, or else the transcript.
unfoldable pub input_of : Runtime → Transcription → String
unfolding translation_of
input_of r t = with_default (translation_of r t) (r.trim (with_default t.text ""))

-- What is wrong with the transcription that the verdict names, if anything.
unfoldable pub target_problem : Runtime → ModerationResult → Analysis → Option ℕ → Option Outcome
unfolding input_of
target_problem r o a none = none
target_problem r o a (some id) = elim (find_first (λ t. t.id == id) a.transcriptions) [
  | none ↦ some transcription_not_found
  | some t ↦
      if not (holds (λ x. x.id == id) (latest_succeeded a))
      then some stale_transcription
      else if holds (λ digest. not (r.digest (r.trim (input_of r t)) == digest)) o.input_digest
      then some stale_input
      else none
]

-- The pending row that the verdict finalizes.
unfoldable pub is_awaited : ModerationResult → Moderation → Bool
is_awaited o m =
    is_pending m.status
    && elim o.transcription_id [ none ↦ true | some id ↦ m.transcription_id ==? some id ]

unfoldable pub decided : ModerationResult → ℕ → Moderation → Moderation
decided o now m = record m {
  status = attempt_succeeded;
  flagged = o.flagged;
  recommendation = o.recommendation;
  max_score = o.max_score;
  categories = o.categories;
  reason_summary = o.reason_summary;
  model = or_else o.model (if is_none o.provider then m.model else none);
  provider = with_default o.provider m.provider;
  latency_ms = some (now - m.created_at);
  completed_at = some now;
  requested_by = or_else o.requested_by m.requested_by;
}

-- The latest row already holds the verdict.
unfoldable pub is_repeat : ModerationResult → Moderation → Bool
unfolding same_bool categories_match
is_repeat o m =
    is_succeeded m.status
    && m.transcription_id ==? o.transcription_id
    && str_eq m.provider (with_default o.provider "push")
    && same_bool m.flagged o.flagged
    && same_string m.recommendation o.recommendation
    && m.max_score ==? o.max_score
    && categories_match m.categories o.categories
    && same_string m.reason_summary o.reason_summary
    && same_string m.model o.model
    && m.requested_by ==? o.requested_by

unfoldable pub new_moderation : ModerationResult → ℕ → Analysis → Moderation
new_moderation o now a = record {
  id = a.next_id;
  created_at = now;
  status = attempt_succeeded;
  transcription_id = o.transcription_id;
  provider = with_default o.provider "push";
  model = o.model;
  flagged = o.flagged;
  recommendation = o.recommendation;
  max_score = o.max_score;
  categories = o.categories;
  reason_summary = o.reason_summary;
  requested_by = o.requested_by;
  error = none;
  latency_ms = none;
  completed_at = some now;
}

unfoldable pub create_moderation : ModerationResult → ℕ → Analysis → Option ℕ → Analysis × Outcome
unfolding new_moderation is_repeat
create_moderation o now a pending =
    if not o.create_when_missing
    then (a, unchanged pending)
    else if holds (is_repeat o) (latest_of a.moderations)
    then (a, unchanged (elim (latest_of a.moderations) [ none ↦ none | some m ↦ some m.id ]))
    else (
      record a { moderations = new_moderation o now a ∷ a.moderations; next_id = a.next_id + 1 },
      recorded a.next_id,
    )

unfoldable pub finalize_or_create :
    ModerationResult → ℕ → Analysis → Option Moderation → Analysis × Outcome
unfolding create_moderation decided
finalize_or_create o now a none = create_moderation o now a none
finalize_or_create o now a (some pending) =
    let is_it : Moderation → Bool = λ m. m.id == pending.id && is_pending m.status in
    if is_none o.transcription_id && is_some pending.transcription_id
    then (a, stale_transcription)
    else if ltb 0 (count is_it a.moderations)
    then (
      record a { moderations = update_many is_it (decided o now) a.moderations },
      recorded pending.id,
    )
    else create_moderation o now a (some pending.id)

unfoldable pub record_checked :
    ModerationResult → ℕ → Analysis → Option Outcome → Analysis × Outcome
unfolding finalize_or_create is_awaited
record_checked o now a (some problem) = (a, problem)
record_checked o now a none = finalize_or_create o now a (find_first (is_awaited o) a.moderations)

unfoldable pub record_moderation_result :
    Runtime → ModerationResult → ℕ → Analysis → Analysis × Outcome
unfolding record_checked target_problem
record_moderation_result r o now a =
    record_checked o now a (target_problem r o a o.transcription_id)
