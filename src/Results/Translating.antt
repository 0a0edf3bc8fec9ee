-- ===== src/Results/Translating.antt =====
-- packages/api/src/lib/ai/pipeline.ts, `recordTranslationResultInTransaction`.
use telephone_booth_operator.Common.{
  ℕ, String, Bool, ◌&&◌, ◌||◌, not, Option, none, some, if◌then◌else◌, ◌==◌, ◌==?◌, is_none, holds,
  or_else, update_many,
}
use telephone_booth_operator.Leases.Needs.{attempt_succeeded}
use telephone_booth_operator.Results.{
  Runtime, Transcription, Moderation, Analysis, Outcome, no_transcription, stale_transcription,
  stale_translation, recorded, is_live, same_string, superseded, latest_succeeded,
  normalize_translation_text, translation_of,
}

pub record TranslationResult : Type 0 where
  pub transcription_id : Option ℕ
  pub expected_transcription_id : Option ℕ
  pub expected_translation_digest : Option (Option ℕ)
  pub translated_text : String
  pub translated_language : Option String
  pub model : Option String
  pub provider : Option String

-- The text that a moderation of the row has read.
unfoldable pub review_text : Runtime → Transcription → Option String
unfolding translation_of
review_text r t =
    or_else (translation_of r t) (elim t.text [ none ↦ none | some s ↦ some (r.trim s) ])

unfoldable pub is_stale_translation : Runtime → TranslationResult → Transcription → Bool
unfolding translation_of
is_stale_translation r o t =
    let current : Option ℕ = elim (translation_of r t) [
      | none ↦ none
      | some s ↦ some (r.digest s)
    ] in
    holds (λ e. not (current ==? e)) o.expected_translation_digest

-- The live moderations of the row, and those of none, fail where the text is another one.
unfoldable pub reads : ℕ → Moderation → Bool
reads id m = (is_none m.transcription_id || m.transcription_id ==? some id) && is_live m.status

unfoldable pub translated : Runtime → TranslationResult → ℕ → Transcription → Transcription
unfolding normalize_translation_text
translated r o now t = record t {
  translation_status = some attempt_succeeded;
  translated_text = some (normalize_translation_text r o.translated_text);
  translated_language = o.translated_language;
  translation_provider = o.provider;
  translation_model = elim o.provider [ none ↦ none | some p ↦ o.model ];
  translation_error = none;
  translation_completed_at = some now;
}

unfoldable pub translate_row :
    Runtime → TranslationResult → ℕ → Analysis → Transcription → Analysis × Outcome
unfolding is_stale_translation review_text reads translated
translate_row r o now a t =
    let target = or_else o.transcription_id o.expected_transcription_id in
    if holds (λ id. not (t.id == id)) target
    then (a, stale_transcription)
    else if is_stale_translation r o t
    then (a, stale_translation)
    else (
      record a {
        transcriptions = update_many (λ x. x.id == t.id) (translated r o now) a.transcriptions;
        moderations =
            if same_string (review_text r t) (some (normalize_translation_text r o.translated_text))
            then a.moderations
            else update_many (reads t.id) (superseded "superseded_by_translation" now)
                a.moderations;
      },
      recorded t.id,
    )

unfoldable pub translate_latest :
    Runtime → TranslationResult → ℕ → Analysis → Option Transcription → Analysis × Outcome
unfolding translate_row
translate_latest r o now a none = (a, no_transcription)
translate_latest r o now a (some t) = translate_row r o now a t

unfoldable pub record_translation_result :
    Runtime → TranslationResult → ℕ → Analysis → Analysis × Outcome
unfolding translate_latest
record_translation_result r o now a = translate_latest r o now a (latest_succeeded a)
