-- ===== src/Leases/Submitting.antt =====
-- packages/api/src/routes/message-processing.ts, `POST /:id/complete`: the transcript, the translation,
-- the verdict and the review that a device hands in, one after the other. `analysis` holds the rows of
-- the message, which its work message shows in part.
use telephone_booth_operator.Common.{
  ℕ, String, Bool, true, not, Option, none, some, List, if◌then◌else◌, holds, or_else, with_default,
  map,
}
use telephone_booth_operator.Store.{received, pending, status_eq, Review}
use telephone_booth_operator.Leases.Needs.{WorkTranscription, WorkModeration, WorkMessage}
use telephone_booth_operator.Results
use telephone_booth_operator.Results.{
  Transcription, Moderation, Analysis, Outcome, no_transcription, stale_transcription, unchanged,
  recorded, on_device, latest_succeeded, is_blank,
}
use telephone_booth_operator.Results.Transcribing.{TranscriptionResult, record_transcription_result}
use telephone_booth_operator.Results.Translating.{TranslationResult, record_translation_result}
use telephone_booth_operator.Results.Moderating.{ModerationResult, record_moderation_result}

abbrev pub completion_lease_seconds : ℕ
completion_lease_seconds = 900

-- The columns that the queue reads.
work_transcription : Transcription → WorkTranscription
work_transcription t = record {
  id = t.id;
  status = t.status;
  text = t.text;
  language = t.language;
  translation_status = t.translation_status;
  translated_text = t.translated_text;
  translated_language = t.translated_language;
}

work_moderation : Moderation → WorkModeration
work_moderation m = record { id = m.id; transcription_id = m.transcription_id; status = m.status }

-- `include: messageWithWork`
unfoldable pub hydrated : WorkMessage → Analysis → WorkMessage
unfolding work_transcription work_moderation
hydrated m a = record m {
  transcriptions = map work_transcription a.transcriptions;
  moderations = map work_moderation a.moderations;
}

pub record SubmittedTranscription : Type 0 where
  pub expected_latest_id : Option (Option ℕ)
  pub expected_latest_digest : Option (Option ℕ)
  pub text : String
  pub language : Option String
  pub model : Option String

pub record SubmittedTranslation : Type 0 where
  pub transcription_id : Option ℕ
  pub expected_translation_digest : Option (Option ℕ)
  pub translated_text : String
  pub translated_language : Option String
  pub model : Option String

pub record SubmittedModeration : Type 0 where
  pub input_digest : Option ℕ
  pub flagged : Bool
  pub recommendation : String
  pub max_score : ℕ
  pub categories : List (String × ℕ)
  pub reason_summary : Option String
  pub model : Option String

pub record SubmittedReview : Type 0 where
  pub classification : String
  pub recommendation : String

pub record CompletionRequest : Type 0 where
  pub token : ℕ
  pub user : ℕ
  pub now : ℕ
  pub transcription : Option SubmittedTranscription
  pub translation : Option SubmittedTranslation
  pub moderation : Option SubmittedModeration
  pub review : Option SubmittedReview

pub data Rejection : Type 0 where
  not_found installation_ended lease_lost stale_snapshot review_requires_no_speech : Rejection
  outcome : Outcome → Rejection

-- What the transaction works on: the message's row, its analysis, and the current `transcriptionId`.
pub record Work : Type 0 where
  pub row : WorkMessage
  pub analysis : Analysis
  pub target : Option ℕ

pub data Attempt : Type 0 where
  rejected : Rejection → Attempt
  so_far : Work → Attempt

infixl 5 ◌>>=◌
abbrev pub ◌>>=◌ : Attempt → (Work → Attempt) → Attempt
rejected why >>= f = rejected why
so_far w >>= f = f w

-- `updateMany({ where: { id, status: "received" }, data: { status: "pending" } })`
queued_for_review : WorkMessage → WorkMessage
queued_for_review m = record m {
  status = if status_eq m.status received then pending else m.status;
}

cleared_review : Review
cleared_review = record {
  classification = none;
  recommendation = none;
  classified_at = none;
  classified_by = none;
}

row_of : Outcome → Option ℕ
row_of (recorded id) = some id
row_of (unchanged id) = id
row_of _ = none

-- After a transcript: one with speech drops the review, one without goes to the operator.
after_transcript : Results.Runtime → String → WorkMessage → WorkMessage
unfolding queued_for_review cleared_review
after_transcript r text m =
    if is_blank r text then queued_for_review m else record m { review = cleared_review }

unfoldable pub after_transcription : Results.Runtime → String → Work → Analysis × Outcome → Attempt
unfolding after_transcript row_of
after_transcription r text w (a, stale_transcription) = rejected (outcome stale_transcription)
after_transcription r text w (a, result) =
    so_far (record { row = after_transcript r text w.row; analysis = a; target = row_of result })

pub transcription_result : CompletionRequest → SubmittedTranscription → TranscriptionResult
transcription_result q t = record {
  transcription_id = none;
  expected_latest_id = t.expected_latest_id;
  expected_latest_digest = t.expected_latest_digest;
  text = t.text;
  language = t.language;
  model = t.model;
  provider = some on_device;
  requested_by = some q.user;
}

unfoldable pub submit_transcription :
    Results.Runtime → CompletionRequest → Option SubmittedTranscription → Work → Attempt
unfolding after_transcription transcription_result
submit_transcription r q none w = so_far w
submit_transcription r q (some t) w =
    after_transcription r t.text w
      (record_transcription_result r (transcription_result q t) q.now w.analysis)

unfoldable pub after_translation : Work → Analysis × Outcome → Attempt
after_translation w (a, recorded id) = so_far (record w { analysis = a; target = some id })
after_translation w (a, why) = rejected (outcome why)

pub translation_result : Work → SubmittedTranslation → TranslationResult
translation_result w t = record {
  transcription_id = or_else t.transcription_id w.target;
  expected_transcription_id = none;
  expected_translation_digest = t.expected_translation_digest;
  translated_text = t.translated_text;
  translated_language = t.translated_language;
  model = t.model;
  provider = some on_device;
}

unfoldable pub submit_translation :
    Results.Runtime → CompletionRequest → Option SubmittedTranslation → Work → Attempt
unfolding after_translation translation_result
submit_translation r q none w = so_far w
submit_translation r q (some t) w =
    after_translation w (record_translation_result r (translation_result w t) q.now w.analysis)

unfoldable pub after_moderation : Work → Analysis × Outcome → Attempt
unfolding queued_for_review
after_moderation w (a, recorded id) =
    so_far (record w { row = queued_for_review w.row; analysis = a })
after_moderation w (a, unchanged id) =
    so_far (record w { row = queued_for_review w.row; analysis = a })
after_moderation w (a, why) = rejected (outcome why)

pub latest_id : Analysis → Option ℕ
latest_id a = elim (latest_succeeded a) [ none ↦ none | some t ↦ some t.id ]

pub moderation_result : CompletionRequest → SubmittedModeration → ℕ → ModerationResult
moderation_result q m id = record {
  transcription_id = some id;
  flagged = m.flagged;
  recommendation = some m.recommendation;
  max_score = some m.max_score;
  categories = m.categories;
  reason_summary = m.reason_summary;
  model = m.model;
  input_digest = m.input_digest;
  provider = some on_device;
  requested_by = some q.user;
  create_when_missing = true;
}

unfoldable pub moderate :
    Results.Runtime → CompletionRequest → SubmittedModeration → Work → Option ℕ → Attempt
unfolding after_moderation moderation_result
moderate r q m w none = rejected (outcome no_transcription)
moderate r q m w (some id) =
    after_moderation w (record_moderation_result r (moderation_result q m id) q.now w.analysis)

unfoldable pub submit_moderation :
    Results.Runtime → CompletionRequest → Option SubmittedModeration → Work → Attempt
unfolding moderate latest_id
submit_moderation r q none w = so_far w
submit_moderation r q (some m) w = moderate r q m w (or_else w.target (latest_id w.analysis))

-- The latest transcript is there, and blank.
pub has_no_speech : Results.Runtime → Analysis → Bool
has_no_speech r a = holds (λ t. is_blank r (with_default t.text "")) (latest_succeeded a)

unfoldable pub submit_review :
    Results.Runtime → CompletionRequest → Option SubmittedReview → Work → Attempt
unfolding has_no_speech
submit_review r q none w = so_far w
submit_review r q (some v) w =
    if not (has_no_speech r w.analysis)
    then rejected review_requires_no_speech
    else so_far (record w {
      row = record (w.row) {
        review = record {
          classification = some v.classification;
          recommendation = some v.recommendation;
          classified_at = some q.now;
          classified_by = some q.user;
        };
      };
    })

unfoldable pub submit : Results.Runtime → CompletionRequest → Work → Attempt
unfolding submit_transcription submit_translation submit_moderation submit_review
submit r q w = do
  t ← submit_transcription r q q.transcription w
  u ← submit_translation r q q.translation t
  m ← submit_moderation r q q.moderation u
  submit_review r q q.review m
