-- ===== src/Leases/Needs.antt =====
-- packages/api/src/routes/message-processing.ts: a recording as the queue reads it, the snapshot of it
-- that a lease records, and what it needs. Parameters stand for digests and the text functions of the
-- runtime.
use text.Mathlib.Text.{◌==◌ as str_eq}
use telephone_booth_operator.Common.{
  ℕ, String, Bool, true, false, ◌&&◌, ◌||◌, not, Option, none, some, List, [], ◌∷◌, ◌++◌,
  if◌then◌else◌, find_first, any, holds, is_none,
}
use telephone_booth_operator.Store.{MessageStatus, Processing, Review, is_in}

pub data AttemptStatus : Type 0 where
  attempt_pending attempt_succeeded attempt_failed : AttemptStatus

abbrev pub is_succeeded : AttemptStatus → Bool
is_succeeded attempt_succeeded = true
is_succeeded _ = false

pub record WorkTranscription : Type 0 where
  pub id : ℕ
  pub status : AttemptStatus
  pub text : Option String
  pub language : Option String
  pub translation_status : Option AttemptStatus
  pub translated_text : Option String
  pub translated_language : Option String

pub record WorkModeration : Type 0 where
  pub id : ℕ
  pub transcription_id : Option ℕ
  pub status : AttemptStatus

pub record WorkMessage : Type 0 where
  pub id : ℕ
  pub created_at : ℕ
  pub status : MessageStatus
  pub installation_id : Option ℕ
  pub review : Review
  pub processing : Processing
  pub transcriptions : List WorkTranscription
  pub moderations : List WorkModeration

pub data Step : Type 0 where
  transcription translation moderation review : Step

unfoldable pub step_eq : Step → Step → Bool
step_eq transcription transcription = true
step_eq translation translation = true
step_eq moderation moderation = true
step_eq review review = true
step_eq _ _ = false

-- What the snapshot hash is computed from, in the order of the JSON text.
pub record Snapshot : Type 0 where
  pub review_classification : Option String
  pub transcriptions : List WorkTranscription
  pub moderations : List WorkModeration

pub record Runtime : Type 0 where
  pub is_blank : String → Bool
  pub trim_lower : String → String
  pub snapshot_digest : Snapshot → ℕ
  pub token_digest : ℕ → ℕ

abbrev pub snapshot_of : WorkMessage → Snapshot
snapshot_of m = record {
  review_classification = m.review.classification;
  transcriptions = m.transcriptions;
  moderations = m.moderations;
}

unfoldable pub processing_snapshot_hash : Runtime → WorkMessage → ℕ
processing_snapshot_hash r m = r.snapshot_digest (snapshot_of m)

latest_succeeded_transcription : WorkMessage → Option WorkTranscription
latest_succeeded_transcription m = find_first (λ t. is_succeeded t.status) m.transcriptions

-- `(transcription.text ?? "").trim().length === 0`
no_speech : Runtime → WorkTranscription → Bool
no_speech r t = elim t.text [ none ↦ true | some x ↦ r.is_blank x ]

-- `isEnglishLanguage` of packages/api/src/lib/ai/config.ts.
english_language_tags : List String
english_language_tags =
    "en" ∷ "en-us" ∷ "en-gb" ∷ "en-au" ∷ "en-ca" ∷ "en-ie" ∷ "en-in" ∷ "en-nz" ∷ "en-za" ∷ "english"
    ∷ []

is_english_language : Runtime → Option String → Bool
unfolding english_language_tags
is_english_language r none = true
is_english_language r (some l) = str_eq l "" || any (str_eq (r.trim_lower l)) english_language_tags

needs_translation : Runtime → WorkTranscription → Bool
unfolding is_english_language
needs_translation r t =
    not (holds is_succeeded t.translation_status) && not (is_english_language r t.language)

has_current_moderation : WorkMessage → ℕ → Bool
has_current_moderation m id =
    any (λ row. is_in id row.transcription_id && is_succeeded row.status) m.moderations

unfoldable pub processing_needs : Runtime → WorkMessage → List Step
unfolding latest_succeeded_transcription no_speech needs_translation has_current_moderation
processing_needs r m = elim (latest_succeeded_transcription m) [
  | none ↦ transcription ∷ []
  | some t ↦
      if no_speech r t
      then if is_none m.review.classification then review ∷ [] else []
      else (if needs_translation r t then translation ∷ [] else [])
        ++ (if has_current_moderation m t.id then [] else moderation ∷ [])
]
