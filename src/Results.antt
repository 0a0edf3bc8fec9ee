-- ===== src/Results.antt =====
-- packages/api/src/lib/ai/pipeline.ts: recording what a worker or a device made of a recording. The
-- rows of one message, which the transaction locks, are lists with the newest first; the outcome for
-- a message that is gone is left out. A score is a
-- number that is compared for equality only, and the digest of a text is a number.
pub mod Transcribing
pub mod Translating
pub mod Moderating
pub mod Fresh
pub mod Arriving
use text.Mathlib.Text.{◌==◌ as str_eq}
use telephone_booth_operator.Common.{
  ℕ, String, Bool, true, false, ◌&&◌, ◌||◌, not, Option, none, some, List, [], ◌∷◌, if◌then◌else◌,
  ◌==◌, find_first, with_default,
}
use telephone_booth_operator.Common.Json.{Json, Fields, obj, str, end, field, get_field}
use telephone_booth_operator.Leases.Needs.{
  AttemptStatus, attempt_pending, attempt_succeeded, attempt_failed, is_succeeded,
}

-- `parse` is JSON.parse, none where it throws, and `code_fence` what the pattern of a code fence
-- captures.
pub record Runtime : Type 0 where
  pub trim : String → String
  pub digest : String → ℕ
  pub parse : String → Option Json
  pub code_fence : String → Option String

pub record Transcription : Type 0 where
  pub id : ℕ
  pub created_at : ℕ
  pub status : AttemptStatus
  pub provider : String
  pub model : Option String
  pub text : Option String
  pub language : Option String
  pub requested_by : Option ℕ
  pub duration_ms : Option ℕ
  pub latency_ms : Option ℕ
  pub completed_at : Option ℕ
  pub translation_status : Option AttemptStatus
  pub translated_text : Option String
  pub translated_language : Option String
  pub translation_provider : Option String
  pub translation_model : Option String
  pub translation_error : Option String
  pub translation_completed_at : Option ℕ

pub record Moderation : Type 0 where
  pub id : ℕ
  pub created_at : ℕ
  pub status : AttemptStatus
  pub transcription_id : Option ℕ
  pub provider : String
  pub model : Option String
  pub flagged : Bool
  pub recommendation : Option String
  pub max_score : Option ℕ
  pub categories : List (String × ℕ)
  pub reason_summary : Option String
  pub requested_by : Option ℕ
  pub error : Option String
  pub latency_ms : Option ℕ
  pub completed_at : Option ℕ

-- The rows of a message, the length of its recording, and the source of fresh ids.
pub record Analysis : Type 0 where
  pub transcriptions : List Transcription
  pub moderations : List Moderation
  pub duration_ms : Option ℕ
  pub next_id : ℕ

pub data Outcome : Type 0 where
  no_transcription transcription_not_found stale_transcription stale_translation stale_input :
      Outcome
  unchanged : Option ℕ → Outcome
  recorded : ℕ → Outcome

abbrev pub on_device : String
on_device = "on_device"

abbrev pub is_pending : AttemptStatus → Bool
is_pending attempt_pending = true
is_pending _ = false

-- `status: { in: ["pending", "succeeded"] }`
abbrev pub is_live : AttemptStatus → Bool
is_live attempt_failed = false
is_live _ = true

abbrev pub same_string : Option String → Option String → Bool
same_string none none = true
same_string (some a) (some b) = str_eq a b
same_string _ _ = false

abbrev pub is_blank : Runtime → String → Bool
is_blank r s = str_eq (r.trim s) ""

-- A live row fails, for the reason that its input is superseded.
abbrev pub superseded : String → ℕ → Moderation → Moderation
superseded reason now m = record m {
  status = attempt_failed;
  error = some reason;
  completed_at = some now;
}

abbrev pub latest_succeeded : Analysis → Option Transcription
latest_succeeded a = find_first (λ t. is_succeeded t.status) a.transcriptions

abbrev pub latest_of {ℓ} : {A : Type ℓ} → List A → Option A
latest_of [] = none
latest_of (x ∷ xs) = some x

-- packages/api/src/lib/translation-text.ts
first_text : Runtime → Fields → List String → Option String
unfolding get_field
first_text r fs [] = none
first_text r fs (key ∷ keys) = elim (get_field key fs) [
  | some (str s) ↦ if is_blank r s then first_text r fs keys else some (r.trim s)
  | _ ↦ first_text r fs keys
]

translation_keys : List String
translation_keys = "translatedText" ∷ "translated_text" ∷ "message" ∷ "text" ∷ []

unwrapped : Runtime → String → String
unwrapped r s = elim (r.code_fence s) [ none ↦ s | some inner ↦ r.trim inner ]

text_of_json : Runtime → String → String → Json → String
unfolding first_text translation_keys
text_of_json r trimmed candidate (obj (field k v end)) =
    with_default (first_text r (field k v end) translation_keys) candidate
text_of_json r trimmed candidate (obj fs) = candidate
text_of_json r trimmed candidate j = trimmed

unfoldable pub normalize_translation_text : Runtime → String → String
unfolding text_of_json unwrapped
normalize_translation_text r value =
    let trimmed = r.trim value in
    let candidate = unwrapped r trimmed in
    elim (r.parse candidate) [ none ↦ candidate | some j ↦ text_of_json r trimmed candidate j ]

-- The translation of a transcript, if it succeeded and is not blank.
unfoldable pub translation_of : Runtime → Transcription → Option String
unfolding normalize_translation_text
translation_of r t = elim t.translation_status [
  | some attempt_succeeded ↦ elim t.translated_text [
    | some s ↦ if is_blank r s then none else some (normalize_translation_text r s)
    | none ↦ none
  ]
  | _ ↦ none
]
