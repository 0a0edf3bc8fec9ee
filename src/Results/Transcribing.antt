-- ===== src/Results/Transcribing.antt =====
-- packages/api/src/lib/ai/pipeline.ts, `recordTranscriptionResultInTransaction`.
use text.Mathlib.Text.{◌==◌ as str_eq}
use Prim.Native.String.{◌++◌ as string_append}
use telephone_booth_operator.Common.{
  ℕ, ◌+◌, ◌-◌, String, Bool, true, ◌&&◌, ◌||◌, not, Option, none, some, List, ◌∷◌, if◌then◌else◌,
  ◌==◌, ◌==?◌, ltb, count, find_first, update_many, is_none, is_some, holds, or_else, with_default,
}
use telephone_booth_operator.Leases.Needs.{
  AttemptStatus, attempt_failed, attempt_pending, attempt_succeeded, is_succeeded,
}
use telephone_booth_operator.Results.{
  Runtime, Transcription, Moderation, Analysis, Outcome, stale_transcription, unchanged, recorded,
  on_device, is_pending, is_live, same_string, superseded, latest_of,
}

-- An `expected` field that is present is a `some`; the digest of a status and a text is `digest` of
-- them together, a hexadecimal digest being the number it writes in either case of letters.
pub record TranscriptionResult : Type 0 where
  pub transcription_id : Option ℕ
  pub expected_latest_id : Option (Option ℕ)
  pub expected_latest_digest : Option (Option ℕ)
  pub text : String
  pub language : Option String
  pub model : Option String
  pub provider : Option String
  pub requested_by : Option ℕ

status_name : AttemptStatus → String
status_name attempt_pending = "pending"
status_name attempt_succeeded = "succeeded"
status_name attempt_failed = "failed"

-- The digest of a row's status and trimmed text.
unfoldable pub digest_of : Runtime → Transcription → ℕ
unfolding status_name
digest_of r t =
    let text : String = elim t.text [ none ↦ "" | some s ↦ r.trim s ] in
    r.digest (string_append (status_name t.status) (string_append "\n" text))

unfoldable pub is_unexpected : Runtime → TranscriptionResult → Analysis → Bool
unfolding digest_of
is_unexpected r o a =
    let latest = latest_of a.transcriptions in
    let latest_id : Option ℕ = elim latest [ none ↦ none | some t ↦ some t.id ] in
    let digest : Option ℕ = elim latest [ none ↦ none | some t ↦ some (digest_of r t) ] in
    holds (λ e. not (latest_id ==? e)) o.expected_latest_id
    || holds (λ e. not (digest ==? e)) o.expected_latest_digest

unfoldable pub is_on_device : TranscriptionResult → Bool
is_on_device o = holds (str_eq on_device) o.provider

-- The pending row that the result is for.
unfoldable pub awaits : TranscriptionResult → Transcription → Bool
awaits o t = is_pending t.status && elim o.transcription_id [ none ↦ true | some id ↦ t.id == id ]

unfoldable pub finalized : TranscriptionResult → ℕ → Transcription → Transcription
finalized o now t = record t {
  provider = with_default o.provider "push";
  model = o.model;
  status = attempt_succeeded;
  text = some o.text;
  language = o.language;
  latency_ms = some (now - t.created_at);
  completed_at = some now;
  requested_by = or_else o.requested_by t.requested_by;
}

abbrev pub supersede_all : String → ℕ → List Moderation → List Moderation
supersede_all reason now ms = update_many (λ m. is_live m.status) (superseded reason now) ms

unfoldable pub finalize_pending :
    TranscriptionResult → ℕ → Analysis → Transcription → Analysis × Outcome
unfolding finalized
finalize_pending o now a pending =
    let is_it : Transcription → Bool = λ t. t.id == pending.id && is_pending t.status in
    if not (ltb 0 (count is_it a.transcriptions)) then (a, unchanged (some pending.id)) else (
      record a {
        transcriptions = update_many is_it (finalized o now) a.transcriptions;
        moderations = supersede_all "superseded_by_transcription" now a.moderations;
      },
      recorded pending.id,
    )

unfoldable pub new_transcription : TranscriptionResult → ℕ → Analysis → Transcription
new_transcription o now a = record {
  id = a.next_id;
  created_at = now;
  status = attempt_succeeded;
  provider = with_default o.provider "push";
  model = o.model;
  text = some o.text;
  language = o.language;
  requested_by = o.requested_by;
  duration_ms = a.duration_ms;
  latency_ms = none;
  completed_at = some now;
  translation_status = none;
  translated_text = none;
  translated_language = none;
  translation_provider = none;
  translation_model = none;
  translation_error = none;
  translation_completed_at = none;
}

-- A push worker's result that was not asked for does not replace a device's.
unfoldable pub is_outranked : TranscriptionResult → Option Transcription → Bool
unfolding is_on_device
is_outranked o latest =
    is_none o.transcription_id
    && not (is_on_device o)
    && holds (λ t. is_succeeded t.status && str_eq on_device t.provider) latest

unfoldable pub is_redelivery : Runtime → TranscriptionResult → Transcription → Bool
is_redelivery r o t =
    is_succeeded t.status
    && str_eq (r.trim (with_default t.text "")) (r.trim o.text)
    && same_string t.language o.language
    && same_string t.model o.model
    && str_eq t.provider (with_default o.provider "push")
    && t.requested_by ==? o.requested_by

unfoldable pub with_transcription : TranscriptionResult → ℕ → Analysis → Analysis × Outcome
unfolding new_transcription
with_transcription o now a = (
  record a {
    transcriptions = new_transcription o now a ∷ a.transcriptions;
    moderations = supersede_all "superseded_by_transcription" now a.moderations;
    next_id = a.next_id + 1;
  },
  recorded a.next_id,
)

unfoldable pub add_after :
    Runtime → TranscriptionResult → ℕ → Analysis → Option Transcription → Analysis × Outcome
unfolding is_redelivery with_transcription
add_after r o now a none = with_transcription o now a
add_after r o now a (some t) =
    if is_redelivery r o t then (a, unchanged (some t.id)) else with_transcription o now a

unfoldable pub add_transcription : Runtime → TranscriptionResult → ℕ → Analysis → Analysis × Outcome
unfolding is_outranked add_after
add_transcription r o now a =
    let latest = latest_of a.transcriptions in
    if is_outranked o latest then (a, stale_transcription) else add_after r o now a latest

-- A result names a row that is not pending, or a push worker's names none while one is.
unfoldable pub is_misdirected : TranscriptionResult → Option Transcription → Bool
unfolding is_on_device
is_misdirected o pending =
    is_some o.transcription_id && is_none pending
    || is_none o.transcription_id && is_some pending && not (is_on_device o)

unfoldable pub record_with :
    Runtime → TranscriptionResult → ℕ → Analysis → Option Transcription → Analysis × Outcome
unfolding finalize_pending add_transcription
record_with r o now a (some t) = finalize_pending o now a t
record_with r o now a none = add_transcription r o now a

unfoldable pub record_transcription_result :
    Runtime → TranscriptionResult → ℕ → Analysis → Analysis × Outcome
unfolding is_unexpected awaits is_misdirected record_with
record_transcription_result r o now a =
    let pending = find_first (awaits o) a.transcriptions in
    if is_unexpected r o a || is_misdirected o pending
    then (a, stale_transcription)
    else record_with r o now a pending
