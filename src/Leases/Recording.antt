-- ===== src/Leases/Recording.antt =====
-- packages/api/src/routes/message-processing.ts: what a completion does to the rows of the recording.
use telephone_booth_operator.Common.{
  either, ℕ, String, not, Option, none, some, List, ◌==◌, ◌==?◌, count, holds, or_else,
}
use telephone_booth_operator.Store.{Db}
use telephone_booth_operator.Era.{lock_installation}
use telephone_booth_operator.Leases.{holds_lease, find_work}
use telephone_booth_operator.Leases.Needs.{Runtime, WorkMessage, processing_snapshot_hash}
use telephone_booth_operator.Leases.Completing.{
  finish_completion, is_lessee, complete_found, complete, CompletionAnswer, extended_for_completion,
}
use telephone_booth_operator.Leases.Submitting.{
  moderation_result, CompletionRequest, SubmittedTranscription, SubmittedTranslation,
  SubmittedModeration, SubmittedReview, transcription_result, translation_result, latest_id,
  Attempt, rejected, so_far, Work, submit_transcription, submit_translation, moderate,
  submit_moderation, submit_review, submit, hydrated, has_no_speech, after_transcription,
  after_translation, after_moderation, ◌>>=◌,
}
use telephone_booth_operator.Results
use telephone_booth_operator.Results.{
  Analysis, Outcome, no_transcription, transcription_not_found, stale_transcription,
  stale_translation, stale_input, unchanged, recorded,
}
use telephone_booth_operator.Results.Transcribing.{record_transcription_result}
use telephone_booth_operator.Results.Translating.{record_translation_result}
use telephone_booth_operator.Results.Moderating.{record_moderation_result}
use telephone_booth_operator.Results.Fresh.{
  IsFresh, IsFreshResult, record_transcription_result-IsFresh, record_translation_result-IsFresh,
  record_moderation_result-IsFresh,
}

abbrev IsFreshAttempt : Attempt → Type 0
IsFreshAttempt (rejected why) = Unit
IsFreshAttempt (so_far w) = IsFresh w.analysis

>>=-IsFreshAttempt :
    (m : Attempt) (f : Work → Attempt)
    → IsFreshAttempt m
    → ((w : Work) → IsFresh w.analysis → IsFreshAttempt (f w))
    → IsFreshAttempt (m >>= f)
>>=-IsFreshAttempt (rejected why) f h k = tt
>>=-IsFreshAttempt (so_far w) f h k = k w h

module _ (r : Results.Runtime) (q : CompletionRequest) where
  after_transcription-IsFresh :
      (text : String) (w : Work) (x : Analysis × Outcome)
      → IsFreshResult x
      → IsFreshAttempt (after_transcription r text w x)
  unfolding after_transcription
  after_transcription-IsFresh text w (a, stale_transcription) h = tt
  after_transcription-IsFresh text w (a, _) h = h

  after_translation-IsFresh :
      (w : Work) (x : Analysis × Outcome) → IsFreshResult x → IsFreshAttempt (after_translation w x)
  unfolding after_translation
  after_translation-IsFresh w (a, recorded id) h = h
  after_translation-IsFresh w (a, _) h = tt

  after_moderation-IsFresh :
      (w : Work) (x : Analysis × Outcome) → IsFreshResult x → IsFreshAttempt (after_moderation w x)
  unfolding after_moderation
  after_moderation-IsFresh w (a, recorded id) h = h
  after_moderation-IsFresh w (a, unchanged id) h = h
  after_moderation-IsFresh w (a, _) h = tt

  submit_transcription-IsFresh :
      (o : Option SubmittedTranscription) (w : Work)
      → IsFresh w.analysis
      → IsFreshAttempt (submit_transcription r q o w)
  unfolding submit_transcription
  submit_transcription-IsFresh none w h = h
  submit_transcription-IsFresh (some t) w h =
      after_transcription-IsFresh t.text w
        (record_transcription_result r (transcription_result q t) q.now w.analysis)
        (record_transcription_result-IsFresh r q.now w.analysis h (transcription_result q t))

  submit_translation-IsFresh :
      (o : Option SubmittedTranslation) (w : Work)
      → IsFresh w.analysis
      → IsFreshAttempt (submit_translation r q o w)
  unfolding submit_translation
  submit_translation-IsFresh none w h = h
  submit_translation-IsFresh (some t) w h =
      after_translation-IsFresh w
        (record_translation_result r (translation_result w t) q.now w.analysis)
        (record_translation_result-IsFresh r q.now w.analysis h (translation_result w t))

  moderate-IsFresh :
      (m : SubmittedModeration) (w : Work) (target : Option ℕ)
      → IsFresh w.analysis
      → IsFreshAttempt (moderate r q m w target)
  unfolding moderate
  moderate-IsFresh m w none h = tt
  moderate-IsFresh m w (some id) h =
      after_moderation-IsFresh w
        (record_moderation_result r (moderation_result q m id) q.now w.analysis)
        (record_moderation_result-IsFresh r q.now w.analysis h (moderation_result q m id))

  submit_moderation-IsFresh :
      (o : Option SubmittedModeration) (w : Work)
      → IsFresh w.analysis
      → IsFreshAttempt (submit_moderation r q o w)
  unfolding submit_moderation
  submit_moderation-IsFresh none w h = h
  submit_moderation-IsFresh (some m) w h =
      moderate-IsFresh m w (or_else w.target (latest_id w.analysis)) h

  submit_review-IsFresh :
      (o : Option SubmittedReview) (w : Work)
      → IsFresh w.analysis
      → IsFreshAttempt (submit_review r q o w)
  unfolding submit_review
  submit_review-IsFresh none w h = h
  submit_review-IsFresh (some v) w h =
      either IsFreshAttempt (not (has_no_speech r w.analysis)) _ _ tt h

  submit-IsFresh : (w : Work) → IsFresh w.analysis → IsFreshAttempt (submit r q w)
  unfolding submit
  submit-IsFresh w h =
      >>=-IsFreshAttempt _ _ (submit_transcription-IsFresh q.transcription w h) λ t ht.
        >>=-IsFreshAttempt _ _ (submit_translation-IsFresh q.translation t ht) λ u hu.
          >>=-IsFreshAttempt _ _ (submit_moderation-IsFresh q.moderation u hu)
            (submit_review-IsFresh q.review)

  module _ (s : Runtime) (db : Db) (queue : List WorkMessage) (a : Analysis) (id : ℕ)
      (fresh : IsFresh a) where
    abbrev IsFreshEnd : List WorkMessage × Analysis × CompletionAnswer → Type 0
    IsFreshEnd (after, b, answer) = IsFresh b

    finish_completion-IsFresh :
        (attempt : Attempt)
        → IsFreshAttempt attempt
        → IsFreshEnd (finish_completion s queue a q id attempt)
    unfolding finish_completion
    finish_completion-IsFresh (rejected why) h = fresh
    finish_completion-IsFresh (so_far w) h =
        either IsFreshEnd (not (is_lessee s q (hydrated w.row w.analysis))) _ _ fresh h

    complete_found-IsFresh :
        (found : Option WorkMessage) → IsFreshEnd (complete_found s r db queue a id q found)
    unfolding complete_found
    complete_found-IsFresh none = fresh
    complete_found-IsFresh (some m) =
        let current = hydrated m a in
        let begun : Work = record {
          row = extended_for_completion q.now current;
          analysis = a;
          target = none;
        } in
        either IsFreshEnd (not (holds (lock_installation db) m.installation_id)) _ _ fresh (
          either IsFreshEnd (count (holds_lease s id q.token q.user q.now) queue == 0) _ _ fresh (
            either IsFreshEnd
              (not (current.processing.snapshot_hash ==? some (processing_snapshot_hash s current)))
              _ _ fresh
              (finish_completion-IsFresh (submit r q begun) (submit-IsFresh begun fresh))))

    -- What a device hands in on completion, all of it at once, keeps the moderations current: each
    -- that is pending or has succeeded is about the latest transcription that succeeded, or about
    -- none in particular, if that was so before.
    pub complete-IsFresh : IsFresh (complete s r db queue a id q).1
    unfolding complete
    complete-IsFresh = complete_found-IsFresh (find_work queue id)
