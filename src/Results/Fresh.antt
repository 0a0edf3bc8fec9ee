-- ===== src/Results/Fresh.antt =====
-- packages/api/src/lib/ai/pipeline.ts: a verdict that counts is about the current transcript.
use telephone_booth_operator.Common.{
  either, ℕ, ◌≡◌, refl, sym, subst, String, Bool, true, ◌&&◌, ◌||◌, not, Option, none, some, List,
  [], ◌∷◌, ◌==◌, ltb, count, find_first, update_many, is_none, is_some, holds, or_else, All,
  All-imp, All-update_many, Bool-cases, Option-cases, inl, inr, arith,
}
use telephone_booth_operator.Leases.Needs.{AttemptStatus, is_succeeded}
use telephone_booth_operator.Results.{
  Runtime, Transcription, Moderation, Analysis, Outcome, is_live, is_pending, superseded,
  latest_succeeded, latest_of, same_string, normalize_translation_text,
}
use telephone_booth_operator.Results.Transcribing.{
  TranscriptionResult, supersede_all, finalized, finalize_pending, with_transcription,
  is_redelivery, add_after, is_outranked, add_transcription, awaits, is_unexpected, is_misdirected,
  record_with, record_transcription_result,
}
use telephone_booth_operator.Results.Translating.{
  TranslationResult, review_text, is_stale_translation, reads, translated, translate_row,
  translate_latest, record_translation_result,
}
use telephone_booth_operator.Results.Moderating.{
  ModerationResult, target_problem, is_awaited, decided, is_repeat, new_moderation,
  create_moderation, finalize_or_create, record_checked, record_moderation_result,
}

-- A row is about the transcription `latest`, or about none.
abbrev pub IsAbout : Option Transcription → Option ℕ → Type 0
IsAbout latest none = Unit
IsAbout latest (some id) = holds (λ t. t.id == id) latest ≡ true

abbrev pub IsCurrent : Option Transcription → Moderation → Type 0
IsCurrent latest m = is_live m.status ≡ true → IsAbout latest m.transcription_id

-- Every moderation that is pending or succeeded is about the latest transcription that succeeded.
abbrev pub IsFresh : Analysis → Type 0
IsFresh a = All (IsCurrent (latest_succeeded a)) a.moderations

supersede_all-IsCurrent :
    (latest : Option Transcription) (reason : String) (now : ℕ) (ms : List Moderation)
    → All (IsCurrent latest) (supersede_all reason now ms)
supersede_all-IsCurrent latest reason now [] = tt
supersede_all-IsCurrent latest reason now (m ∷ ms) = elim (Bool-cases (is_live m.status)) [
  | inl e ↦ rw e (λ h. ground (arith, h), supersede_all-IsCurrent latest reason now ms)
  | inr e ↦ rw e (λ h. ground (arith, h, e), supersede_all-IsCurrent latest reason now ms)
]

abbrev pub IsFreshResult : Analysis × Outcome → Type 0
IsFreshResult (a, outcome) = IsFresh a

with_transcription-IsFresh :
    (o : TranscriptionResult) (now : ℕ) (a : Analysis) → IsFreshResult (with_transcription o now a)
unfolding with_transcription
with_transcription-IsFresh o now a =
    supersede_all-IsCurrent (latest_succeeded (with_transcription o now a).0)
      "superseded_by_transcription" now a.moderations

pending-is_live : (s : AttemptStatus) (c : Bool) → (c && is_pending s) ≡ true → is_live s ≡ true
pending-is_live s c h = ground (arith, h)

module _ (r : Runtime) (now : ℕ) (a : Analysis) (fresh : IsFresh a) where
  finalize_pending-IsFresh :
      (o : TranscriptionResult) (t : Transcription) → IsFreshResult (finalize_pending o now a t)
  unfolding finalize_pending
  finalize_pending-IsFresh o t =
      either IsFreshResult
        (not (ltb 0 (count (λ x. x.id == t.id && is_pending x.status) a.transcriptions))) _ _ fresh
        (supersede_all-IsCurrent
          (find_first (λ x. is_succeeded x.status)
            (update_many (λ x. x.id == t.id && is_pending x.status) (finalized o now)
              a.transcriptions))
          "superseded_by_transcription" now a.moderations)

  add_after-IsFresh :
      (o : TranscriptionResult) (latest : Option Transcription)
      → IsFreshResult (add_after r o now a latest)
  unfolding add_after
  add_after-IsFresh o none = with_transcription-IsFresh o now a
  add_after-IsFresh o (some t) =
      either IsFreshResult (is_redelivery r o t) _ _ fresh (with_transcription-IsFresh o now a)

  record_with-IsFresh :
      (o : TranscriptionResult) (pending : Option Transcription)
      → IsFreshResult (record_with r o now a pending)
  unfolding record_with add_transcription
  record_with-IsFresh o (some t) = finalize_pending-IsFresh o t
  record_with-IsFresh o none =
      either IsFreshResult (is_outranked o (latest_of a.transcriptions)) _ _ fresh
        (add_after-IsFresh o (latest_of a.transcriptions))

  pub record_transcription_result-IsFresh :
      (o : TranscriptionResult) → IsFreshResult (record_transcription_result r o now a)
  unfolding record_transcription_result
  record_transcription_result-IsFresh o =
      let pending = find_first (awaits o) a.transcriptions in
      either IsFreshResult (is_unexpected r o a || is_misdirected o pending) _ _ fresh
        (record_with-IsFresh o pending)

  -- A verdict that passed the check is about the latest transcription, or none.
  target_problem-none :
      (o : ModerationResult) (id : Option ℕ)
      → target_problem r o a id ≡ none
      → IsAbout (latest_succeeded a) id
  unfolding target_problem
  target_problem-none o none h = tt
  target_problem-none o (some id) h =
      elim (Option-cases (find_first (λ t. t.id == id) a.transcriptions)) [
        | inl e ↦ ground (arith, rw (target_problem, e) at h)
        | inr (t, e) ↦ elim (Bool-cases (holds (λ x. x.id == id) (latest_succeeded a))) [
          | inl k ↦ k
          | inr k ↦ ground (arith, rw (target_problem, e, k) at h)
        ]
      ]

  create_moderation-IsFresh :
      (o : ModerationResult) (pending : Option ℕ)
      → IsAbout (latest_succeeded a) o.transcription_id
      → IsFreshResult (create_moderation o now a pending)
  unfolding create_moderation new_moderation
  create_moderation-IsFresh o pending about =
      either IsFreshResult (not o.create_when_missing) _ _ fresh (
        either IsFreshResult (holds (is_repeat o) (latest_of a.moderations)) _ _ fresh
          (λ h. about, fresh))

  finalize_or_create-IsFresh :
      (o : ModerationResult) (pending : Option Moderation)
      → IsAbout (latest_succeeded a) o.transcription_id
      → IsFreshResult (finalize_or_create o now a pending)
  unfolding finalize_or_create decided
  finalize_or_create-IsFresh o none about = create_moderation-IsFresh o none about
  finalize_or_create-IsFresh o (some pending) about =
      let is_it : Moderation → Bool = λ m. m.id == pending.id && is_pending m.status in
      either IsFreshResult (is_none o.transcription_id && is_some pending.transcription_id) _ _
        fresh
        (either IsFreshResult (ltb 0 (count is_it a.moderations)) _ _
          (All-update_many (IsCurrent (latest_succeeded a)) is_it (decided o now) a.moderations
            (λ m c i h. c (pending-is_live m.status (m.id == pending.id) i)) fresh)
          (create_moderation-IsFresh o (some pending.id) about))

  pub record_moderation_result-IsFresh :
      (o : ModerationResult) → IsFreshResult (record_moderation_result r o now a)
  unfolding record_moderation_result record_checked
  record_moderation_result-IsFresh o =
      elim (Option-cases (target_problem r o a o.transcription_id)) [
        | inl e ↦
            subst (λ p. IsFreshResult (record_checked o now a p)) (sym e)
              (finalize_or_create-IsFresh o (find_first (is_awaited o) a.moderations)
                (target_problem-none o o.transcription_id e))
        | inr (p, e) ↦ subst (λ x. IsFreshResult (record_checked o now a x)) (sym e) fresh
      ]

-- A translation changes neither which transcription is the latest nor the moderations that count.
latest-translated :
    (id i : ℕ) (f : Transcription → Transcription) (ts : List Transcription)
    → ((t : Transcription) → ((f t).id ≡ t.id) × ((f t).status ≡ t.status))
    → holds (λ t. t.id == i) (find_first (λ t. is_succeeded t.status) ts) ≡ true
    → holds
        (λ t. t.id == i)
        (find_first (λ t. is_succeeded t.status) (update_many (λ t. t.id == id) f ts))
      ≡ true
latest-translated id i f [] h k = k
latest-translated id i f (t ∷ ts) h k = ground (arith, h t, k, latest-translated id i f ts h)

IsAbout-translated :
    (id : ℕ) (f : Transcription → Transcription) (ts : List Transcription) (about : Option ℕ)
    → ((t : Transcription) → ((f t).id ≡ t.id) × ((f t).status ≡ t.status))
    → IsAbout (find_first (λ t. is_succeeded t.status) ts) about
    → IsAbout (find_first (λ t. is_succeeded t.status) (update_many (λ t. t.id == id) f ts)) about
IsAbout-translated id f ts none h k = tt
IsAbout-translated id f ts (some i) h k = latest-translated id i f ts h k

-- What the superseding of some rows leaves current.
superseded-IsCurrent :
    (latest : Option Transcription) (p : Moderation → Bool) (reason : String) (now : ℕ)
    (ms : List Moderation)
    → All (IsCurrent latest) ms
    → All (IsCurrent latest) (update_many p (superseded reason now) ms)
superseded-IsCurrent latest p reason now ms h =
    All-update_many (IsCurrent latest) p (superseded reason now) ms (λ m c i k. ground (arith, k)) h

module _ (r : Runtime) (now : ℕ) (a : Analysis) (fresh : IsFresh a) where
  translate_row-IsFresh :
      (o : TranslationResult) (t : Transcription) → IsFreshResult (translate_row r o now a t)
  unfolding translate_row translated
  translate_row-IsFresh o t =
      let after : Option Transcription =
        find_first (λ x. is_succeeded x.status)
          (update_many (λ x. x.id == t.id) (translated r o now) a.transcriptions) in
      let kept : All (IsCurrent after) a.moderations =
        All-imp a.moderations
          (λ m c l.
            IsAbout-translated t.id (translated r o now) a.transcriptions m.transcription_id
              (λ x. (refl, refl)) (c l))
          fresh in
      either IsFreshResult
        (holds (λ id. not (t.id == id)) (or_else o.transcription_id o.expected_transcription_id)) _
        _ fresh
        (either IsFreshResult (is_stale_translation r o t) _ _ fresh (
          either (All (IsCurrent after))
            (same_string (review_text r t) (some (normalize_translation_text r o.translated_text)))
            _ _ kept
            (superseded-IsCurrent after (reads t.id) "superseded_by_translation" now a.moderations
              kept)))

  translate_latest-IsFresh :
      (o : TranslationResult) (latest : Option Transcription)
      → IsFreshResult (translate_latest r o now a latest)
  unfolding translate_latest
  translate_latest-IsFresh o none = fresh
  translate_latest-IsFresh o (some t) = translate_row-IsFresh o t

-- A translation that is recorded, or not.
pub record_translation_result-IsFresh :
    (r : Runtime) (now : ℕ) (a : Analysis) (fresh : IsFresh a) (o : TranslationResult)
    → IsFreshResult (record_translation_result r o now a)
unfolding record_translation_result
record_translation_result-IsFresh r now a fresh o =
    translate_latest-IsFresh r now a fresh o (latest_succeeded a)
