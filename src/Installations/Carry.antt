-- ===== src/Installations/Carry.antt =====
-- packages/api/src/routes/installations.ts: which questions a new era starts with.
use text.Mathlib.Text.{◌==◌ as str_eq}
use telephone_booth_operator.Common.{
  ℕ, ◌+◌, ◌≡◌, refl, String, Bool, false, ◌&&◌, ◌||◌, some, List, [], ◌∷◌, map, if◌then◌else◌, ◌==◌,
  All, count, arith, update_many,
}
use telephone_booth_operator.Store.{
  QuestionStatus, draft, active, archived, question_status_eq, Question, Installation, Db, is_in,
}
use telephone_booth_operator.Era.CloseOut.{live_question_in, close_out_installation}
use telephone_booth_operator.Installations.{
  carries, retired_then, copy_of, already_there, copy_questions,
}

-- Two questions that one era may not both hold: the same prompt or the same recording.
abbrev pub clashes : Question → Question → Bool
clashes q d = str_eq d.prompt q.prompt || d.audio_id == q.audio_id

abbrev pub NoClash : List Question → Type 0
NoClash [] = Unit
NoClash (q ∷ qs) = All (λ d. clashes d q ≡ false) qs × NoClash qs

-- What a copy takes over: prompt, recording, weight, and whether it is a draft or live.
abbrev pub content : Question → String × ℕ × ℕ × QuestionStatus
content q =
    (q.prompt, q.audio_id, q.weight, if question_status_eq q.status draft then draft else active)

-- The copies clash as the originals do.
already_there-copy :
    (fresh era : ℕ) (done : List Question) (q : Question) (qs : List Question)
    → All (λ d. already_there done d ≡ false) qs
    → All (λ d. clashes d q ≡ false) qs
    → All (λ d. already_there (copy_of fresh era q ∷ done) d ≡ false) qs
unfolding already_there copy_of
already_there-copy fresh era done q [] h k = tt
already_there-copy fresh era done q (d ∷ qs) h k =
    (ground arith, already_there-copy fresh era done q qs h.1 k.1)

copy_questions-content :
    (fresh era : ℕ) (done qs : List Question)
    → All (λ q. already_there done q ≡ false) qs
    → NoClash qs
    → map content (copy_questions fresh era done qs) ≡ map content qs
unfolding copy_questions copy_of
copy_questions-content fresh era done [] h k = refl
copy_questions-content fresh era done (q ∷ qs) h k =
    let next =
      copy_questions-content (fresh + 1) era (copy_of fresh era q ∷ done) qs
        (already_there-copy fresh era done q qs h.1 k.0) k.1 in
    ground arith

-- Into an era with no questions, every source question is copied, in order and with its content, if
-- no two of them share a prompt or a recording (which the unique indexes of their era exclude).
pub copy_questions-all :
    (fresh era : ℕ) (qs : List Question)
    → NoClash qs
    → map content (copy_questions fresh era [] qs) ≡ map content qs
unfolding already_there
copy_questions-all fresh era qs k = copy_questions-content fresh era [] qs (unclaimed qs) k
  where
    unclaimed : (qs : List Question) → All (λ q. already_there [] q ≡ false) qs
    unclaimed [] = tt
    unclaimed (q ∷ qs) = (refl, unclaimed qs)

abbrev pub draft_in : ℕ → Question → Bool
draft_in e q = is_in e q.installation_id && question_status_eq q.status draft

abbrev pub retired_at_end : ℕ → ℕ → Question → Bool
retired_at_end e t q =
    is_in e q.installation_id
    && (question_status_eq q.status archived && retired_then (some t) q.retired_at)

carries-archived :
    (e t : ℕ) (p : Installation) (qs : List Question)
    → p.id ≡ e
    → p.ended_at ≡ some t
    → count (carries p) (
        update_many
          (live_question_in e)
          (λ q. record q { status = archived; retired_at = some t })
          qs)
      ≡ count (live_question_in e) qs + count (draft_in e) qs + count (retired_at_end e t) qs
unfolding carries
carries-archived e t p [] i o = refl
carries-archived e t p (q ∷ qs) i o = ground (arith, carries-archived e t p qs i o)

-- After an era ended at `t`, the questions that carry forward from it are those that were live just
-- before, its drafts, and any that were archived at that very instant: a question that an operator
-- retired at another time stays behind.
pub carries-close_out :
    (db : Db) (e t : ℕ) (p : Installation)
    → p.id ≡ e
    → p.ended_at ≡ some t
    → count (carries p) (close_out_installation db e t).0.questions
      ≡ count (live_question_in e) db.questions
        + count (draft_in e) db.questions
        + count (retired_at_end e t) db.questions
unfolding close_out_installation
carries-close_out db e t p i o = carries-archived e t p db.questions i o
