-- ===== src/Questions/Editing/Settled.antt =====
-- packages/api/src/routes/questions.ts: what happens to a prompt leaves ended eras as they were.
use telephone_booth_operator.Common.{
  either, ℕ, ◌≡◌, refl, ap, String, Bool, true, false, ◌&&◌, Option, none, some, List, [], ◌∷◌,
  ◌==◌, All, count, update_many, arith, Bool-cases, Option-cases, inl, inr,
}
use telephone_booth_operator.Store.{
  Question, QuestionStatus, draft, active, archived, question_status_eq, Db, is_in,
}
use telephone_booth_operator.Store.Summary.{question_in, slice_of}
use telephone_booth_operator.Era.{era_is_writable}
use telephone_booth_operator.Era.CloseOut.{live_question_in}
use telephone_booth_operator.Installations.Settled.{IsConsistent, IsConsistent-written}
use telephone_booth_operator.Questions.{is_question}
use telephone_booth_operator.Questions.Editing.{
  find_question, with_open_era, write_questions, set_status, edit, not_archived, QuestionAnswer,
  question_not_found, question_gone, question_conflict, unique_prompts, update_question,
  activate_question, deactivate_question, archive_question_by_hand,
}

abbrev QuestionInEra : ℕ → Option ℕ → Question → Type 0
QuestionInEra id i q = is_question id q ≡ true → q.installation_id ≡ i

-- The rows of the id kept the era that was read before the transaction.
abbrev pub QuestionKeepsEra : Db → Db → ℕ → Type 0
QuestionKeepsEra before db id =
    (q : Question)
    → find_question before id ≡ some q
    → All (QuestionInEra id q.installation_id) db.questions

module _ (id : ℕ) (i : Option ℕ) (p : Question → Bool) (f : Question → Question)
    (only : (q : Question) → p q ≡ true → is_question id q ≡ true)
    (keeps : (q : Question) → (f q).installation_id ≡ q.installation_id) where
  counts-update_many :
      (e : ℕ) (qs : List Question)
      → is_in e i ≡ false
      → All (QuestionInEra id i) qs
      → (count (question_in e) (update_many p f qs) ≡ count (question_in e) qs)
        × (count (live_question_in e) (update_many p f qs) ≡ count (live_question_in e) qs)
  counts-update_many e [] out h = (refl, refl)
  counts-update_many e (q ∷ qs) out h = elim (Bool-cases (p q)) [
    | inr k ↦ ground (arith, k, counts-update_many e qs out h.1)
    | inl k ↦
        let away : is_in e q.installation_id ≡ false = rw (h.0 (only q k)) out in
        let away' : is_in e (f q).installation_id ≡ false = rw (keeps q) away in
        ground (arith, k, away, away', counts-update_many e qs out h.1)
  ]

  with_open_era-IsConsistent :
      (db : Db) (gone : QuestionAnswer)
      → All (QuestionInEra id i) db.questions
      → IsConsistent db
      → IsConsistent (with_open_era db i p f gone).0
  unfolding with_open_era write_questions
  with_open_era-IsConsistent db gone h c = elim (Bool-cases (era_is_writable db i)) [
    | inr w ↦ rw (with_open_era, w) c
    | inl w ↦ elim (Bool-cases (count p db.questions == 0)) [
      | inl z ↦ rw (with_open_era, w, z) c
      | inr z ↦
          rw (with_open_era, w, z)
            (IsConsistent-written db (write_questions p f db) i c refl (omega arith) w (λ e out.
              let (same, live) = counts-update_many e db.questions out h in
              record {
                slice =
                    ap
                      (λ n. record {
                        sessions = (slice_of db e).sessions;
                        landed = (slice_of db e).landed;
                        questions = n;
                        events = (slice_of db e).events;
                      })
                      same;
                sessions = refl;
                awaiting = refl;
                questions = live;
              }))
    ]
  ]

-- Editing, activating, deactivating and archiving a prompt by hand keep the era bookkeeping: a prompt
-- of an ended era is never live again. Its rows are taken to have kept their era since they were read.
pub questions-IsConsistent :
    (before db : Db) (id : ℕ) (prompt : Option String) (weight : Option ℕ) (now : ℕ)
    → QuestionKeepsEra before db id
    → IsConsistent db
    → IsConsistent (update_question before db id prompt weight).0
      × IsConsistent (activate_question before db id).0
      × IsConsistent (deactivate_question before db id).0
      × IsConsistent (archive_question_by_hand before db id now).0
unfolding update_question activate_question deactivate_question archive_question_by_hand set_status
    edit
questions-IsConsistent before db id prompt weight now same c =
    elim (Option-cases (find_question before id)) [
      | inl k ↦ (
        rw (update_question, k) c,
        rw (activate_question, k) c,
        rw (deactivate_question, k) c,
        rw (archive_question_by_hand, k) c,
      )
      | inr (q, k) ↦
          let status = λ (s : QuestionStatus) (t : Option ℕ).
            with_open_era-IsConsistent id q.installation_id (is_question id) (set_status s t)
              (λ x h. h) (λ x. refl) db question_gone (same q k) c in
          let edited =
            with_open_era-IsConsistent id q.installation_id
              (λ x. is_question id x && not_archived x.status) (edit prompt weight)
              (λ x h. ground arith) (λ x. refl) db question_not_found (same q k) c in
          elim (Bool-cases (question_status_eq q.status archived)) [
            | inl a ↦ (
              rw (update_question, k, a) c,
              rw (activate_question, k) (status active none),
              rw (deactivate_question, k) (status draft none),
              rw (archive_question_by_hand, k, a) c,
            )
            | inr a ↦ (
              rw (update_question, k, a)
                  (either (λ (x : Db × QuestionAnswer). IsConsistent x.0)
                    (unique_prompts (after q).0.questions) (after q) (db, question_conflict) edited
                    c),
              rw (activate_question, k) (status active none),
              rw (deactivate_question, k) (status draft none),
              rw (archive_question_by_hand, k, a) (status archived (some now)),
            )
          ]
    ]
  where
    after : Question → Db × QuestionAnswer
    after q =
        with_open_era db q.installation_id (λ x. is_question id x && not_archived x.status)
          (edit prompt weight) question_not_found
