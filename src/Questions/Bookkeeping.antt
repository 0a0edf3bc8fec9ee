-- ===== src/Questions/Bookkeeping.antt =====
-- packages/api/src/routes/questions.ts, `GET /random`: a draw writes to an installation's row and to
-- its questions, and leaves the bookkeeping of eras alone.
use telephone_booth_operator.Common.{
  ℕ, ◌<◌, ◌≡◌, refl, sym, ap, subst, ◌∙◌, Bool, Option, none, List, [], ◌∷◌, any, All,
  All-update_many, count, count-update_many, update_many, arith, Bool-cases, Option-cases, inl, inr,
  ◌⊎◌,
}
use telephone_booth_operator.Store.{Question, Installation, Draw, Db, is_open, has_id, is_in}
use telephone_booth_operator.Store.Summary.{question_in, slice_of}
use telephone_booth_operator.Era.{lock_open_installation, find_installation}
use telephone_booth_operator.Era.CloseOut.{live_question_in}
use telephone_booth_operator.Installations.Settled.{
  IsConsistent, SameEra, RowIsSettled, SettledIfEnded-same,
}
use telephone_booth_operator.Installations.Lifecycle.{HasDistinctIds-update_many}
use telephone_booth_operator.Questions.{
  Bag, Drawn, nothing_left, exceeded, picked, active_questions, has_invalid_weight, draw_from,
  draw_active, draw_random, replay_of, commit_draw, answer_of, answer_for, DrawAnswer, record_draw,
  spend_ticket, reset_questions, clear_tickets, is_question, selections_after, next_question_draws,
}

module _ (db db' : Db) (e cycle id : ℕ) (draws : List Draw)
    (same : (f : ℕ) → SameEra db db' f) where
  settled-record_draw :
      (rows : List Installation)
      → All (RowIsSettled db) rows
      → All (RowIsSettled db') (update_many (has_id e) (record_draw cycle id draws) rows)
  unfolding record_draw
  settled-record_draw [] h = tt
  settled-record_draw (r ∷ rows) h =
      let kept = SettledIfEnded-same db db' r.id r.summary r.ended_at (λ _. same r.id) h.0 in
      elim (Bool-cases (has_id e r)) [
        | inl k ↦ rw k (kept, settled-record_draw rows h.1)
        | inr k ↦ rw k (kept, settled-record_draw rows h.1)
      ]

module _ (db : Db) (e : ℕ) (row : Installation) (draw_id : Option ℕ) (bag : Bag)
    (q : Question) where
  count-commit :
      (p : Question → Bool)
      → ((c n : ℕ) (x : Question) → p (spend_ticket c n x) ≡ p x)
      → ((x : Question) → p (clear_tickets x) ≡ p x)
      → count p (commit_draw db e row draw_id bag q).questions ≡ count p db.questions
  unfolding commit_draw reset_questions
  count-commit p spend clear =
      count-update_many p (is_question q.id) (spend_ticket bag.cycle (selections_after bag.cycle q))
        (reset_questions bag.reset e db.questions)
        (λ x _. spend bag.cycle (selections_after bag.cycle q) x)
      ∙ elim (Bool-cases bag.reset) [
        | inl k ↦ rw k (
            count-update_many p (λ x. is_in e x.installation_id) clear_tickets db.questions
              (λ x _. clear x))
        | inr k ↦ rw k refl
      ]

  commit_draw-SameEra : (f : ℕ) → SameEra db (commit_draw db e row draw_id bag q) f
  unfolding commit_draw spend_ticket clear_tickets
  commit_draw-SameEra f = record {
    slice =
        ap
          (λ n. record {
            sessions = (slice_of db f).sessions;
            landed = (slice_of db f).landed;
            questions = n;
            events = (slice_of db f).events;
          })
          (count-commit (question_in f) (λ c n x. refl) (λ x. refl));
    sessions = refl;
    awaiting = refl;
    questions = count-commit (live_question_in f) (λ c n x. refl) (λ x. refl);
  }

  commit_draw-IsConsistent : IsConsistent db → IsConsistent (commit_draw db e row draw_id bag q)
  unfolding commit_draw record_draw
  commit_draw-IsConsistent c =
      let draws = next_question_draws row.recent_question_draws draw_id q.id in
      let f : Installation → Installation = record_draw bag.cycle q.id draws in
      record {
        distinct = HasDistinctIds-update_many (has_id e) f db.installations (λ r. refl) c.distinct;
        fresh =
            All-update_many (λ r. r.id < db.next_id) (has_id e) f db.installations (λ r h _. h)
              c.fresh;
        one_open = omega (
          arith,
          c.one_open,
          count-update_many is_open (has_id e) f db.installations (λ r _. refl),
        );
        settled =
            settled-record_draw db (commit_draw db e row draw_id bag q) e bag.cycle q.id draws
              commit_draw-SameEra db.installations c.settled;
      }

module _ (db : Db) (e : ℕ) (row : Installation) (draw_id : Option ℕ) (bag : Bag) where
  abbrev Kept : Db × DrawAnswer → Type 0
  Kept r = (r.0 ≡ db) ⊎ ((q : Question) × (r.0 ≡ commit_draw db e row draw_id bag q))

  answer_of-Kept : (selected : Drawn) → Kept (answer_of db e row draw_id bag selected)
  unfolding answer_of
  answer_of-Kept nothing_left = inl refl
  answer_of-Kept exceeded = inl refl
  answer_of-Kept (picked q) = inr (q, refl)

  answer_for-Kept :
      (selected : Drawn) (questions : List Question)
      → Kept (answer_for db e row draw_id bag selected questions)
  unfolding answer_for
  answer_for-Kept selected [] = inl refl
  answer_for-Kept selected (q ∷ qs) = elim (Bool-cases (any has_invalid_weight (q ∷ qs))) [
    | inl v ↦ rw v (inl refl)
    | inr v ↦ rw v (answer_of-Kept selected)
  ]

draw_active-Kept :
    (random : ℕ → ℕ) (db : Db) (e : ℕ) (row : Installation) (draw_id : Option ℕ)
    → let bag =
        (draw_from random
          (active_questions db e)
          row.question_selection_cycle
          row.last_selected_question_id).0 in
      Kept db e row draw_id bag (draw_active random db e row draw_id)
unfolding draw_active
draw_active-Kept random db e row draw_id =
    let drew =
      draw_from random (active_questions db e) row.question_selection_cycle
        row.last_selected_question_id in
    answer_for-Kept db e row draw_id drew.0 drew.1 (active_questions db e)

-- A draw keeps the era bookkeeping.
pub draw_random-IsConsistent :
    (random : ℕ → ℕ) (db : Db) (draw_id : Option ℕ)
    → IsConsistent db
    → IsConsistent (draw_random random db draw_id).0
unfolding draw_random
draw_random-IsConsistent random db draw_id c =
    elim (Option-cases (lock_open_installation db none)) [
      | inl k ↦ rw (draw_random, k) c
      | inr (e, k) ↦ elim (Option-cases (find_installation db e)) [
        | inl f ↦ rw (draw_random, k, f) c
        | inr (row, f) ↦ elim (Option-cases (replay_of db e row draw_id)) [
          | inr (q, p) ↦ rw (draw_random, k, f, p) c
          | inl p ↦
              rw (draw_random, k, f, p)
                (elim (draw_active-Kept random db e row draw_id) [
                  | inl s ↦ subst IsConsistent (sym s) c
                  | inr (q, s) ↦ subst IsConsistent (sym s) (
                      commit_draw-IsConsistent db e row draw_id
                        (draw_from random (active_questions db e) row.question_selection_cycle
                          row.last_selected_question_id).0
                        q c)
                ])
        ]
      ]
    ]
