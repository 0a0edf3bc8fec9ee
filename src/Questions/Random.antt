-- ===== src/Questions/Random.antt =====
-- packages/api/src/routes/questions.ts, `GET /random`: the whole draw, from the open era's questions to
-- the committed ticket.
use telephone_booth_operator.Common.{
  ℕ, ◌+◌, ◌≤◌, ◌<◌, ◌≡◌, ◌≢◌, refl, sym, ap, ◌∙◌, true, false, Option, none, some, List, [], filter,
  any, if◌then◌else◌, ◌==◌, All, count, sum_by, arith, Bool-cases, inl, inr,
}
use telephone_booth_operator.Store.{Question, Db, Installation}
use telephone_booth_operator.Era.{lock_open_installation, find_installation}
use telephone_booth_operator.Era.CloseOut.{live_question_in}
use telephone_booth_operator.Questions.{
  remaining_tickets, picked, is_question, Bag, next_bag, active_questions, commit_draw, draw_from,
  draw_active, draw_random, replay_of, drawn, has_invalid_weight, question_ticket_counter_max,
  spend_ticket, spent, selections_after, reset_questions,
}
use telephone_booth_operator.Questions.Drawing.{NoAlternative}
use telephone_booth_operator.Questions.Tickets.{
  NotAhead, bag_for, draw_from-picked, sum-order_by_id, spent-remaining, sum-update_many,
  next_bag-full, cleared-remaining,
}
use telephone_booth_operator.Questions.LiveRows.{
  All-order_by_id, LiveRow, Found-self, live_rows, filter-clear, count-reset, clear_rows,
}

-- The tickets that the live questions of an era have left in a cycle, and all that they have.
abbrev pub tickets_left : Db → ℕ → ℕ → ℕ
tickets_left db e cycle =
    sum_by (remaining_tickets cycle) (filter (live_question_in e) db.questions)

abbrev pub all_tickets : Db → ℕ → ℕ
all_tickets db e = sum_by (λ q. q.weight) (filter (live_question_in e) db.questions)

module _ (db : Db) (e cycle : ℕ) where
  abbrev bag : Bag
  bag = bag_for cycle (active_questions db e)

  abbrev table : List Question
  table = reset_questions bag.reset e db.questions

  bag_rows :
      ((i : ℕ) → count (is_question i) db.questions ≤ 1) → All (LiveRow table e) bag.questions
  unfolding next_bag active_questions reset_questions
  bag_rows unique =
      let rows =
        All-order_by_id (LiveRow db.questions e) (filter (live_question_in e) db.questions)
          (live_rows db.questions e db.questions (Found-self db.questions unique)) in
      elim (Bool-cases (sum_by (remaining_tickets cycle) (active_questions db e) == 0)) [
        | inr k ↦ rw k rows
        | inl k ↦ elim (Bool-cases (cycle == question_ticket_counter_max)) [
          | inr m ↦ rw (k, m) rows
          | inl m ↦ rw (k, m) (clear_rows db.questions e (active_questions db e) rows)
        ]
      ]

  -- The table holds the tickets that the bag says.
  table-tickets :
      sum_by (remaining_tickets bag.cycle) (filter (live_question_in e) table)
      ≡ sum_by (remaining_tickets bag.cycle) bag.questions
  unfolding next_bag active_questions reset_questions
  table-tickets =
      elim (Bool-cases (sum_by (remaining_tickets cycle) (active_questions db e) == 0)) [
        | inr k ↦ rw k (sym (sum-order_by_id _ (filter (live_question_in e) db.questions)))
        | inl k ↦ elim (Bool-cases (cycle == question_ticket_counter_max)) [
          | inr m ↦ rw (k, m) (sym (sum-order_by_id _ (filter (live_question_in e) db.questions)))
          | inl m ↦
              rw (k, m)
                (ap (sum_by (remaining_tickets 0)) (filter-clear e db.questions)
                  ∙ cleared-remaining 0 (filter (live_question_in e) db.questions)
                  ∙ sym (sum-order_by_id (λ q. q.weight) (filter (live_question_in e) db.questions))
                  ∙ sym (cleared-remaining 0 (active_questions db e)))
        ]
      ]

  -- The bag is what is left of the cycle, or everything.
  bag-tickets :
      All (NotAhead cycle) (active_questions db e)
      → sum_by (remaining_tickets bag.cycle) bag.questions
        ≡ (if tickets_left db e cycle == 0 then all_tickets db e else tickets_left db e cycle)
  unfolding next_bag active_questions
  bag-tickets ahead =
      let live = filter (live_question_in e) db.questions in
      elim (Bool-cases (tickets_left db e cycle == 0)) [
        | inr k ↦ ground (arith, k, sum-order_by_id (remaining_tickets cycle) live)
        | inl k ↦ ground (
          arith,
          k,
          sum-order_by_id (remaining_tickets cycle) live,
          sum-order_by_id (λ q. q.weight) live,
          next_bag-full cycle (active_questions db e) ahead,
        )
      ]

  bag-cycle : cycle ≤ question_ticket_counter_max → bag.cycle ≤ question_ticket_counter_max
  unfolding next_bag
  bag-cycle h = ground arith

-- A draw in an open era with at least one live question, where weights are valid, ids unique, no
-- question ahead of the cycle, the cycle within its column, the random source keeps its bound, and
-- no earlier draw with the same id is found: it answers a live question of the era and spends exactly
-- one ticket, of the cycle while one is left and else of a full new bag. It repeats the last question
-- only if no other has a ticket, and the new cycle fits its column.
pub draw_random-spends :
    (random : ℕ → ℕ) (db : Db) (draw_id : Option ℕ) (e : ℕ) (row : Installation)
    → ((n : ℕ) → 0 < n → random n < n)
    → lock_open_installation db none ≡ some e
    → find_installation db e ≡ some row
    → replay_of db e row draw_id ≡ none
    → ((i : ℕ) → count (is_question i) db.questions ≤ 1)
    → All (NotAhead row.question_selection_cycle) (active_questions db e)
    → any has_invalid_weight (active_questions db e) ≡ false
    → active_questions db e ≢ []
    → row.question_selection_cycle ≤ question_ticket_counter_max
    → let taken = bag_for row.question_selection_cycle (active_questions db e) in
      (q : Question) × (draw_random random db draw_id
        ≡ (commit_draw db e row draw_id taken q, drawn (spent taken q)))
      × (live_question_in e q ≡ true)
      × (tickets_left (commit_draw db e row draw_id taken q) e taken.cycle + 1 ≡ (
          if tickets_left db e row.question_selection_cycle == 0
          then all_tickets db e
          else tickets_left db e row.question_selection_cycle))
      × (some q.id ≡ row.last_selected_question_id
          → All (NoAlternative row.last_selected_question_id taken.cycle) taken.questions)
      × (taken.cycle ≤ question_ticket_counter_max)
unfolding draw_random draw_active commit_draw
draw_random-spends random db draw_id e row bound lock here fresh unique ahead valid some_question
      fits =
    let cycle = row.question_selection_cycle in
    let taken = bag db e cycle in
    let (q, drew, (found, is_live), some_left, fair) =
      draw_from-picked (LiveRow (table db e cycle) e) random cycle row.last_selected_question_id
        (active_questions db e) bound ahead valid some_question (bag_rows db e cycle unique) in
    let less =
      sum-update_many e q.id (spend_ticket taken.cycle (selections_after taken.cycle q))
        (remaining_tickets taken.cycle) q (table db e cycle) (λ x. refl) (λ x. refl) found
        (omega (arith, count-reset taken.reset e q.id db.questions, unique q.id)) is_live
        (spent-remaining taken q some_left) in
    (
      q,
      answer q drew,
      is_live,
      less ∙ table-tickets db e cycle ∙ bag-tickets db e cycle ahead,
      fair,
      bag-cycle db e cycle fits,
    )
  where
    answer :
        (q : Question)
        → draw_from random
            (active_questions db e)
            row.question_selection_cycle
            row.last_selected_question_id
          ≡ (bag_for row.question_selection_cycle (active_questions db e), picked q)
        → draw_random random db draw_id ≡ (
          commit_draw db e row draw_id
              (bag_for row.question_selection_cycle (active_questions db e))
              q,
          drawn (spent (bag_for row.question_selection_cycle (active_questions db e)) q),
        )
    answer q drew = ground (arith, lock, here, fresh, drew, valid, some_question)
