-- ===== src/Tests/Prompts.antt =====
-- The ticket bag, run on the sample.
use telephone_booth_operator.Common.{
  ◌+◌, ◌≤◌, ◌≡◌, refl, true, none, some, List, [], ◌∷◌, arith, All, if◌then◌else◌, ◌==◌,
}
use telephone_booth_operator.Store.{Question, active}
use telephone_booth_operator.Era.{open_era, lock_open_installation, find_installation}
use telephone_booth_operator.Era.CloseOut.{live_question_in}
use telephone_booth_operator.Questions.{
  total_tickets, draw_random, commit_draw, drawn, spent, active_questions, replay_of,
  has_invalid_weight, question_ticket_counter_max,
}
use telephone_booth_operator.Questions.Creating.{
  QuestionCreate, creation_conflict, create_in, create_question, create_question-once,
}
use telephone_booth_operator.Questions.Drawing.{NoAlternative}
use telephone_booth_operator.Questions.Share.{below, picks, pick-share}
use telephone_booth_operator.Questions.Tickets.{bag_for}
use telephone_booth_operator.Questions.Random.{tickets_left, all_tickets, draw_random-spends}
use telephone_booth_operator.Tests.Data.{sample, prompt, present_era}

pick-share_example :
    below
      (picks 21 ((prompt 21 "a" active 3 2 none, 3) ∷ (prompt 22 "b" active 1 2 none, 1) ∷ []))
      4
    ≡ 3
unfolding total_tickets
pick-share_example =
    pick-share 21 ((prompt 21 "a" active 3 2 none, 3) ∷ (prompt 22 "b" active 1 2 none, 1) ∷ [])

abbrev bag : List Question
bag = prompt 21 "a" active 3 2 none ∷ prompt 22 "b" active 1 2 none ∷ []

draw_random-spends_example :
    let taken = bag_for 0 (active_questions sample 2) in
    (q : Question) × (draw_random (λ n. 0) sample (some 9)
      ≡ (commit_draw sample 2 present_era (some 9) taken q, drawn (spent taken q)))
    × (live_question_in 2 q ≡ true)
    × (tickets_left (commit_draw sample 2 present_era (some 9) taken q) 2 taken.cycle + 1
        ≡ (if tickets_left sample 2 0 == 0 then all_tickets sample 2 else tickets_left sample 2 0))
    × (some q.id ≡ none → All (NoAlternative none taken.cycle) taken.questions)
    × (taken.cycle ≤ question_ticket_counter_max)
unfolding lock_open_installation find_installation replay_of active_questions has_invalid_weight
draw_random-spends_example =
    draw_random-spends (λ n. 0) sample (some 9) 2 present_era (λ n h. h) refl refl refl
      (λ i. ground arith) (omega arith, (omega arith, tt)) refl (λ e. ground (arith, e))
      (omega arith)

abbrev new_prompt : QuestionCreate
new_prompt = record { prompt = "new"; audio_file_id = 40; status = none; weight = none }

create_question-once_example :
    let after = (create_question sample sample new_prompt).0 in
    create_question after after new_prompt ≡ (after, creation_conflict)
unfolding create_question create_in open_era lock_open_installation
create_question-once_example = create_question-once sample sample new_prompt 50 refl refl
