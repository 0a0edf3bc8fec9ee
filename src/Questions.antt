-- ===== src/Questions.antt =====
-- packages/api/src/routes/questions.ts: the prompts of an era, and the ticket bag that `GET /random`
-- draws them from. `QUESTION_` constants are those of packages/shared/src/index.ts.
pub mod LiveRows
pub mod Editing
pub mod Creating
pub mod Drawing
pub mod Share
pub mod Tickets
pub mod Random
pub mod Bookkeeping
use telephone_booth_operator.Common.{
  ℕ, zero, suc, ◌+◌, ◌-◌, ◌<◌, String, Bool, true, false, ◌&&◌, ◌||◌, not, Option, none, some, List,
  [], ◌∷◌, ◌++◌, map, filter, any, if◌then◌else◌, ◌==◌, ◌==?◌, ltb, leb, count, find_first,
  update_many, or_else, sum_by, take_last, holds, with_default,
}
use telephone_booth_operator.Store.{
  QuestionStatus, draft, active, archived, question_status_eq, Question, Draw, Installation, Db,
  has_id, is_in,
}
use telephone_booth_operator.Era.{
  find_installation, era_is_writable, lock_open_installation, find_active_installation,
}
use telephone_booth_operator.Era.CloseOut.{live_question_in}

abbrev pub question_weight_min : ℕ
question_weight_min = 1

abbrev pub question_weight_max : ℕ
question_weight_max = 100

abbrev pub question_draw_history_limit : ℕ
question_draw_history_limit = 100

abbrev pub question_ticket_counter_max : ℕ
question_ticket_counter_max = 2147483647

-- `remainingTickets`
abbrev pub consumed : Question → ℕ → ℕ
consumed q cycle = if q.last_selected_cycle ==? some cycle then q.selections_in_cycle else 0

abbrev pub remaining_tickets : ℕ → Question → ℕ
remaining_tickets cycle q = q.weight - consumed q cycle

-- The entries of `available`, each a question with its tickets.
abbrev pub Entry : Type 0
Entry = Question × ℕ

pub available : ℕ → List Question → List Entry
available cycle qs = filter (λ entry. ltb 0 entry.1) (map (λ q. (q, remaining_tickets cycle q)) qs)

-- `question.id !== lastSelectedQuestionId`
pub is_other : Option ℕ → Entry → Bool
is_other last entry = not (some entry.0.id ==? last)

pub pool_of : Option ℕ → List Entry → List Entry
unfolding is_other
pool_of last entries = elim (filter (is_other last) entries) [ [] ↦ entries | e ∷ es ↦ e ∷ es ]

unfoldable pub total_tickets : List Entry → ℕ
total_tickets pool = sum_by (λ entry. entry.1) pool

-- The loop over the pool; `none` is the error after it.
pub pick : List Entry → ℕ → Option Question
pick [] ticket = none
pick ((q, tickets) ∷ pool) ticket =
    let rest = pick pool (ticket - tickets) in if ltb ticket tickets then some q else rest

pub data Drawn : Type 0 where
  nothing_left exceeded : Drawn
  picked : Question → Drawn

picked_or_exceeded : Option Question → Drawn
picked_or_exceeded none = exceeded
picked_or_exceeded (some q) = picked q

-- `drawQuestion`, with `random` for `randomInt`.
unfoldable pub draw_question : (ℕ → ℕ) → List Question → ℕ → Option ℕ → Drawn
unfolding available pool_of total_tickets pick picked_or_exceeded
draw_question random questions cycle last =
    let pool = pool_of last (available cycle questions) in
    let total = total_tickets pool in
    if total == 0 then nothing_left else picked_or_exceeded (pick pool (random total))

-- `orderBy: { id: "asc" }`
insert_by_id : Question → List Question → List Question
insert_by_id q [] = q ∷ []
insert_by_id q (x ∷ xs) =
    let rest = insert_by_id q xs in if leb q.id x.id then q ∷ x ∷ xs else x ∷ rest

pub order_by_id : List Question → List Question
unfolding insert_by_id
order_by_id [] = []
order_by_id (q ∷ qs) = insert_by_id q (order_by_id qs)

unfoldable pub active_questions : Db → ℕ → List Question
unfolding order_by_id
active_questions db e = order_by_id (filter (live_question_in e) db.questions)

unfoldable pub has_invalid_weight : Question → Bool
has_invalid_weight q = ltb q.weight question_weight_min || ltb question_weight_max q.weight

-- The reset of the counters when the cycle number would overflow.
unfoldable pub clear_tickets : Question → Question
clear_tickets q = record q { last_selected_cycle = none; selections_in_cycle = 0 }

-- The cycle, the questions as the next draw sees them, and whether the table is reset as well.
pub record Bag : Type 0 where
  pub cycle : ℕ
  pub questions : List Question
  pub reset : Bool

pub next_bag : ℕ → List Question → Bag
unfolding clear_tickets
next_bag cycle questions =
    if cycle == question_ticket_counter_max
    then record { cycle = 0; questions = map clear_tickets questions; reset = true }
    else record { cycle = cycle + 1; questions = questions; reset = false }

-- The first draw, and a second one from a fresh bag where the first found no ticket.
pub draw_from : (ℕ → ℕ) → List Question → ℕ → Option ℕ → Bag × Drawn
unfolding next_bag
draw_from random questions cycle last = elim (draw_question random questions cycle last) [
  | nothing_left ↦
      let bag = next_bag cycle questions in (bag, draw_question random bag.questions bag.cycle last)
  | exceeded ↦ (record { cycle = cycle; questions = questions; reset = false }, exceeded)
  | picked q ↦ (record { cycle = cycle; questions = questions; reset = false }, picked q)
]

-- `entry.drawId === drawId`, for a header that may be absent.
same_draw : Option ℕ → Draw → Bool
same_draw draw_id entry = some entry.draw_id ==? draw_id

pub next_question_draws : List Draw → Option ℕ → ℕ → List Draw
unfolding same_draw
next_question_draws draws none question_id = draws
next_question_draws draws (some d) question_id = take_last question_draw_history_limit (
    filter (λ entry. not (same_draw (some d) entry)) draws
    ++ record { draw_id = d; question_id = question_id } ∷ [])

abbrev pub is_question : ℕ → Question → Bool
is_question id q = q.id == id

-- `tx.installation.update` and `tx.question.update`.
pub record_draw : ℕ → ℕ → List Draw → Installation → Installation
record_draw cycle id draws row = record row {
  question_selection_cycle = cycle;
  last_selected_question_id = some id;
  recent_question_draws = draws;
}

pub spend_ticket : ℕ → ℕ → Question → Question
spend_ticket cycle n q = record q { last_selected_cycle = some cycle; selections_in_cycle = n }

pub reset_questions : Bool → ℕ → List Question → List Question
unfolding clear_tickets
reset_questions false e qs = qs
reset_questions true e qs = update_many (λ q. is_in e q.installation_id) clear_tickets qs

-- `selected.lastSelectedCycle === cycle ? selected.selectionsInCycle + 1 : 1`
pub selections_after : ℕ → Question → ℕ
selections_after cycle q =
    if q.last_selected_cycle ==? some cycle then q.selections_in_cycle + 1 else 1

-- The question as the update leaves it.
pub spent : Bag → Question → Question
unfolding spend_ticket selections_after
spent bag q = spend_ticket bag.cycle (selections_after bag.cycle q) q

pub commit_draw : Db → ℕ → Installation → Option ℕ → Bag → Question → Db
unfolding record_draw spend_ticket reset_questions next_question_draws selections_after
commit_draw db e row draw_id bag selected = record db {
  installations =
      update_many (has_id e)
        (record_draw bag.cycle selected.id
          (next_question_draws row.recent_question_draws draw_id selected.id))
        db.installations;
  questions =
      update_many (is_question selected.id)
        (spend_ticket bag.cycle (selections_after bag.cycle selected))
        (reset_questions bag.reset e db.questions);
}

-- An error that the code throws out of the transaction, which takes its writes back.
pub data DrawAnswer : Type 0 where
  no_open_era installation_disappeared no_questions_available invalid_weight : DrawAnswer
  no_valid_tickets ticket_exceeded : DrawAnswer
  drawn : Question → DrawAnswer

answer_of : Db → ℕ → Installation → Option ℕ → Bag → Drawn → Db × DrawAnswer
unfolding commit_draw spent
answer_of db e row draw_id bag nothing_left = (db, no_valid_tickets)
answer_of db e row draw_id bag exceeded = (db, ticket_exceeded)
answer_of db e row draw_id bag (picked q) =
    (commit_draw db e row draw_id bag q, drawn (spent bag q))

answer_for : Db → ℕ → Installation → Option ℕ → Bag → Drawn → List Question → Db × DrawAnswer
unfolding answer_of has_invalid_weight
answer_for db e row draw_id bag selected [] = (db, no_questions_available)
answer_for db e row draw_id bag selected (q ∷ qs) =
    if any has_invalid_weight (q ∷ qs)
    then (db, invalid_weight)
    else answer_of db e row draw_id bag selected

pub draw_active : (ℕ → ℕ) → Db → ℕ → Installation → Option ℕ → Db × DrawAnswer
unfolding active_questions draw_from answer_for
draw_active random db e row draw_id =
    let questions = active_questions db e in
    let (bag, selected) =
      draw_from random questions row.question_selection_cycle row.last_selected_question_id in
    answer_for db e row draw_id bag selected questions

-- The question of an earlier draw with the same id, if it is still in the era.
unfoldable pub replay_of : Db → ℕ → Installation → Option ℕ → Option Question
unfolding same_draw
replay_of db e row draw_id = elim (find_first (same_draw draw_id) row.recent_question_draws) [
  | none ↦ none
  | some previous ↦
      find_first (λ q. is_question previous.question_id q && is_in e q.installation_id) db.questions
]

-- The transaction of `GET /random`.
unfoldable pub draw_random : (ℕ → ℕ) → Db → Option ℕ → Db × DrawAnswer
unfolding replay_of draw_active
draw_random random db draw_id = elim (lock_open_installation db none) [
  | none ↦ (db, no_open_era)
  | some e ↦ elim (find_installation db e) [
    | none ↦ (db, installation_disappeared)
    | some row ↦ elim (replay_of db e row draw_id) [
      | some q ↦ (db, drawn q)
      | none ↦ draw_active random db e row draw_id
    ]
  ]
]
