-- ===== src/Questions/Tickets.antt =====
-- packages/api/src/routes/questions.ts, `GET /random`: each draw spends one ticket of the era's bag.
use telephone_booth_operator.Common.{
  ℕ, ◌+◌, ◌≤◌, ◌<◌, ◌≡◌, ◌≢◌, refl, sym, subst, true, false, Option, none, some, List, [], ◌∷◌, map,
  filter, any, if◌then◌else◌, ◌==◌, ◌==?◌, ==?_iff, All, count, sum_by, arith, update_many,
  find_first, Bool-cases, inl, inr, ◌⊎◌, with_default,
}
use telephone_booth_operator.Store.{Question}
use telephone_booth_operator.Era.CloseOut.{live_question_in}
use telephone_booth_operator.Questions.{
  remaining_tickets, nothing_left, picked, draw_question, is_question, Bag, next_bag, clear_tickets,
  draw_from, has_invalid_weight, question_ticket_counter_max, spend_ticket, spent, selections_after,
  insert_by_id, order_by_id,
}
use telephone_booth_operator.Questions.Drawing.{
  NoAlternative, draw_question-picked, draw_question-nothing_left,
}

-- No question was selected in a cycle that is still to come.
abbrev pub NotAhead : ℕ → Question → Type 0
NotAhead cycle q = with_default q.last_selected_cycle 0 ≤ cycle

abbrev pub sum_weights : List Question → ℕ
sum_weights qs = sum_by (λ q. q.weight) qs

fresh-remaining :
    (cycle : ℕ) (qs : List Question)
    → All (NotAhead cycle) qs
    → sum_by (remaining_tickets (cycle + 1)) qs ≡ sum_weights qs
fresh-remaining cycle [] h = refl
fresh-remaining cycle (q ∷ qs) h =
    omega (arith, none_consumed q.last_selected_cycle h.0, fresh-remaining cycle qs h.1)
  where
    none_consumed :
        (o : Option ℕ)
        → with_default o 0 ≤ cycle
        → (if o ==? some (cycle + 1) then q.selections_in_cycle else 0) ≡ 0
    none_consumed none k = ground arith
    none_consumed (some c) k = ground arith

pub cleared-remaining :
    (cycle : ℕ) (qs : List Question)
    → sum_by (remaining_tickets cycle) (map clear_tickets qs) ≡ sum_weights qs
unfolding clear_tickets
cleared-remaining cycle [] = refl
cleared-remaining cycle (q ∷ qs) = ground (arith, cleared-remaining cycle qs)

-- A fresh bag holds all tickets again.
pub next_bag-full :
    (cycle : ℕ) (qs : List Question)
    → All (NotAhead cycle) qs
    → let bag = next_bag cycle qs in
      sum_by (remaining_tickets bag.cycle) bag.questions ≡ sum_weights qs
unfolding next_bag
next_bag-full cycle qs h = elim (Bool-cases (cycle == question_ticket_counter_max)) [
  | inl k ↦ rw k (cleared-remaining 0 qs)
  | inr k ↦ rw k (fresh-remaining cycle qs h)
]

All-map :
    (P : Question → Type 0) (f : Question → Question) (qs : List Question)
    → ((q : Question) → P q → P (f q))
    → All P qs
    → All P (map f qs)
All-map P f [] k h = tt
All-map P f (q ∷ qs) k h = (k q h.0, All-map P f qs k h.1)

-- The bag that a draw takes from: the old one while a ticket is left in it, and else a fresh one.
abbrev pub bag_for : ℕ → List Question → Bag
bag_for cycle qs =
    if sum_by (remaining_tickets cycle) qs == 0
    then next_bag cycle qs
    else record { cycle = cycle; questions = qs; reset = false }

positive-weights :
    (qs : List Question)
    → any has_invalid_weight qs ≡ false
    → ((sum_weights qs == 0) ≡ false) ⊎ (qs ≡ [])
unfolding has_invalid_weight
positive-weights [] h = inr refl
positive-weights (q ∷ qs) h = inl (ground arith)

bag_for-full :
    (cycle : ℕ) (qs : List Question)
    → All (NotAhead cycle) qs
    → any has_invalid_weight qs ≡ false
    → (qs ≢ [])
    → let bag = bag_for cycle qs in 0 < sum_by (remaining_tickets bag.cycle) bag.questions
bag_for-full cycle qs h valid some_question =
    elim (Bool-cases (sum_by (remaining_tickets cycle) qs == 0)) [
      | inr k ↦ rw k (ground (arith, k))
      | inl k ↦ rw k (elim (positive-weights qs valid) [
        | inl w ↦ ground (arith, w, next_bag-full cycle qs h)
        | inr none_there ↦ elim (some_question none_there) [ ]
      ])
    ]

-- The draw of the route, for a random source that keeps its bound, questions of valid weights and a
-- property P of the bag: it takes a ticket from the bag of the cycle, or from a fresh one where that
-- is empty. It never fails, and it repeats the last question only if no other has a ticket.
pub draw_from-picked :
    (P : Question → Type 0) (random : ℕ → ℕ) (cycle : ℕ) (last : Option ℕ) (qs : List Question)
    → ((n : ℕ) → 0 < n → random n < n)
    → All (NotAhead cycle) qs
    → any has_invalid_weight qs ≡ false
    → qs ≢ []
    → All P (bag_for cycle qs).questions
    → let bag = bag_for cycle qs in
      (q : Question) × (draw_from random qs cycle last ≡ (bag, picked q))
      × P q
      × (0 < remaining_tickets bag.cycle q)
      × (some q.id ≡ last → All (NoAlternative last bag.cycle) bag.questions)
unfolding draw_from
draw_from-picked P random cycle last qs bound ahead valid some_question all_p =
    let bag = bag_for cycle qs in
    let (q, found, p, some_left, fair) =
      draw_question-picked P random bag.cycle last bag.questions bound all_p
        (bag_for-full cycle qs ahead valid some_question) in
    (q, from q found, p, some_left, fair)
  where
    from :
        (q : Question)
        → draw_question random (bag_for cycle qs).questions (bag_for cycle qs).cycle last ≡ picked q
        → draw_from random qs cycle last ≡ (bag_for cycle qs, picked q)
    from q found = elim (Bool-cases (sum_by (remaining_tickets cycle) qs == 0)) [
      | inr k ↦ ground (arith, found, k)
      | inl k ↦
          let empty : draw_question random qs cycle last ≡ nothing_left =
            draw_question-nothing_left random cycle last qs (ground arith) in
          ground (arith, found, k, empty)
    ]

sum-insert_by_id :
    (f : Question → ℕ) (q : Question) (qs : List Question)
    → sum_by f (insert_by_id q qs) ≡ f q + sum_by f qs
unfolding insert_by_id
sum-insert_by_id f q [] = refl
sum-insert_by_id f q (x ∷ xs) = ground (arith, sum-insert_by_id f q xs)

-- The order in which the questions are read does not change their tickets.
pub sum-order_by_id :
    (f : Question → ℕ) (qs : List Question) → sum_by f (order_by_id qs) ≡ sum_by f qs
unfolding order_by_id
sum-order_by_id f [] = refl
sum-order_by_id f (q ∷ qs) =
    omega (arith, sum-insert_by_id f q (order_by_id qs), sum-order_by_id f qs)

-- A question that has a ticket has one less after it is drawn.
pub spent-remaining :
    (bag : Bag) (q : Question)
    → 0 < remaining_tickets bag.cycle q
    → remaining_tickets bag.cycle (spent bag q) + 1 ≡ remaining_tickets bag.cycle q
unfolding spent spend_ticket selections_after
spent-remaining bag q h = ground (arith, ==?_iff q.last_selected_cycle (some bag.cycle))

pub sum-update_many :
    (e i : ℕ) (f : Question → Question) (r : Question → ℕ) (q : Question) (qs : List Question)
    → ((x : Question) → live_question_in e (f x) ≡ live_question_in e x)
    → ((x : Question) → (f x).id ≡ x.id)
    → find_first (is_question i) qs ≡ some q
    → count (is_question i) qs ≤ 1
    → live_question_in e q ≡ true
    → r (f q) + 1 ≡ r q
    → sum_by r (filter (live_question_in e) (update_many (is_question i) f qs)) + 1
      ≡ sum_by r (filter (live_question_in e) qs)
sum-update_many e i f r q [] k j found one is_live less = ground arith
sum-update_many e i f r q (x ∷ xs) k j found one is_live less =
    elim (Bool-cases (is_question i x)) [
      | inl b ↦
          let same : x ≡ q = ground (arith, found, b) in
          let rest : update_many (is_question i) f xs ≡ xs =
            untouched xs (ground (arith, one, b)) in
          ground (
            arith,
            b,
            k x,
            rest,
            subst (λ y. live_question_in e y ≡ true) (sym same) is_live,
            subst (λ y. r (f y) + 1 ≡ r y) (sym same) less,
          )
      | inr b ↦ ground (
        arith,
        b,
        sum-update_many e i f r q xs k j (ground (arith, found, b)) (ground (arith, one, b)) is_live
            less,
      )
    ]
  where
    untouched :
        (ys : List Question) → count (is_question i) ys ≡ 0 → update_many (is_question i) f ys ≡ ys
    untouched [] z = refl
    untouched (y ∷ ys) z = ground (arith, untouched ys)
