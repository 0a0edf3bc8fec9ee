-- ===== src/Questions/LiveRows.antt =====
-- packages/api/src/routes/questions.ts, `GET /random`: the rows of the live questions of an era.
use telephone_booth_operator.Common.{
  ℕ, ◌≤◌, ◌≡◌, refl, sym, subst, Bool, true, false, some, List, [], ◌∷◌, map, filter, ==_iff, leb,
  All, count, arith, find_first, Bool-cases, inl, inr,
}
use telephone_booth_operator.Store.{Question, is_in}
use telephone_booth_operator.Era.CloseOut.{live_question_in}
use telephone_booth_operator.Questions.{
  is_question, clear_tickets, insert_by_id, order_by_id, reset_questions,
}

module _ (P : Question → Type 0) where
  All-insert_by_id :
      (q : Question) (qs : List Question) → P q → All P qs → All P (insert_by_id q qs)
  unfolding insert_by_id
  All-insert_by_id q [] p h = (p, tt)
  All-insert_by_id q (x ∷ xs) p h = elim (Bool-cases (leb q.id x.id)) [
    | inl k ↦ rw k (p, h)
    | inr k ↦ rw k (h.0, All-insert_by_id q xs p h.1)
  ]

  pub All-order_by_id : (qs : List Question) → All P qs → All P (order_by_id qs)
  unfolding order_by_id
  All-order_by_id [] h = tt
  All-order_by_id (q ∷ qs) h = All-insert_by_id q (order_by_id qs) h.0 (All-order_by_id qs h.1)

  All-active : (e : ℕ) (qs : List Question) → All P qs → All P (filter (live_question_in e) qs)
  All-active e [] h = tt
  All-active e (q ∷ qs) h = elim (Bool-cases (live_question_in e q)) [
    | inl k ↦ rw k (h.0, All-active e qs h.1)
    | inr k ↦ rw k (All-active e qs h.1)
  ]

-- A row of a table with unique ids that is live in an era.
abbrev pub LiveRow : List Question → ℕ → Question → Type 0
LiveRow table e q = (find_first (is_question q.id) table ≡ some q) × (live_question_in e q ≡ true)

abbrev Found : List Question → Question → Type 0
Found table q = find_first (is_question q.id) table ≡ some q

Found-more :
    (y : Question) (ys qs : List Question)
    → count (is_question y.id) qs ≡ 0
    → All (Found ys) qs
    → All (Found (y ∷ ys)) qs
Found-more y ys [] z h = tt
Found-more y ys (q ∷ qs) z h = (
  ground (arith, h.0, z, ==_iff q.id y.id, ==_iff y.id q.id),
  Found-more y ys qs (ground arith) h.1,
)

pub Found-self :
    (table : List Question) → ((i : ℕ) → count (is_question i) table ≤ 1) → All (Found table) table
Found-self [] unique = tt
Found-self (y ∷ ys) unique = (
  ground (arith, ==_iff y.id y.id),
  Found-more y ys ys (ground (arith, unique y.id, ==_iff y.id y.id))
      (Found-self ys (λ i. ground (arith, unique i))),
)

pub live_rows :
    (table : List Question) (e : ℕ) (qs : List Question)
    → All (Found table) qs
    → All (LiveRow table e) (filter (live_question_in e) qs)
live_rows table e [] h = tt
live_rows table e (q ∷ qs) h = elim (Bool-cases (live_question_in e q)) [
  | inl k ↦ rw k ((h.0, k), live_rows table e qs h.1)
  | inr k ↦ rw k (live_rows table e qs h.1)
]

-- The reset of an era's counters, seen from a row of the era.
find-clear :
    (e i : ℕ) (q : Question) (table : List Question)
    → is_in e q.installation_id ≡ true
    → find_first (is_question i) table ≡ some q
    → find_first (is_question i) (reset_questions true e table) ≡ some (clear_tickets q)
unfolding reset_questions clear_tickets
find-clear e i q [] k h = ground arith
find-clear e i q (x ∷ xs) k h = elim (Bool-cases (is_question i x)) [
  | inl b ↦
      let same : x ≡ q = ground (arith, b, h) in
      let hit : is_in e x.installation_id ≡ true =
        subst (λ y. is_in e y.installation_id ≡ true) (sym same) k in
      ground (arith, b, hit, same)
  | inr b ↦ ground (arith, b, find-clear e i q xs k (ground (arith, b, h)))
]

pub filter-clear :
    (e : ℕ) (qs : List Question)
    → filter (live_question_in e) (reset_questions true e qs)
      ≡ map clear_tickets (filter (live_question_in e) qs)
unfolding reset_questions clear_tickets
filter-clear e [] = refl
filter-clear e (q ∷ qs) = ground (arith, filter-clear e qs)

pub count-reset :
    (b : Bool) (e i : ℕ) (qs : List Question)
    → count (is_question i) (reset_questions b e qs) ≡ count (is_question i) qs
unfolding reset_questions clear_tickets
count-reset false e i qs = refl
count-reset true e i [] = refl
count-reset true e i (q ∷ qs) = ground (arith, count-reset true e i qs)

pub clear_rows :
    (table : List Question) (e : ℕ) (qs : List Question)
    → All (LiveRow table e) qs
    → All (LiveRow (reset_questions true e table) e) (map clear_tickets qs)
unfolding clear_tickets
clear_rows table e [] h = tt
clear_rows table e (q ∷ qs) h =
    ((find-clear e q.id q table (ground (arith, h.0.1)) h.0.0, h.0.1), clear_rows table e qs h.1)
