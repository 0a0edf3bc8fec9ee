-- ===== src/Questions/Drawing.antt =====
-- packages/api/src/routes/questions.ts, `drawQuestion`: one draw from a bag of tickets.
use telephone_booth_operator.Common.{
  ℕ, ◌-◌, ◌<◌, ◌≡◌, refl, subst, ◌∙◌, Bool, true, false, Option, some, List, [], ◌∷◌, filter,
  ==?_iff, ltb, All, sum_by, arith, Bool-cases, inl, inr, ◌⊎◌,
}
use telephone_booth_operator.Store.{Question}
use telephone_booth_operator.Questions.{
  remaining_tickets, Entry, available, is_other, pool_of, total_tickets, pick, nothing_left, picked,
  picked_or_exceeded, draw_question,
}

-- A draw within the total finds a question, and one with every property that all entries have.
pick-All :
    (P : Entry → Type 0) (pool : List Entry) (t : ℕ)
    → All P pool
    → t < total_tickets pool
    → (q : Question) × (k : ℕ) × (pick pool t ≡ some q) × P (q, k)
unfolding pick total_tickets
pick-All P [] t h r = ground arith
pick-All P ((q, k) ∷ pool) t h r = elim (Bool-cases (ltb t k)) [
  | inl b ↦ (q, k, rw b refl, h.0)
  | inr b ↦
      let (x, j, found, p) = pick-All P pool (t - k) h.1 (ground arith) in (x, j, rw b found, p)
]

total-available :
    (cycle : ℕ) (qs : List Question)
    → total_tickets (available cycle qs) ≡ sum_by (remaining_tickets cycle) qs
unfolding available total_tickets
total-available cycle [] = refl
total-available cycle (q ∷ qs) = ground (arith, total-available cycle qs)

available-From :
    (P : Question → Type 0) (cycle : ℕ) (qs : List Question)
    → All P qs
    → All (λ e. P e.0 × (e.1 ≡ remaining_tickets cycle e.0) × (0 < e.1)) (available cycle qs)
unfolding available
available-From P cycle [] h = tt
available-From P cycle (q ∷ qs) h = elim (Bool-cases (ltb 0 (remaining_tickets cycle q))) [
  | inl b ↦ rw b ((h.0, refl, ground arith), available-From P cycle qs h.1)
  | inr b ↦ rw b (available-From P cycle qs h.1)
]

available-positive : (cycle : ℕ) (qs : List Question) → All (λ e. 0 < e.1) (available cycle qs)
unfolding available
available-positive cycle [] = tt
available-positive cycle (q ∷ qs) = elim (Bool-cases (ltb 0 (remaining_tickets cycle q))) [
  | inl b ↦ rw b (ground arith, available-positive cycle qs)
  | inr b ↦ rw b (available-positive cycle qs)
]

All-filter :
    (P : Entry → Type 0) (p : Entry → Bool) (es : List Entry)
    → All P es
    → All (λ e. P e × (p e ≡ true)) (filter p es)
All-filter P p [] h = tt
All-filter P p (e ∷ es) h = elim (Bool-cases (p e)) [
  | inl b ↦ rw b ((h.0, b), All-filter P p es h.1)
  | inr b ↦ rw b (All-filter P p es h.1)
]

none-other :
    (last : Option ℕ) (es : List Entry)
    → filter (is_other last) es ≡ []
    → All (λ e. is_other last e ≡ false) es
none-other last [] h = tt
none-other last (e ∷ es) h = (ground arith, none-other last es (ground arith))

-- Either an alternative to the last question is taken, or there is none.
abbrev Fair : Option ℕ → List Entry → Entry → Type 0
Fair last es entry = (is_other last entry ≡ true) ⊎ All (λ e. is_other last e ≡ false) es

All-Fair :
    (P : Entry → Type 0) (last : Option ℕ) (all_es es : List Entry)
    → All (λ e. is_other last e ≡ false) all_es
    → All P es
    → All (λ e. P e × Fair last all_es e) es
All-Fair P last all_es [] n h = tt
All-Fair P last all_es (e ∷ es) n h = ((h.0, inr n), All-Fair P last all_es es n h.1)

All-Other :
    (P : Entry → Type 0) (last : Option ℕ) (all_es es : List Entry)
    → All (λ e. P e × (is_other last e ≡ true)) es
    → All (λ e. P e × Fair last all_es e) es
All-Other P last all_es [] h = tt
All-Other P last all_es (e ∷ es) h = ((h.0.0, inl h.0.1), All-Other P last all_es es h.1)

pool-Fair :
    (P : Entry → Type 0) (last : Option ℕ) (es : List Entry)
    → All P es
    → All (λ e. P e × Fair last es e) (pool_of last es)
unfolding pool_of
pool-Fair P last es h = go (filter (is_other last) es) refl
  where
    go :
        (rest : List Entry)
        → filter (is_other last) es ≡ rest
        → All (λ e. P e × Fair last es e) (elim rest [ [] ↦ es | x ∷ xs ↦ x ∷ xs ])
    go [] k = All-Fair P last es es (none-other last es k) h
    go (x ∷ xs) k =
        All-Other P last es (x ∷ xs)
          (subst (All (λ e. P e × (is_other last e ≡ true))) k (All-filter P (is_other last) es h))

positive-total : (e : Entry) (es : List Entry) → 0 < e.1 → 0 < total_tickets (e ∷ es)
unfolding total_tickets
positive-total e es h = omega arith

pool-positive :
    (last : Option ℕ) (es : List Entry)
    → All (λ e. 0 < e.1) es
    → 0 < total_tickets es
    → 0 < total_tickets (pool_of last es)
unfolding pool_of
pool-positive last es h r = go (filter (is_other last) es) refl
  where
    go :
        (rest : List Entry)
        → filter (is_other last) es ≡ rest
        → 0 < total_tickets (elim rest [ [] ↦ es | x ∷ xs ↦ x ∷ xs ])
    go [] k = r
    go (x ∷ xs) k = positive-total x xs (
        (subst (All (λ e. (0 < e.1) × (is_other last e ≡ true))) k
          (All-filter (λ e. 0 < e.1) (is_other last) es h)).0.0)

-- The question drawn last, or one that has no ticket left.
abbrev pub NoAlternative : Option ℕ → ℕ → Question → Type 0
NoAlternative last cycle x = (some x.id ≡ last) ⊎ (remaining_tickets cycle x ≡ 0)

no-alternative :
    (last : Option ℕ) (cycle : ℕ) (qs : List Question)
    → All (λ e. is_other last e ≡ false) (available cycle qs)
    → All (NoAlternative last cycle) qs
unfolding available is_other
no-alternative last cycle [] h = tt
no-alternative last cycle (q ∷ qs) h = elim (Bool-cases (ltb 0 (remaining_tickets cycle q))) [
  | inr b ↦ (
    inr (ground arith),
    no-alternative last cycle qs (subst (All (λ e. is_other last e ≡ false)) (dropped b) h),
  )
  | inl b ↦
      let both = subst (All (λ e. is_other last e ≡ false)) (kept b) h in
      (
        inl ((==?_iff (some q.id) last).0 (ground (arith, both.0))),
        no-alternative last cycle qs both.1,
      )
]
  where
    dropped :
        ltb 0 (remaining_tickets cycle q) ≡ false → available cycle (q ∷ qs) ≡ available cycle qs
    dropped b = rw b refl

    kept :
        ltb 0 (remaining_tickets cycle q) ≡ true
        → available cycle (q ∷ qs) ≡ (q, remaining_tickets cycle q) ∷ available cycle qs
    kept b = rw b refl

not_other : (last : Option ℕ) (e : Entry) → some e.0.id ≡ last → is_other last e ≡ true → ⊥
unfolding is_other
not_other last e same other = ground (arith, ==?_iff (some e.0.id) last, same, other)

-- A draw while a ticket is left, for a random source that keeps its bound and a property P of all
-- questions: it picks a question that has a ticket and the property, and it repeats the last question
-- only if no other has a ticket.
pub draw_question-picked :
    (P : Question → Type 0) (random : ℕ → ℕ) (cycle : ℕ) (last : Option ℕ) (qs : List Question)
    → ((n : ℕ) → 0 < n → random n < n)
    → All P qs
    → 0 < sum_by (remaining_tickets cycle) qs
    → (q : Question) × (draw_question random qs cycle last ≡ picked q)
      × P q
      × (0 < remaining_tickets cycle q)
      × (some q.id ≡ last → All (NoAlternative last cycle) qs)
unfolding draw_question picked_or_exceeded
draw_question-picked P random cycle last qs bound all_p left =
    let es = available cycle qs in
    let entries = available-From P cycle qs all_p in
    let positive : 0 < total_tickets (pool_of last es) =
      pool-positive last es (available-positive cycle qs)
        (omega (arith, total-available cycle qs, left)) in
    let (q, k, found, ((p, same, some_left), fair)) =
      pick-All (λ e. (P e.0 × (e.1 ≡ remaining_tickets cycle e.0) × (0 < e.1)) × Fair last es e)
        (pool_of last es) (random (total_tickets (pool_of last es)))
        (pool-Fair (λ e. P e.0 × (e.1 ≡ remaining_tickets cycle e.0) × (0 < e.1)) last es entries)
        (bound (total_tickets (pool_of last es)) positive) in
    (
      q,
      ground (arith, found, positive),
      p,
      omega (arith, same, some_left),
      (λ repeated. elim fair [
        | inl other ↦ elim (not_other last (q, k) repeated other) [ ]
        | inr alone ↦ no-alternative last cycle qs alone
      ]),
    )

pool-empty :
    (last : Option ℕ) (es : List Entry)
    → All (λ e. 0 < e.1) es
    → total_tickets es ≡ 0
    → total_tickets (pool_of last es) ≡ 0
unfolding pool_of total_tickets
pool-empty last [] h z = refl
pool-empty last (e ∷ es) h z = ground (arith, h.0)

-- With no ticket left, a draw says so.
pub draw_question-nothing_left :
    (random : ℕ → ℕ) (cycle : ℕ) (last : Option ℕ) (qs : List Question)
    → sum_by (remaining_tickets cycle) qs ≡ 0
    → draw_question random qs cycle last ≡ nothing_left
unfolding draw_question
draw_question-nothing_left random cycle last qs empty =
    let none_left : total_tickets (pool_of last (available cycle qs)) ≡ 0 =
      pool-empty last (available cycle qs) (available-positive cycle qs)
        (total-available cycle qs ∙ empty) in
    ground (arith, none_left)
