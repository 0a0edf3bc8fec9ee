-- ===== src/Questions/Share.antt =====
-- packages/api/src/routes/questions.ts, `drawQuestion`: its loop gives each question its share.
use telephone_booth_operator.Common.{
  ℕ, zero, suc, ◌+◌, ◌-◌, ◌<◌, ◌≡◌, refl, ap, ◌∙◌, Bool, List, [], ◌∷◌, if◌then◌else◌, sum_by,
  arith, holds,
}
use telephone_booth_operator.Store.{Question}
use telephone_booth_operator.Questions.{Entry, total_tickets, pick, is_question}

-- How many numbers below a bound pass a test.
abbrev pub below : (ℕ → Bool) → ℕ → ℕ
below p zero = 0
below p (suc n) = (if p n then 1 else 0) + below p n

abbrev pub picks : ℕ → List Entry → ℕ → Bool
picks id pool t = holds (is_question id) (pick pool t)

abbrev pub tickets_of : ℕ → List Entry → ℕ
tickets_of id pool = sum_by (λ e. if is_question id e.0 then e.1 else 0) pool

below-add : (p : ℕ → Bool) (k n : ℕ) → below p (k + n) ≡ below p k + below (λ t. p (k + t)) n
below-add p k zero = let same : k + 0 ≡ k = omega arith in omega (arith, ap (below p) same)
below-add p k (suc n) =
    let next : k + suc n ≡ suc (k + n) = omega arith in
    omega (arith, ap (below p) next, below-add p k n)

below-ext : (p q : ℕ → Bool) (n : ℕ) → ((t : ℕ) → t < n → p t ≡ q t) → below p n ≡ below q n
below-ext p q zero h = refl
below-ext p q (suc n) h = ground (arith, h n, below-ext p q n (λ t r. h t (omega arith)))

below-const : (b : Bool) (n : ℕ) → below (λ _. b) n ≡ (if b then n else 0)
below-const b zero = ground arith
below-const b (suc n) = ground (arith, below-const b n)

-- Over the outcomes of the random number, each as likely as another, a question is picked once for
-- each of its tickets in the pool.
pub pick-share :
    (id : ℕ) (pool : List Entry) → below (picks id pool) (total_tickets pool) ≡ tickets_of id pool
unfolding pick total_tickets
pick-share id [] = refl
pick-share id ((q, k) ∷ pool) =
    let here : below (picks id ((q, k) ∷ pool)) k ≡ (if is_question id q then k else 0) =
      below-ext (picks id ((q, k) ∷ pool)) (λ _. is_question id q) k (λ t r. ground arith)
      ∙ below-const (is_question id q) k in
    let there : below (λ t. picks id ((q, k) ∷ pool) (k + t)) (total_tickets pool)
        ≡ tickets_of id pool =
      below-ext (λ t. picks id ((q, k) ∷ pool) (k + t)) (picks id pool) (total_tickets pool)
        (λ t r. later id q k pool t)
      ∙ pick-share id pool in
    omega (arith, below-add (picks id ((q, k) ∷ pool)) k (total_tickets pool), here, there)
  where
    later :
        (id : ℕ) (q : Question) (k : ℕ) (pool : List Entry) (t : ℕ)
        → picks id ((q, k) ∷ pool) (k + t) ≡ picks id pool t
    later id q k pool t =
        let same : (k + t) - k ≡ t = omega arith in ground (arith, ap (pick pool) same)
