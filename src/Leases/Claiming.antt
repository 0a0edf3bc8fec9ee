-- ===== src/Leases/Claiming.antt =====
-- packages/api/src/routes/message-processing.ts, `POST /claim`: reading the candidates page by page.
use telephone_booth_operator.Common.{
  ℕ, zero, suc, ◌+◌, ◌*◌, ◌≤◌, ◌<◌, ◌≡◌, refl, sym, ap, ◌∙◌, Bool, true, Option, none, some, List,
  [], ◌∷◌, ◌++◌, ◌==◌, find_first, filter, length, take, drop, length-drop, update_many, arith,
  Bool-cases, Option-cases, inl, inr, or_else,
}
use telephone_booth_operator.Store.{Db}
use telephone_booth_operator.Era.{open_era}
use telephone_booth_operator.Leases.{
  ClaimRequest, claim_candidate_limit, claim_pages, claim, is_claimable, is_candidate, is_grantable,
  grant, insert_by_age, order_by_age, candidates_of, find_work,
}
use telephone_booth_operator.Leases.Needs.{Runtime, WorkMessage}

module _ {ℓ} {A : Type ℓ} where
  find_first-append :
      (p : A → Bool) (xs ys : List A)
      → find_first p (xs ++ ys) ≡ or_else (find_first p xs) (find_first p ys)
  find_first-append p [] ys = refl
  find_first-append p (x ∷ xs) ys = ground (arith, find_first-append p xs ys)

  append-take-drop : (n : ℕ) (xs : List A) → take n xs ++ drop n xs ≡ xs
  append-take-drop zero xs = refl
  append-take-drop (suc n) [] = refl
  append-take-drop (suc n) (x ∷ xs) = ap (λ ys. x ∷ ys) (append-take-drop n xs)

  drop-nil : (n : ℕ) → drop {A = A} n [] ≡ []
  drop-nil zero = refl
  drop-nil (suc n) = refl

  drop-drop : (a b : ℕ) (xs : List A) → drop (a + b) xs ≡ drop b (drop a xs)
  drop-drop zero b xs = let same : 0 + b ≡ b = omega arith in ap (λ n. drop n xs) same
  drop-drop (suc a) b [] = drop-nil (suc a + b) ∙ sym (drop-nil b)
  drop-drop (suc a) b (x ∷ xs) =
      let same : suc a + b ≡ suc (a + b) = omega arith in
      ap (λ n. drop n (x ∷ xs)) same ∙ drop-drop a b xs

  drop-length-take : (n : ℕ) (xs : List A) → drop (length (take n xs)) xs ≡ drop n xs
  drop-length-take zero xs = refl
  drop-length-take (suc n) [] = refl
  drop-length-take (suc n) (x ∷ xs) = drop-length-take n xs

  length-take-pos : (n : ℕ) (xs : List A) → (length (take (suc n) xs) == 0) ≡ true → xs ≡ []
  length-take-pos n [] h = refl
  length-take-pos n (x ∷ xs) h = ground arith

-- Reading the candidates page by page finds the first one that can be claimed, as reading them all
-- at once would: with one unit of fuel more than there are candidates, no page is missed.
pub claim_pages-find_first :
    (p : WorkMessage → Bool) (xs : List WorkMessage) (skip fuel : ℕ)
    → length (drop skip xs) < fuel
    → claim_pages p xs skip fuel ≡ find_first p (drop skip xs)
unfolding claim_pages
claim_pages-find_first p xs skip zero h = ground arith
claim_pages-find_first p xs skip (suc fuel) h =
    let ys = drop skip xs in
    let page = take claim_candidate_limit ys in
    let k = length page in
    elim (Bool-cases (k == 0)) [
      | inl z ↦
          let nothing : ys ≡ [] = length-take-pos 99 ys z in rw z (ap (find_first p) (sym nothing))
      | inr z ↦
          let next : drop (skip + k) xs ≡ drop claim_candidate_limit ys =
            drop-drop skip k xs ∙ drop-length-take claim_candidate_limit ys in
          let fewer : length (drop (skip + k) xs) < fuel =
            ground (arith, drop-drop skip k xs, length-drop k ys, h, z) in
          let rest = claim_pages-find_first p xs (skip + k) fuel fewer ∙ ap (find_first p) next in
          let split =
            ap (find_first p) (sym (append-take-drop claim_candidate_limit ys))
            ∙ find_first-append p page (drop claim_candidate_limit ys) in
          elim (Option-cases (find_first p page)) [
            | inl e ↦ rw (z, e) (rest ∙ sym (split ∙ rw e refl))
            | inr (m, e) ↦ rw (z, e) (sym (split ∙ rw e refl))
          ]
    ]

length-filter-le :
    (p : WorkMessage → Bool) (xs : List WorkMessage) → length (filter p xs) ≤ length xs
length-filter-le p [] = omega arith
length-filter-le p (x ∷ xs) = ground (arith, length-filter-le p xs)

length-insert_by_age :
    (m : WorkMessage) (xs : List WorkMessage) → length (insert_by_age m xs) ≡ suc (length xs)
unfolding insert_by_age
length-insert_by_age m [] = refl
length-insert_by_age m (x ∷ xs) = ground (arith, length-insert_by_age m xs)

length-order_by_age : (xs : List WorkMessage) → length (order_by_age xs) ≡ length xs
unfolding order_by_age
length-order_by_age [] = refl
length-order_by_age (x ∷ xs) =
    length-insert_by_age x (order_by_age xs) ∙ ap suc (length-order_by_age xs)

candidates-fuel : (e : ℕ) (xs : List WorkMessage) → length (candidates_of e xs) < suc (length xs)
unfolding candidates_of
candidates-fuel e xs =
    omega (
      arith,
      length-order_by_age (filter (is_candidate e) xs),
      length-filter-le (is_candidate e) xs,
    )

-- The claim as one query: the first candidate, in the order of the queue, that can be claimed.
abbrev pub claimable_in :
    Runtime → Db → List WorkMessage → List WorkMessage → ClaimRequest → ℕ → Option WorkMessage
claimable_in r db seen queue q e =
    find_first (is_claimable r db queue e q.now q.capabilities) (candidates_of e seen)

-- What a claim answers by pages is what one query would: fuel is enough, and without an open era it
-- picks none.
pub claim-answers :
    (r : Runtime) (before db : Db) (seen queue : List WorkMessage) (q : ClaimRequest)
    → (claim r before db seen queue q).1 ≡ elim (open_era before) [
      | none ↦ none
      | some e ↦ elim (claimable_in r db seen queue q e) [
        | none ↦ none
        | some c ↦ find_work queue c.id
      ]
    ]
unfolding claim
claim-answers r before db seen queue q = elim (Option-cases (open_era before)) [
  | inl k ↦ rw (claim, k) refl
  | inr (e, k) ↦
      let found =
        claim_pages-find_first (is_claimable r db queue e q.now q.capabilities)
          (candidates_of e seen) 0 (suc (length seen)) (candidates-fuel e seen) in
      elim (Option-cases (claimable_in r db seen queue q e)) [
        | inl m ↦ rw (claim, k, found, m) refl
        | inr (x, m) ↦ rw (claim, k, found, m) refl
      ]
]

pub claim-leaves :
    (r : Runtime) (before db : Db) (seen queue : List WorkMessage) (q : ClaimRequest) (e : ℕ)
    (c : WorkMessage)
    → open_era before ≡ some e
    → claimable_in r db seen queue q e ≡ some c
    → (claim r before db seen queue q).0
      ≡ update_many
          (is_grantable c.id e q.now)
          (grant r q.token (q.now + q.lease_seconds * 1000) q.now q.user)
          queue
unfolding claim
claim-leaves r before db seen queue q e c k m =
    let found =
      claim_pages-find_first (is_claimable r db queue e q.now q.capabilities) (candidates_of e seen)
        0 (suc (length seen)) (candidates-fuel e seen) in
    rw (claim, k, found, m) refl

pub claim-none :
    (r : Runtime) (before db : Db) (seen queue : List WorkMessage) (q : ClaimRequest) (e : ℕ)
    → open_era before ≡ some e
    → claimable_in r db seen queue q e ≡ none
    → (claim r before db seen queue q).0 ≡ queue
unfolding claim
claim-none r before db seen queue q e k m =
    let found =
      claim_pages-find_first (is_claimable r db queue e q.now q.capabilities) (candidates_of e seen)
        0 (suc (length seen)) (candidates-fuel e seen) in
    rw (claim, k, found, m) refl
