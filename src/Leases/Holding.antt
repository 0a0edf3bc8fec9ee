-- ===== src/Leases/Holding.antt =====
-- packages/api/src/routes/message-processing.ts: only the holder of a running lease may extend it,
-- give it back or report a failure.
use telephone_booth_operator.Common.{
  ℕ, ◌≤◌, ◌≡◌, ◌≢◌, refl, String, Bool, true, false, ◌&&◌, some, List, [], ◌∷◌, ◌==◌, ==_iff, leb,
  All, count, update_many, is_none, arith, Bool-cases, Option-cases, inl, inr,
}
use telephone_booth_operator.Store.{Db, is_in}
use telephone_booth_operator.Era.{open_era}
use telephone_booth_operator.Leases.{
  ClaimRequest, claim, holds_lease, release, renew_lease, fail, find_work, give_back,
  record_failure, lease_lost, extended, failed, max_attempts,
}
use telephone_booth_operator.Leases.Needs.{Runtime, WorkMessage}
use telephone_booth_operator.Leases.Exclusion.{is_work, LeasedTo, claim-grants}

abbrev pub NotHeld : Runtime → ℕ → ℕ → ℕ → ℕ → WorkMessage → Type 0
NotHeld r id token user now m = holds_lease r id token user now m ≡ false

pub none_held :
    (p : WorkMessage → Bool) (queue : List WorkMessage)
    → All (λ m. p m ≡ false) queue
    → count p queue ≡ 0
none_held p [] h = refl
none_held p (m ∷ ms) h = ground (arith, h.0, none_held p ms h.1)

none_held_in :
    (p c : WorkMessage → Bool) (queue : List WorkMessage)
    → All (λ m. p m ≡ false) queue
    → count (λ m. p m && c m) queue ≡ 0
none_held_in p c [] h = refl
none_held_in p c (m ∷ ms) h = ground (arith, h.0, none_held_in p c ms h.1)

pub NotHeld-refused :
    (r : Runtime) (db : Db) (queue : List WorkMessage) (id token user now seconds : ℕ)
    (error : String)
    → All (NotHeld r id token user now) queue
    → (release r queue id token user now ≡ (queue, lease_lost))
      × ((renew_lease r db queue id token seconds user now).0 ≡ queue)
      × ((t : ℕ) → (renew_lease r db queue id token seconds user now).1 ≢ extended t)
      × ((fail r queue id token error user now).0 ≡ queue)
      × ((b : Bool) → (fail r queue id token error user now).1 ≢ failed b)
unfolding release renew_lease fail
NotHeld-refused r db queue id token user now seconds error h =
    let lost = none_held (holds_lease r id token user now) queue h in
    let lost_in : (e : ℕ)
        → count (λ m. holds_lease r id token user now m && is_in e m.installation_id) queue ≡ 0 =
      λ e.
        none_held_in (holds_lease r id token user now) (λ m. is_in e m.installation_id) queue h in
    elim (Option-cases (find_work queue id)) [
      | inl k ↦ (
        ground (arith, lost),
        ground (arith, k),
        (λ t. ground (arith, k)),
        ground (arith, k),
        (λ b. ground (arith, k)),
      )
      | inr (m, k) ↦ elim (Option-cases (open_era db)) [
        | inl o ↦ (
          ground (arith, lost),
          ground (arith, k, o),
          (λ t. ground (arith, k, o)),
          ground (arith, k, lost),
          (λ b. ground (arith, k, lost)),
        )
        | inr (e, o) ↦ (
          ground (arith, lost),
          ground (arith, k, o, lost_in e),
          (λ t. ground (arith, k, o, lost_in e)),
          ground (arith, k, lost),
          (λ b. ground (arith, k, lost)),
        )
      ]
    ]

-- After a claim, whoever held the message before, or holds another token, has lost it.
others-NotHeld :
    (r : Runtime) (q : ClaimRequest) (id token user now : ℕ) (queue : List WorkMessage)
    → r.token_digest token ≢ r.token_digest q.token
    → All (LeasedTo r q id) queue
    → All (NotHeld r id token user now) queue
unfolding holds_lease
others-NotHeld r q id token user now [] ne h = tt
others-NotHeld r q id token user now (m ∷ ms) ne h = elim (Bool-cases (is_work id m)) [
  | inr w ↦ (ground (arith, w), others-NotHeld r q id token user now ms ne h.1)
  | inl w ↦ (
    ground (arith, w, (h.0 w).token, ne, ==_iff (r.token_digest q.token) (r.token_digest token)),
    others-NotHeld r q id token user now ms ne h.1,
  )
]

-- Once a message is claimed, a release under any token with another digest is refused and changes
-- nothing: the worker that held it before cannot take it away. Ids are unique.
pub claim-takes_over :
    (r : Runtime) (before db : Db) (seen queue : List WorkMessage) (q : ClaimRequest)
    (m : WorkMessage) (token user now : ℕ)
    → count (is_work m.id) queue ≤ 1
    → (claim r before db seen queue q).1 ≡ some m
    → r.token_digest token ≢ r.token_digest q.token
    → let after = (claim r before db seen queue q).0 in
      release r after m.id token user now ≡ (after, lease_lost)
claim-takes_over r before db seen queue q m token user now unique h ne =
    let (e, k, live, candidate, idle, needs, capable, leased) =
      claim-grants r before db seen queue q m unique h in
    (NotHeld-refused r db (claim r before db seen queue q).0 m.id token user now 0 ""
      (others-NotHeld r q m.id token user now (claim r before db seen queue q).0 ne leased)).0

-- Failing for good.
abbrev pub FailedFor : ℕ → WorkMessage → Type 0
FailedFor id m = is_work id m ≡ true → is_none m.processing.failed_at ≡ false

module _ (r : Runtime) (id token user now : ℕ) (error : String) where
  held-le-work :
      (queue : List WorkMessage)
      → count (holds_lease r id token user now) queue ≤ count (is_work id) queue
  unfolding holds_lease
  held-le-work [] = omega arith
  held-le-work (m ∷ ms) = ground (arith, held-le-work ms)

  abbrev pub failing : List WorkMessage → List WorkMessage
  failing queue =
      update_many (holds_lease r id token user now) (record_failure true error now) queue

  no_work-FailedFor :
      (queue : List WorkMessage) → count (is_work id) queue ≡ 0 → All (FailedFor id) (failing queue)
  unfolding record_failure give_back
  no_work-FailedFor [] z = tt
  no_work-FailedFor (m ∷ ms) z = elim (Bool-cases (holds_lease r id token user now m)) [
    | inl k ↦ rw k ((λ h. ground (arith, h, z)), no_work-FailedFor ms (ground arith))
    | inr k ↦ rw k ((λ h. ground (arith, h, z)), no_work-FailedFor ms (ground arith))
  ]

  not_held : (m : WorkMessage) → is_work id m ≡ false → holds_lease r id token user now m ≡ false
  unfolding holds_lease
  not_held m w = ground (arith, w)

  pub failing-FailedFor :
      (queue : List WorkMessage)
      → count (is_work id) queue ≤ 1
      → (count (holds_lease r id token user now) queue == 0) ≡ false
      → All (FailedFor id) (failing queue)
  unfolding record_failure give_back
  failing-FailedFor [] u c = tt
  failing-FailedFor (m ∷ ms) u c = elim (Bool-cases (is_work id m)) [
    | inl w ↦
        let rest : count (is_work id) ms ≡ 0 = ground (arith, u, w) in
        let hit : holds_lease r id token user now m ≡ true =
          ground (arith, rest, c, held-le-work ms) in
        rw hit ((λ _. refl), no_work-FailedFor ms rest)
    | inr w ↦
        let miss = not_held m w in
        rw miss (
          (λ h. ground (arith, h, w)),
          failing-FailedFor ms (ground (arith, u, w)) (ground (arith, c, miss)),
        )
  ]

  pub fail-failing :
      (queue : List WorkMessage)
      → (fail r queue id token error user now).1 ≡ failed true
      → ((fail r queue id token error user now).0 ≡ failing queue)
        × ((count (holds_lease r id token user now) queue == 0) ≡ false)
  unfolding fail
  fail-failing queue h = elim (Option-cases (find_work queue id)) [
    | inl k ↦ ground (arith, k, h)
    | inr (m, k) ↦ elim (Bool-cases (count (holds_lease r id token user now) queue == 0)) [
      | inl z ↦ ground (arith, k, h, z)
      | inr z ↦ elim (Bool-cases (leb max_attempts m.processing.attempt_count)) [
        | inl b ↦ (ground (arith, k, z, b), z)
        | inr b ↦ ground (arith, k, z, b, h)
      ]
    ]
  ]
