-- ===== src/Leases/Steps.antt =====
-- packages/api/src/routes/message-processing.ts: what the requests of all workers, one after the other,
-- leave of a recording that is leased, has failed or is done.
use telephone_booth_operator.Common.{
  ℕ, ◌+◌, ◌*◌, ◌≡◌, sym, subst, String, Bool, true, ◌&&◌, List, [], ◌∷◌, ◌==◌, leb, All, count,
  update_many, arith, Bool-cases, Option-cases, inl, inr,
}
use telephone_booth_operator.Store.{Db, is_in}
use telephone_booth_operator.Era.{open_era}
use telephone_booth_operator.Leases.{
  ClaimRequest, claim, is_grantable, grant, holds_lease, release, renew_lease, fail, find_work,
  give_back, extend, record_failure, max_attempts,
}
use telephone_booth_operator.Leases.Needs.{Runtime, WorkMessage}
use telephone_booth_operator.Leases.Claiming.{claimable_in, claim-none, claim-leaves}

-- A worker's claim, release, heartbeat or report of a failure, with a token and at a time that are
-- `allowed`. What it read before may be anything.
pub data LeaseStep (r : Runtime) (allowed : ℕ → ℕ → Type 0) (queue : List WorkMessage)
    : List WorkMessage → Type 0 where
  claims :
      (before db : Db) (seen : List WorkMessage) (q : ClaimRequest)
      → allowed q.token q.now
      → LeaseStep r allowed queue (claim r before db seen queue q).0
  releases :
      (id token user now : ℕ)
      → allowed token now
      → LeaseStep r allowed queue (release r queue id token user now).0
  renews :
      (db : Db) (id token seconds user now : ℕ)
      → allowed token now
      → LeaseStep r allowed queue (renew_lease r db queue id token seconds user now).0
  fails :
      (id token : ℕ) (error : String) (user now : ℕ)
      → allowed token now
      → LeaseStep r allowed queue (fail r queue id token error user now).0

pub data LeaseHistory (r : Runtime) (allowed : ℕ → ℕ → Type 0) (queue : List WorkMessage)
    : List WorkMessage → Type 0 where
  no_step : LeaseHistory r allowed queue queue
  and_then :
      {a b : List WorkMessage}
      → LeaseHistory r allowed queue a
      → LeaseStep r allowed a b
      → LeaseHistory r allowed queue b

-- A property of a row that each write of a step keeps.
pub record IsKept (r : Runtime) (allowed : ℕ → ℕ → Type 0) (P : WorkMessage → Type 0) : Type 0 where
  pub granted :
      (id e token expires now user : ℕ) (m : WorkMessage)
      → allowed token now
      → is_grantable id e now m ≡ true
      → P m
      → P (grant r token expires now user m)
  pub given_back :
      (id token user now : ℕ) (m : WorkMessage)
      → allowed token now
      → holds_lease r id token user now m ≡ true
      → P m
      → P (give_back m)
  pub renewed :
      (id token user now t : ℕ) (m : WorkMessage)
      → allowed token now
      → holds_lease r id token user now m ≡ true
      → P m
      → P (extend t m)
  pub failed :
      (id token user now : ℕ) (terminal : Bool) (error : String) (m : WorkMessage)
      → allowed token now
      → holds_lease r id token user now m ≡ true
      → P m
      → P (record_failure terminal error now m)

update-All :
    (P : WorkMessage → Type 0) (p : WorkMessage → Bool) (f : WorkMessage → WorkMessage)
    (xs : List WorkMessage)
    → ((m : WorkMessage) → p m ≡ true → P m → P (f m))
    → All P xs
    → All P (update_many p f xs)
update-All P p f [] k h = tt
update-All P p f (x ∷ xs) k h = elim (Bool-cases (p x)) [
  | inl e ↦ rw e (k x e h.0, update-All P p f xs k h.1)
  | inr e ↦ rw e (h.0, update-All P p f xs k h.1)
]

module _ (r : Runtime) (allowed : ℕ → ℕ → Type 0) (P : WorkMessage → Type 0)
    (kept : IsKept r allowed P) (queue : List WorkMessage) (h : All P queue) where
  claim-All :
      (before db : Db) (seen : List WorkMessage) (q : ClaimRequest)
      → allowed q.token q.now
      → All P (claim r before db seen queue q).0
  unfolding claim
  claim-All before db seen q ok = elim (Option-cases (open_era before)) [
    | inl k ↦ rw (claim, k) h
    | inr (e, k) ↦ elim (Option-cases (claimable_in r db seen queue q e)) [
      | inl f ↦ subst (All P) (sym (claim-none r before db seen queue q e k f)) h
      | inr (c, f) ↦ subst (All P) (sym (claim-leaves r before db seen queue q e c k f)) (
          update-All P (is_grantable c.id e q.now)
            (grant r q.token (q.now + q.lease_seconds * 1000) q.now q.user) queue
            (λ m g p.
              kept.granted c.id e q.token (q.now + q.lease_seconds * 1000) q.now q.user m ok g p)
            h)
    ]
  ]

  release-All :
      (id token user now : ℕ) → allowed token now → All P (release r queue id token user now).0
  unfolding release
  release-All id token user now ok =
      elim (Bool-cases (count (holds_lease r id token user now) queue == 0)) [
        | inl k ↦ rw (release, k) h
        | inr k ↦
            rw (release, k)
              (update-All P (holds_lease r id token user now) give_back queue
                (λ m g p. kept.given_back id token user now m ok g p) h)
      ]

  renew_lease-All :
      (db : Db) (id token seconds user now : ℕ)
      → allowed token now
      → All P (renew_lease r db queue id token seconds user now).0
  unfolding renew_lease
  renew_lease-All db id token seconds user now ok = elim (Option-cases (find_work queue id)) [
    | inl k ↦ rw (renew_lease, k) h
    | inr (m, k) ↦ elim (Option-cases (open_era db)) [
      | inl o ↦ rw (renew_lease, k, o) h
      | inr (e, o) ↦ elim (Bool-cases (is_in e m.installation_id)) [
        | inr i ↦ rw (renew_lease, k, o, i) h
        | inl i ↦
            elim (Bool-cases (
              count (λ m. holds_lease r id token user now m && is_in e m.installation_id) queue
              == 1)) [
                | inr c ↦ rw (renew_lease, k, o, i, c) h
                | inl c ↦
                    rw (renew_lease, k, o, i, c)
                      (update-All P
                        (λ m. holds_lease r id token user now m && is_in e m.installation_id)
                        (extend (now + seconds * 1000)) queue
                        (λ m g p.
                          kept.renewed id token user now (now + seconds * 1000) m ok
                            (ground (arith, g)) p)
                        h)
              ]
      ]
    ]
  ]

  fail-All :
      (id token : ℕ) (error : String) (user now : ℕ)
      → allowed token now
      → All P (fail r queue id token error user now).0
  unfolding fail
  fail-All id token error user now ok = elim (Option-cases (find_work queue id)) [
    | inl k ↦ rw (fail, k) h
    | inr (m, k) ↦ elim (Bool-cases (count (holds_lease r id token user now) queue == 0)) [
      | inl c ↦ rw (fail, k, c) h
      | inr c ↦
          let terminal = leb max_attempts m.processing.attempt_count in
          rw (fail, k, c)
            (update-All P (holds_lease r id token user now) (record_failure terminal error now)
              queue (λ x g p. kept.failed id token user now terminal error x ok g p) h)
    ]
  ]

pub LeaseHistory-All :
    {r : Runtime} {allowed : ℕ → ℕ → Type 0} (P : WorkMessage → Type 0) {a b : List WorkMessage}
    → IsKept r allowed P
    → All P a
    → LeaseHistory r allowed a b
    → All P b
LeaseHistory-All P k h no_step = h
LeaseHistory-All {r} {allowed} P k h (and_then {a} t (claims before db seen q ok)) =
    claim-All r allowed P k a (LeaseHistory-All P k h t) before db seen q ok
LeaseHistory-All {r} {allowed} P k h (and_then {a} t (releases id token user now ok)) =
    release-All r allowed P k a (LeaseHistory-All P k h t) id token user now ok
LeaseHistory-All {r} {allowed} P k h (and_then {a} t (renews db id token seconds user now ok)) =
    renew_lease-All r allowed P k a (LeaseHistory-All P k h t) db id token seconds user now ok
LeaseHistory-All {r} {allowed} P k h (and_then {a} t (fails id token error user now ok)) =
    fail-All r allowed P k a (LeaseHistory-All P k h t) id token error user now ok
