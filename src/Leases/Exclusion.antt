-- ===== src/Leases/Exclusion.antt =====
-- packages/api/src/routes/message-processing.ts, `POST /claim`: what a claim has checked of the message that
-- it picks, and the lease that it leaves.
use telephone_booth_operator.Common.{
  ℕ, ◌+◌, ◌*◌, ◌≤◌, ◌≡◌, ◌≢◌, refl, sym, subst, Bool, true, false, some, List, [], ◌∷◌, ◌==◌,
  ==_iff, All, count, find_first-holds, update_many, any, all, arith, Bool-cases, Option-cases, inl,
  inr, is_none,
}
use telephone_booth_operator.Store.{Db}
use telephone_booth_operator.Era.{lock_installation, open_era}
use telephone_booth_operator.Leases.{
  ClaimRequest, claim, is_claimable, is_candidate, is_grantable, grant, grant_lease, active_lease,
  can_be_given, candidates_of, find_work,
}
use telephone_booth_operator.Leases.Needs.{Runtime, WorkMessage, processing_needs, step_eq}
use telephone_booth_operator.Leases.Claiming.{claimable_in, claim-answers, claim-leaves}

abbrev pub is_work : ℕ → WorkMessage → Bool
is_work id m = m.id == id

-- The lease that a claim grants: held by the caller's token until it expires.
pub record IsLeased (r : Runtime) (q : ClaimRequest) (m : WorkMessage) : Type 0 where
  pub token : m.processing.lease_token_hash ≡ some (r.token_digest q.token)
  pub expires : m.processing.lease_expires_at ≡ some (q.now + q.lease_seconds * 1000)
  pub holder : m.processing.leased_by ≡ some q.user

abbrev pub LeasedTo : Runtime → ClaimRequest → ℕ → WorkMessage → Type 0
LeasedTo r q id m = is_work id m ≡ true → IsLeased r q m

grantable-le-work_in :
    (e id now : ℕ) (queue : List WorkMessage)
    → count (is_grantable id e now) queue ≤ count (is_work id) queue
unfolding is_grantable
grantable-le-work_in e id now [] = omega arith
grantable-le-work_in e id now (m ∷ ms) = ground (arith, grantable-le-work_in e id now ms)

not_grantable_in :
    (e id now : ℕ) (m : WorkMessage) → is_work id m ≡ false → is_grantable id e now m ≡ false
unfolding is_grantable
not_grantable_in e id now m w = ground (arith, w)

module _ (r : Runtime) (q : ClaimRequest) (e id : ℕ) where
  abbrev pub granted : List WorkMessage → List WorkMessage
  granted queue =
      update_many (is_grantable id e q.now)
        (grant r q.token (q.now + q.lease_seconds * 1000) q.now q.user) queue

  no_work-LeasedTo :
      (queue : List WorkMessage)
      → count (is_work id) queue ≡ 0
      → All (LeasedTo r q id) (granted queue)
  unfolding grant grant_lease
  no_work-LeasedTo [] z = tt
  no_work-LeasedTo (m ∷ ms) z = elim (Bool-cases (is_grantable id e q.now m)) [
    | inl k ↦ rw k ((λ h. ground (arith, h, z)), no_work-LeasedTo ms (ground arith))
    | inr k ↦ rw k ((λ h. ground (arith, h, z)), no_work-LeasedTo ms (ground arith))
  ]

  granted-LeasedTo :
      (queue : List WorkMessage)
      → count (is_work id) queue ≤ 1
      → count (is_grantable id e q.now) queue ≡ 1
      → All (LeasedTo r q id) (granted queue)
  unfolding grant grant_lease
  granted-LeasedTo [] u g = tt
  granted-LeasedTo (m ∷ ms) u g = elim (Bool-cases (is_work id m)) [
    | inl w ↦
        let rest : count (is_work id) ms ≡ 0 = ground (arith, u, w) in
        let hit : is_grantable id e q.now m ≡ true =
          ground (arith, rest, g, grantable-le-work_in e id q.now ms) in
        rw hit
          ((λ _. record { token = refl; expires = refl; holder = refl }), no_work-LeasedTo ms rest)
    | inr w ↦
        let miss : is_grantable id e q.now m ≡ false = not_grantable_in e id q.now m w in
        rw miss (
          (λ h. ground (arith, h, w)),
          granted-LeasedTo ms (ground (arith, u, w)) (ground (arith, g, miss)),
        )
  ]

pub find_work-All :
    (P : WorkMessage → Type 0) (queue : List WorkMessage) (id : ℕ) (m : WorkMessage)
    → All P queue
    → find_work queue id ≡ some m
    → P m
unfolding find_work
find_work-All P [] id m h f = ground (arith, f)
find_work-All P (x ∷ xs) id m h f = elim (Bool-cases (is_work id x)) [
  | inl k ↦ let same : x ≡ m = ground (arith, f, k) in subst P same h.0
  | inr k ↦ find_work-All P xs id m h.1 (ground (arith, f, k))
]

pub find_work-id :
    (queue : List WorkMessage) (id : ℕ) (m : WorkMessage) → find_work queue id ≡ some m → m.id ≡ id
unfolding find_work
find_work-id [] id m f = ground (arith, f)
find_work-id (x ∷ xs) id m f = elim (Bool-cases (is_work id x)) [
  | inl k ↦
      let same : x ≡ m = ground (arith, f, k) in
      let e : x.id ≡ id = (==_iff x.id id).0 k in subst (λ y. y.id ≡ id) same e
  | inr k ↦ find_work-id xs id m (ground (arith, f, k))
]

grantable-found :
    (queue : List WorkMessage) (id e now : ℕ) (m : WorkMessage)
    → count (is_work id) queue ≤ 1
    → count (is_grantable id e now) queue ≡ 1
    → find_work queue id ≡ some m
    → is_grantable id e now m ≡ true
unfolding find_work
grantable-found [] id e now m u g f = ground (arith, f)
grantable-found (x ∷ xs) id e now m u g f = elim (Bool-cases (is_work id x)) [
  | inl k ↦
      let same : x ≡ m = ground (arith, f, k) in
      let rest : count (is_grantable id e now) xs ≤ count (is_work id) xs =
        grantable-le-work_in e id now xs in
      let hit : is_grantable id e now x ≡ true = ground (arith, rest, u, g, k) in
      subst (λ y. is_grantable id e now y ≡ true) same hit
  | inr k ↦
      let miss : is_grantable id e now x ≡ false = not_grantable_in e id now x k in
      grantable-found xs id e now m (ground (arith, u, k)) (ground (arith, g, miss))
        (ground (arith, f, k))
]

-- A claim that picked a message: its candidate, and what it wrote.
pub record IsClaimed (r : Runtime) (before db : Db) (seen queue : List WorkMessage)
    (q : ClaimRequest) (m : WorkMessage) : Type 0 where
  pub era : ℕ
  pub current : open_era before ≡ some era
  pub candidate : WorkMessage
  pub same : m.id ≡ candidate.id
  pub found : find_work queue m.id ≡ some m
  pub claimable : is_claimable r db queue era q.now q.capabilities candidate ≡ true
  pub left : (claim r before db seen queue q).0 ≡ granted r q era m.id queue

pub claim-IsClaimed :
    (r : Runtime) (before db : Db) (seen queue : List WorkMessage) (q : ClaimRequest)
    (m : WorkMessage)
    → (claim r before db seen queue q).1 ≡ some m
    → IsClaimed r before db seen queue q m
claim-IsClaimed r before db seen queue q m h =
    let answer = claim-answers r before db seen queue q in
    elim (Option-cases (open_era before)) [
      | inl k ↦ ground (arith, answer, h, k)
      | inr (e, k) ↦ elim (Option-cases (claimable_in r db seen queue q e)) [
        | inl f ↦ ground (arith, answer, h, k, f)
        | inr (c, f) ↦
            let found : find_work queue c.id ≡ some m = ground (arith, answer, h, k, f) in
            let same = find_work-id queue c.id m found in
            record {
              era = e;
              current = k;
              candidate = c;
              same = same;
              found = subst (λ i. find_work queue i ≡ some m) (sym same) found;
              claimable =
                  find_first-holds (is_claimable r db queue e q.now q.capabilities)
                    (candidates_of e seen) c f;
              left =
                  subst (λ i. (claim r before db seen queue q).0 ≡ granted r q e i queue) (sym same)
                    (claim-leaves r before db seen queue q e c k f);
            }
      ]
    ]

-- What the transaction of a claim has found of the message that it picked.
claimed-checks :
    (r : Runtime) (before db : Db) (seen queue : List WorkMessage) (q : ClaimRequest)
    (m : WorkMessage) (c : IsClaimed r before db seen queue q m)
    → (lock_installation db c.era ≡ true)
      × (count (is_grantable m.id c.era q.now) queue ≡ 1)
      × (can_be_given r q.now q.capabilities m ≡ true)
unfolding is_claimable
claimed-checks r before db seen queue q m c =
    let id = c.candidate.id in
    let found : find_work queue id ≡ some m =
      subst (λ i. find_work queue i ≡ some m) c.same c.found in
    let one : count (is_grantable id c.era q.now) queue ≡ 1 =
      (==_iff (count (is_grantable id c.era q.now) queue) 1).0 (ground (arith, c.claimable)) in
    (
      ground (arith, c.claimable),
      subst (λ i. count (is_grantable i c.era q.now) queue ≡ 1) (sym c.same) one,
      ground (arith, c.claimable, found),
    )

-- What a claim promises of the message it picks, whatever has changed since it read the candidates:
-- it is of the era that was open, which is still open, awaits moderation there and has not failed for
-- good, no lease on it is running, and the caller can do all that it needs, which is something.
-- Afterwards its row is leased to the caller until the lease expires. Ids are unique.
pub claim-grants :
    (r : Runtime) (before db : Db) (seen queue : List WorkMessage) (q : ClaimRequest)
    (m : WorkMessage)
    → count (is_work m.id) queue ≤ 1
    → (claim r before db seen queue q).1 ≡ some m
    → (e : ℕ) × (open_era before ≡ some e)
      × (lock_installation db e ≡ true)
      × (is_candidate e m ≡ true)
      × (active_lease q.now m ≡ false)
      × (processing_needs r m ≢ [])
      × (all (λ need. any (step_eq need) q.capabilities) (processing_needs r m) ≡ true)
      × All (LeasedTo r q m.id) (claim r before db seen queue q).0
unfolding can_be_given is_grantable
claim-grants r before db seen queue q m unique h =
    let c = claim-IsClaimed r before db seen queue q m h in
    let (live, one, given) = claimed-checks r before db seen queue q m c in
    let hit = grantable-found queue m.id c.era q.now m unique one c.found in
    (
      c.era,
      c.current,
      live,
      ground (arith, hit),
      ground (arith, given),
      (λ z. ground (arith, given, z)),
      ground (arith, given),
      subst (All (LeasedTo r q m.id)) (sym c.left)
          (granted-LeasedTo r q c.era m.id queue unique one),
    )

-- A message on which a lease is running is not claimed.
pub claim-free :
    (r : Runtime) (before db : Db) (seen queue : List WorkMessage) (q : ClaimRequest)
    (m : WorkMessage)
    → (claim r before db seen queue q).1 ≡ some m
    → (find_work queue m.id ≡ some m) × (active_lease q.now m ≡ false) × (processing_needs r m ≢ [])
unfolding can_be_given
claim-free r before db seen queue q m h =
    let c = claim-IsClaimed r before db seen queue q m h in
    let (live, one, given) = claimed-checks r before db seen queue q m c in
    (c.found, ground (arith, given), (λ z. ground (arith, given, z)))

-- A message that a claim picks has not failed for good, where ids are unique.
pub claim-unfailed :
    (r : Runtime) (before db : Db) (seen queue : List WorkMessage) (q : ClaimRequest)
    (m : WorkMessage)
    → count (is_work m.id) queue ≤ 1
    → (claim r before db seen queue q).1 ≡ some m
    → is_none m.processing.failed_at ≡ true
unfolding is_candidate
claim-unfailed r before db seen queue q m unique h =
    let (e, k, live, candidate, idle, needs, capable, leased) =
      claim-grants r before db seen queue q m unique h in
    ground (arith, candidate)
