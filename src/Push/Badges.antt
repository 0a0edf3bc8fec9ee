-- ===== src/Push/Badges.antt =====
-- packages/api/src/lib/push-events.ts: the badge under concurrent dispatchers, each with a lease.
use telephone_booth_operator.Common.{
  ℕ, ◌≤◌, ◌≡◌, ◌≢◌, refl, sym, ◌∙◌, Option, subst, true, none, some, List, [], ◌∷◌, ◌++◌, ==_iff,
  All, arith, Bool-cases, inl, inr, ==?_iff,
}
use telephone_booth_operator.Push.{
  PushRow, BadgeClaim, badge_is_due, same_lease, take_badge, holds_badge, release_badge,
  renew_badge, complete_badge, receive_message, observe_queue, refresh_badge, reconcile_badge,
}

-- The row, and the claims of all dispatchers so far, done or not.
pub record BadgeState : Type 0 where
  pub row : PushRow
  pub claims : List BadgeClaim

abbrev pub IsNew : ℕ → BadgeState → Type 0
IsNew token s = (s.row.badge_lease_token ≢ some token) × All (λ c. c.lease_token ≢ token) s.claims

-- The transactions that write the row.
pub data QueueWrite (row : PushRow) : Option PushRow → Type 0 where
  receives :
      (alert : Option PushRow) (threshold n : ℕ)
      → QueueWrite row
          (receive_message (record { queue = some row; alert = alert }) threshold n).0.queue
  observes :
      (alert : Option PushRow) (threshold n : ℕ)
      → QueueWrite row
          (observe_queue (record { queue = some row; alert = alert }) threshold n).0.queue
  refreshes :
      (alert : Option PushRow) (threshold n : ℕ)
      → QueueWrite row
          (refresh_badge (record { queue = some row; alert = alert }) threshold n).queue
  reconciles :
      (alert : Option PushRow) (threshold n : ℕ)
      → QueueWrite row
          (reconcile_badge (record { queue = some row; alert = alert }) threshold n).0.queue

-- What they keep of it.
pub record IsWritten (row row' : PushRow) : Type 0 where
  pub delivered : row'.badge_delivered_version ≡ row.badge_delivered_version
  pub version : row.badge_version ≤ row'.badge_version
  pub lease : row'.badge_lease_token ≡ row.badge_lease_token

QueueWrite-IsWritten :
    {row : PushRow} {o : Option PushRow}
    → QueueWrite row o
    → (row' : PushRow) → o ≡ some row'
    → IsWritten row row'
unfolding receive_message observe_queue refresh_badge reconcile_badge
QueueWrite-IsWritten (receives alert threshold n) row' h = record {
  delivered = ground (arith, h);
  version = ground (arith, h);
  lease = ground (arith, h);
}
QueueWrite-IsWritten (observes alert threshold n) row' h = record {
  delivered = ground (arith, h);
  version = ground (arith, h);
  lease = ground (arith, h);
}
QueueWrite-IsWritten (refreshes alert threshold n) row' h = record {
  delivered = ground (arith, h);
  version = ground (arith, h);
  lease = ground (arith, h);
}
QueueWrite-IsWritten (reconciles alert threshold n) row' h = record {
  delivered = ground (arith, h);
  version = ground (arith, h);
  lease = ground (arith, h);
}

-- A dispatcher acts on a claim of its own at any later time.
pub data BadgeStep (s : BadgeState) : BadgeState → Type 0 where
  write :
      (row : PushRow)
      → QueueWrite s.row (some row)
      → BadgeStep s (record { row = row; claims = s.claims })
  claim :
      (read : PushRow) (token now expires_at : ℕ)
      → badge_is_due now read ≡ true
      → same_lease read s.row ≡ true
      → IsNew token s
      → BadgeStep s (record {
        row = take_badge token expires_at s.row;
        claims =
            record { count = read.badge_count; version = read.badge_version; lease_token = token }
            ∷ s.claims;
      })
  renew :
      (c : BadgeClaim) (expires_at : ℕ)
      → BadgeStep s (record { row = renew_badge c.lease_token expires_at s.row; claims = s.claims })
  release :
      (c : BadgeClaim)
      → BadgeStep s (record { row = release_badge c.lease_token s.row; claims = s.claims })
  complete :
      (c : BadgeClaim) (before after : List BadgeClaim)
      → s.claims ≡ before ++ c ∷ after
      → BadgeStep s (record { row = complete_badge c s.row; claims = s.claims })

pub data BadgeHistory (s : BadgeState) : BadgeState → Type 0 where
  idle : BadgeHistory s s
  and_then : {a b : BadgeState} → BadgeHistory s a → BadgeStep a b → BadgeHistory s b

-- The version of the claim that holds the lease lies between the one delivered and the current one.
abbrev pub IsCurrent : PushRow → BadgeClaim → Type 0
IsCurrent row c =
    row.badge_lease_token ≡ some c.lease_token
    → (row.badge_delivered_version ≤ c.version) × (c.version ≤ row.badge_version)

pub record IsBadgeState (s : BadgeState) : Type 0 where
  pub bounded : s.row.badge_delivered_version ≤ s.row.badge_version
  pub current : All (IsCurrent s.row) s.claims

-- A row whose versions do not shrink and whose lease is the same, or given up.
IsCurrent-kept :
    (row row' : PushRow) (cs : List BadgeClaim)
    → row'.badge_delivered_version ≡ row.badge_delivered_version
    → row.badge_version ≤ row'.badge_version
    → ((t : ℕ) → row'.badge_lease_token ≡ some t → row.badge_lease_token ≡ some t)
    → All (IsCurrent row) cs
    → All (IsCurrent row') cs
IsCurrent-kept row row' [] d v t h = tt
IsCurrent-kept row row' (c ∷ cs) d v t h = (
  (λ k.
      let (low, high) = h.0 (t c.lease_token k) in (omega (arith, low, d), omega (arith, high, v))),
  IsCurrent-kept row row' cs d v t h.1,
)

IsCurrent-new :
    (row : PushRow) (token expires_at : ℕ) (cs : List BadgeClaim)
    → All (λ c. c.lease_token ≢ token) cs
    → All (IsCurrent (take_badge token expires_at row)) cs
unfolding take_badge
IsCurrent-new row token expires_at [] h = tt
IsCurrent-new row token expires_at (c ∷ cs) h =
    ((λ k. elim (h.0 (ground (arith, k))) [ ]), IsCurrent-new row token expires_at cs h.1)

IsCurrent-free :
    (row : PushRow) (cs : List BadgeClaim) → row.badge_lease_token ≡ none → All (IsCurrent row) cs
IsCurrent-free row [] h = tt
IsCurrent-free row (c ∷ cs) h = ((λ k. ground (arith, h, k)), IsCurrent-free row cs h)

All-middle :
    (P : BadgeClaim → Type 0) (before after : List BadgeClaim) (c : BadgeClaim)
    → All P (before ++ c ∷ after)
    → P c
All-middle P [] after c h = h.0
All-middle P (b ∷ bs) after c h = All-middle P bs after c h.1

-- Each step keeps the state well-formed, and the delivered version never goes back.
pub BadgeStep-IsBadgeState :
    {s s' : BadgeState}
    → IsBadgeState s
    → BadgeStep s s'
    → IsBadgeState s' × (s.row.badge_delivered_version ≤ s'.row.badge_delivered_version)
unfolding take_badge renew_badge release_badge complete_badge same_lease badge_is_due holds_badge
BadgeStep-IsBadgeState {s} i (write row w) =
    let kept = QueueWrite-IsWritten w row refl in
    (
      record {
        bounded = omega (arith, i.bounded, kept.delivered, kept.version);
        current =
            IsCurrent-kept s.row row s.claims kept.delivered kept.version
              (λ t k. sym kept.lease ∙ k) i.current;
      },
      omega (arith, kept.delivered),
    )
BadgeStep-IsBadgeState {s} i (claim read token now expires_at due same new) =
    let version : s.row.badge_version ≡ read.badge_version =
      ground (arith, same, ==_iff s.row.badge_version read.badge_version) in
    (
      record {
        bounded = i.bounded;
        current = (
          (λ _. (omega (arith, i.bounded, version), omega (arith, version))),
          IsCurrent-new s.row token expires_at s.claims new.1,
        );
      },
      omega arith,
    )
BadgeStep-IsBadgeState {s} i (renew c expires_at) =
    let row = renew_badge c.lease_token expires_at s.row in
    (
      record {
        bounded = ground (arith, i.bounded);
        current =
            IsCurrent-kept s.row row s.claims (ground arith) (ground arith)
              (λ t h. ground (arith, h)) i.current;
      },
      ground arith,
    )
BadgeStep-IsBadgeState {s} i (release c) =
    let row = release_badge c.lease_token s.row in
    (
      record {
        bounded = ground (arith, i.bounded);
        current =
            IsCurrent-kept s.row row s.claims (ground arith) (ground arith)
              (λ t h. ground (arith, h)) i.current;
      },
      ground arith,
    )
BadgeStep-IsBadgeState {s} i (complete c before after mine) =
    let row = complete_badge c s.row in
    elim (Bool-cases (holds_badge c.lease_token s.row)) [
      | inl k ↦
          let held : s.row.badge_lease_token ≡ some c.lease_token =
            (==?_iff s.row.badge_lease_token (some c.lease_token)).0 k in
          let (low, high) =
            All-middle (IsCurrent s.row) before after c
              (subst (All (IsCurrent s.row)) mine i.current) held in
          (
            record {
              bounded = ground (arith, k, high);
              current = IsCurrent-free row s.claims (ground (arith, k));
            },
            ground (arith, k, low),
          )
      | inr k ↦ (
        record {
          bounded = ground (arith, k, i.bounded);
          current =
              IsCurrent-kept s.row row s.claims (ground (arith, k)) (ground (arith, k))
                (λ t h. ground (arith, k, h)) i.current;
        },
        ground (arith, k),
      )
    ]

-- However dispatchers, lost leases and writers interleave, the delivered version of the badge never
-- goes back and never overtakes the current one: a dispatcher that lost its lease cannot report an
-- old badge over a newer one.
pub BadgeHistory-rises :
    {s s' : BadgeState}
    → IsBadgeState s
    → BadgeHistory s s'
    → IsBadgeState s' × (s.row.badge_delivered_version ≤ s'.row.badge_delivered_version)
BadgeHistory-rises i idle = (i, omega arith)
BadgeHistory-rises i (and_then h step) =
    let (good, up) = BadgeHistory-rises i h in
    let (next, more) = BadgeStep-IsBadgeState good step in (next, omega (arith, up, more))
