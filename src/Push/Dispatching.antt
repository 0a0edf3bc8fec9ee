-- ===== src/Push/Dispatching.antt =====
-- packages/api/src/lib/push-events.ts, `dispatchModerationBadges`: one badge after the other.
use telephone_booth_operator.Common.{ℕ, zero, suc, ◌+◌, Bool, List, [], ◌∷◌, if◌then◌else◌}
use telephone_booth_operator.Push.{
  PushRow, BadgeClaim, badge_is_due, take_badge, release_badge, complete_badge,
  badge_lease_duration_ms, badge_dispatch_batch_size,
}

-- What `dispatchModerationBadges` leaves: the row, and the badges that were sent.
pub record Dispatched : Type 0 where
  pub row : PushRow
  pub sent : List ℕ

unfoldable pub also_sent : ℕ → Dispatched → Dispatched
also_sent badge d = record d { sent = badge ∷ d.sent }

unfoldable pub claim_of : ℕ → PushRow → BadgeClaim
claim_of token row = record {
  count = row.badge_count;
  version = row.badge_version;
  lease_token = token;
}

-- The loop, with no other replica at work. `succeeds k` says whether the sending with k rounds left
-- succeeds; k is also the lease token. The fence of a sending only renews the lease.
unfoldable pub dispatch_rounds : (ℕ → Bool) → ℕ → ℕ → PushRow → Dispatched
unfolding badge_is_due take_badge release_badge complete_badge also_sent claim_of
dispatch_rounds succeeds now zero row = record { row = row; sent = [] }
dispatch_rounds succeeds now (suc k) row =
    let taken = take_badge k (now + badge_lease_duration_ms) row in
    let delivered = complete_badge (claim_of k row) taken in
    let rest = dispatch_rounds succeeds now k delivered in
    if badge_is_due now row
    then if succeeds k
      then also_sent row.badge_count rest
      else record { row = release_badge k taken; sent = [] }
    else record { row = row; sent = [] }

unfoldable pub dispatch_badges : Bool → (ℕ → Bool) → ℕ → PushRow → Dispatched
unfolding dispatch_rounds
dispatch_badges enabled succeeds now row =
    if enabled
    then dispatch_rounds succeeds now badge_dispatch_batch_size row
    else record { row = row; sent = [] }
