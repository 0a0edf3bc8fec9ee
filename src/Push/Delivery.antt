-- ===== src/Push/Delivery.antt =====
-- packages/api/src/lib/push-events.ts, `dispatchModerationBadges`: one dispatcher at work.
use telephone_booth_operator.Common.{
  ℕ, suc, ◌+◌, ◌≡◌, refl, sym, subst, Bool, true, false, not, none, some, [], ◌∷◌, if◌then◌else◌,
  ltb, arith,
}
use telephone_booth_operator.Push.{
  PushRow, badge_is_due, take_badge, complete_badge, release_badge, holds_badge,
  badge_lease_duration_ms,
}
use telephone_booth_operator.Push.Dispatching.{
  Dispatched, dispatch_rounds, dispatch_badges, claim_of,
}

abbrev pub is_outdated : PushRow → Bool
is_outdated row = ltb row.badge_delivered_version row.badge_version

-- No lease runs at a time.
abbrev pub is_unleased : ℕ → PushRow → Bool
is_unleased now row = not (elim row.badge_lease_expires_at [ none ↦ false | some t ↦ ltb now t ])

-- The row after a round that delivers.
delivered_row : ℕ → ℕ → PushRow → PushRow
unfolding claim_of
delivered_row now k row =
    complete_badge (claim_of k row) (take_badge k (now + badge_lease_duration_ms) row)

round-fails :
    (succeeds : ℕ → Bool) (now k : ℕ) (row : PushRow)
    → succeeds k ≡ false
    → badge_is_due now row ≡ true
    → dispatch_rounds succeeds now (suc k) row ≡ record {
      row = release_badge k (take_badge k (now + badge_lease_duration_ms) row);
      sent = [];
    }
unfolding dispatch_rounds
round-fails succeeds now k row broken due = rw (due, broken) refl

released_row :
    (now later k : ℕ) (row : PushRow)
    → badge_is_due now row ≡ true
    → let r = release_badge k (take_badge k (now + badge_lease_duration_ms) row) in
      (r.badge_delivered_version ≡ row.badge_delivered_version) × (badge_is_due later r ≡ true)
unfolding badge_is_due take_badge release_badge holds_badge
released_row now later k row due = (ground arith, ground (arith, due))

dispatch_badges-rounds :
    (succeeds : ℕ → Bool) (now : ℕ) (row : PushRow)
    → dispatch_badges true succeeds now row ≡ dispatch_rounds succeeds now 16 row
unfolding dispatch_badges
dispatch_badges-rounds succeeds now row = refl

-- What is left when the badge is up to date.
abbrev pub Delivers : PushRow → Dispatched → Type 0
Delivers row d =
    (d.sent ≡ (if is_outdated row then row.badge_count ∷ [] else []))
    × (d.row.badge_delivered_version ≡ row.badge_version)
    × (d.row.badge_version ≡ row.badge_version)

abbrev pub Fails : ℕ → PushRow → Dispatched → Type 0
Fails later row d =
    (d.sent ≡ [])
    × (d.row.badge_delivered_version ≡ row.badge_delivered_version)
    × (badge_is_due later d.row ≡ true)

-- When sending fails, the dispatch of a badge that is due stops, no version counts as delivered by
-- it, and the row is due again at once, at any later time.
pub dispatch_badges-Fails :
    (succeeds : ℕ → Bool) (now later : ℕ) (row : PushRow)
    → ((k : ℕ) → succeeds k ≡ false)
    → badge_is_due now row ≡ true
    → Fails later row (dispatch_badges true succeeds now row)
dispatch_badges-Fails succeeds now later row broken due =
    let (same, again) = released_row now later 15 row due in
    subst (Fails later row) (sym (dispatch_badges-rounds succeeds now row)) (
      subst (Fails later row) (sym (round-fails succeeds now 15 row (broken 15) due))
        (refl, same, again))
