-- ===== src/Tests/Pushes.antt =====
-- Push events, run on a row that has nothing to send yet.
use telephone_booth_operator.Common.{◌≤◌, ◌≡◌, refl, true, false, none, some, List, [], ◌∷◌, arith}
use telephone_booth_operator.Push.{
  PushRow, Push, fresh_row, update_message_alert_state, alert_is_due, same_alert, take_alert,
  take_badge, complete_badge, badge_is_due, same_lease,
}
use telephone_booth_operator.Push.Crossing.{
  Operation, observe, receive, refresh, reconcile, alerts, rising, alerts-rising,
}
use telephone_booth_operator.Push.Alerts
use telephone_booth_operator.Push.Alerts.{
  AlertState, IsAlertState, AlertHistory, AlertHistory-IsAlertState,
}
use telephone_booth_operator.Push.Badges
use telephone_booth_operator.Push.Badges.{
  BadgeState, IsBadgeState, BadgeHistory, BadgeHistory-rises,
}

abbrev quiet : Push
quiet = record { queue = none; alert = none }

abbrev looks : List Operation
looks = observe 3 ∷ receive 5 ∷ refresh 1 ∷ reconcile 2 ∷ observe 6 ∷ []

alerts-rising_example : alerts 5 quiet looks ≡ rising 5 false looks
alerts-rising_example = alerts-rising 5 quiet looks

abbrev unalerted : AlertState
unalerted = record { row = fresh_row 0 0 0; taken = [] }

abbrev alerted : PushRow
alerted = update_message_alert_state (some (fresh_row 0 0 0)) 3 true

unalerted-IsAlertState : IsAlertState unalerted
unalerted-IsAlertState = record { decreasing = tt; past = tt; renewed = λ h. tt }

AlertHistory-IsAlertState_example :
    IsAlertState (record { row = take_alert alerted alerted; taken = alerted.badge_version ∷ [] })
unfolding update_message_alert_state alert_is_due same_alert
AlertHistory-IsAlertState_example = AlertHistory-IsAlertState unalerted-IsAlertState (
    Alerts.AlertHistory.and_then
      (Alerts.AlertHistory.and_then Alerts.AlertHistory.idle (Alerts.AlertStep.write 3 true))
      (Alerts.AlertStep.take_version alerted refl refl))

abbrev outdated : PushRow
outdated = record (fresh_row 0 4 2) { badge_delivered_version = 1 }

abbrev unsent : BadgeState
unsent = record { row = outdated; claims = [] }

unsent-IsBadgeState : IsBadgeState unsent
unsent-IsBadgeState = record { bounded = omega arith; current = tt }

abbrev claimed : BadgeState
claimed = record {
  row = take_badge 7 500 outdated;
  claims = record { count = 4; version = 2; lease_token = 7 } ∷ [];
}

-- A claim, and its completion.
abbrev delivered : BadgeState
delivered = record {
  row = complete_badge (record { count = 4; version = 2; lease_token = 7 }) claimed.row;
  claims = claimed.claims;
}

BadgeHistory-rises_example : IsBadgeState delivered × (1 ≤ delivered.row.badge_delivered_version)
unfolding badge_is_due same_lease
BadgeHistory-rises_example = BadgeHistory-rises unsent-IsBadgeState (
    Badges.BadgeHistory.and_then
      (Badges.BadgeHistory.and_then Badges.BadgeHistory.idle
        (Badges.BadgeStep.claim outdated 7 100 500 refl refl (λ h. ground (arith, h), tt)))
      (Badges.BadgeStep.complete (record { count = 4; version = 2; lease_token = 7 }) [] [] refl))
