-- ===== src/Push/Alerts.antt =====
-- packages/api/src/lib/push-events.ts: the alert of new messages under concurrent dispatchers.
use telephone_booth_operator.Common.{
  ℕ, ◌+◌, ◌≤◌, ◌<◌, ◌≡◌, Bool, true, ◌&&◌, some, List, [], ◌∷◌, ◌==◌, ==_iff, All, All-imp, arith,
  Bool-cases, inl, inr, not,
}
use telephone_booth_operator.Push.{
  PushRow, update_message_alert_state, alert_is_due, same_alert, take_alert,
}

-- The row, and the versions whose alert a dispatcher has taken, the latest first.
pub record AlertState : Type 0 where
  pub row : PushRow
  pub taken : List ℕ

-- Any number of dispatchers and writers take turns. A dispatcher reads a row, at any earlier time,
-- and then compares and updates; the row that it read may be out of date.
pub data AlertStep (s : AlertState) : AlertState → Type 0 where
  write :
      (n : ℕ) (should_alert : Bool)
      → AlertStep s
          (record { row = update_message_alert_state (some s.row) n should_alert; taken = s.taken })
  take_version :
      (read : PushRow)
      → alert_is_due read ≡ true
      → same_alert read s.row ≡ true
      → AlertStep s (record { row = take_alert read s.row; taken = read.badge_version ∷ s.taken })

pub data AlertHistory (s : AlertState) : AlertState → Type 0 where
  idle : AlertHistory s s
  and_then : {a b : AlertState} → AlertHistory s a → AlertStep a b → AlertHistory s b

abbrev pub AreDecreasing : List ℕ → Type 0
AreDecreasing [] = Unit
AreDecreasing (v ∷ vs) = All (λ w. w < v) vs × AreDecreasing vs

-- The versions taken so far are in the past, and an active row has a version of its own.
pub record IsAlertState (s : AlertState) : Type 0 where
  pub decreasing : AreDecreasing s.taken
  pub past : All (λ v. v ≤ s.row.badge_version) s.taken
  pub renewed : s.row.active ≡ true → All (λ v. v < s.row.badge_version) s.taken

raise-lt : (a b : ℕ) (vs : List ℕ) → a < b → All (λ v. v ≤ a) vs → All (λ v. v < b) vs
raise-lt a b [] h k = tt
raise-lt a b (v ∷ vs) h k = (omega (arith, h, k.0), raise-lt a b vs h k.1)

raise-le : (a b : ℕ) (vs : List ℕ) → a < b → All (λ v. v ≤ a) vs → All (λ v. v ≤ b) vs
raise-le a b [] h k = tt
raise-le a b (v ∷ vs) h k = (omega (arith, h, k.0), raise-le a b vs h k.1)

write-IsAlertState :
    (s : AlertState) (n : ℕ) (should_alert : Bool)
    → IsAlertState s
    → IsAlertState
        (record { row = update_message_alert_state (some s.row) n should_alert; taken = s.taken })
unfolding update_message_alert_state
write-IsAlertState s n should_alert i =
    elim (Bool-cases (not should_alert && s.row.badge_count == n)) [
      | inl k ↦ record { decreasing = i.decreasing; past = rw k i.past; renewed = rw k i.renewed }
      | inr k ↦
          let older : s.row.badge_version < s.row.badge_version + 1 = omega arith in
          record {
            decreasing = i.decreasing;
            past =
                rw k (raise-le s.row.badge_version (s.row.badge_version + 1) s.taken older i.past);
            renewed =
                rw k (λ _.
                  raise-lt s.row.badge_version (s.row.badge_version + 1) s.taken older i.past);
          }
    ]

take-IsAlertState :
    (s : AlertState) (read : PushRow)
    → same_alert read s.row ≡ true
    → IsAlertState s
    → IsAlertState (record { row = take_alert read s.row; taken = read.badge_version ∷ s.taken })
unfolding same_alert take_alert
take-IsAlertState s read k i =
    let same : s.row.badge_version ≡ read.badge_version =
      ground (arith, k, ==_iff s.row.badge_version read.badge_version) in
    let newer = i.renewed (ground (arith, k)) in
    record {
      decreasing = (All-imp s.taken (λ v h. omega (arith, h, same)) newer, i.decreasing);
      past = (omega (arith, same), i.past);
      renewed = λ h. ground (arith, h);
    }

-- However dispatchers and writers interleave, and however old the rows that they read are, each
-- version of the alert is taken at most once, and versions are taken in rising order.
pub AlertHistory-IsAlertState :
    {s s' : AlertState} → IsAlertState s → AlertHistory s s' → IsAlertState s'
AlertHistory-IsAlertState i idle = i
AlertHistory-IsAlertState i (and_then {a} h (write n should_alert)) =
    write-IsAlertState a n should_alert (AlertHistory-IsAlertState i h)
AlertHistory-IsAlertState i (and_then {a} h (take_version read due same)) =
    take-IsAlertState a read same (AlertHistory-IsAlertState i h)
