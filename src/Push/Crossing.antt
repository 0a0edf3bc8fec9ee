-- ===== src/Push/Crossing.antt =====
-- packages/api/src/lib/push-events.ts: the alert of a high moderation queue, as an edge detector.
use telephone_booth_operator.Common.{
  ℕ, ◌≡◌, refl, Bool, false, ◌&&◌, not, Option, none, some, List, [], ◌∷◌, leb, arith, ap, ◌∙◌,
}
use telephone_booth_operator.Push.{
  Push, PushRow, upsert, fresh_row, active_at, observe_queue, receive_message, refresh_badge,
  reconcile_badge, observed_row, crosses, reconciled_level, reconciled_badge,
}

-- What writes to the queue's row, with the number of messages that it counts.
pub data Operation : Type 0 where
  observe receive reconcile refresh : ℕ → Operation

abbrev pub apply : ℕ → Push → Operation → Push × Bool
apply threshold p (observe n) = observe_queue p threshold n
apply threshold p (receive n) = receive_message p threshold n
apply threshold p (reconcile n) = reconcile_badge p threshold n
apply threshold p (refresh n) = (refresh_badge p threshold n, false)

-- Whether each operation sends the alert of a high queue.
abbrev pub alerts : ℕ → Push → List Operation → List Bool
alerts threshold p [] = []
alerts threshold p (o ∷ os) = (apply threshold p o).1 ∷ alerts threshold (apply threshold p o).0 os

-- The specification: one bit, whether the queue was high when it was last looked at. An alert is due
-- when it becomes high. A refresh of the badge does not look.
abbrev pub look : ℕ → Bool → Operation → Bool
look threshold high (observe n) = leb threshold n
look threshold high (receive n) = leb threshold n
look threshold high (reconcile n) = leb threshold n
look threshold high (refresh n) = high

abbrev pub rises : Bool → Bool → Bool
rises high next = next && not high

abbrev pub rising : ℕ → Bool → List Operation → List Bool
rising threshold high [] = []
rising threshold high (o ∷ os) =
    rises high (look threshold high o) ∷ rising threshold (look threshold high o) os

abbrev pub was_high : ℕ → Option PushRow → Bool
was_high threshold none = false
was_high threshold (some row) = active_at threshold row

upsert-was_high :
    (threshold n v : ℕ) (o : Option PushRow)
    → active_at threshold (upsert (fresh_row threshold n v) o) ≡ was_high threshold o
unfolding active_at
upsert-was_high threshold n v none = ground arith
upsert-was_high threshold n v (some row) = refl

reconciled-active_at :
    (threshold n : ℕ) (state : PushRow)
    → active_at threshold (reconciled_badge n state (reconciled_level threshold n state))
      ≡ leb threshold n
unfolding active_at reconciled_badge reconciled_level
reconciled-active_at threshold n state = ground arith

observed-active_at :
    (threshold n : ℕ) (state : PushRow)
    → active_at threshold (observed_row threshold n state) ≡ leb threshold n
unfolding active_at observed_row
observed-active_at threshold n state = ground arith

apply-look :
    (threshold : ℕ) (p : Push) (o : Operation)
    → let high = was_high threshold p.queue in
      ((apply threshold p o).1 ≡ rises high (look threshold high o))
      × (was_high threshold (apply threshold p o).0.queue ≡ look threshold high o)
unfolding observe_queue receive_message refresh_badge reconcile_badge crosses
apply-look threshold p (observe n) = (
  rw (upsert-was_high threshold 0 0 p.queue) refl,
  observed-active_at threshold n (upsert (fresh_row threshold 0 0) p.queue),
)
apply-look threshold p (receive n) = (
  rw (upsert-was_high threshold 0 0 p.queue) refl,
  observed-active_at threshold n (upsert (fresh_row threshold 0 0) p.queue),
)
apply-look threshold p (reconcile n) = (
  rw (upsert-was_high threshold n 1 p.queue) refl,
  reconciled-active_at threshold n (upsert (fresh_row threshold n 1) p.queue),
)
apply-look threshold p (refresh n) = (ground arith, upsert-was_high threshold 0 0 p.queue)

-- The coordinator, whatever else its rows hold and whichever operations run, sends the alert of a
-- high queue exactly when the number of messages rises to the threshold: as a detector of one bit
-- that follows the counts. The threshold is the same throughout.
pub alerts-rising :
    (threshold : ℕ) (p : Push) (os : List Operation)
    → alerts threshold p os ≡ rising threshold (was_high threshold p.queue) os
alerts-rising threshold p [] = refl
alerts-rising threshold p (o ∷ os) =
    let high = was_high threshold p.queue in
    let after = (apply threshold p o).0 in
    let (sent, next) = apply-look threshold p o in
    ap (λ b. b ∷ alerts threshold after os) sent
    ∙ ap (λ bs. rises high (look threshold high o) ∷ bs)
        (alerts-rising threshold after os ∙ ap (λ h. rising threshold h os) next)
