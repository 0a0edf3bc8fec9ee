-- ===== src/Push.antt =====
-- packages/api/src/lib/push-events.ts: the coordinator of push notifications. Two rows of
-- PushNotificationState hold it: `queue` for the badge and the alert of a high queue, `alert` for the
-- alert of new messages. `count` is the number of messages awaiting moderation, read under the
-- advisory lock; sending is a parameter.
pub mod Dispatching
pub mod Crossing
pub mod Badges
pub mod Delivery
pub mod Alerts
use telephone_booth_operator.Common.{
  ℕ, zero, suc, ◌+◌, Bool, true, false, ◌&&◌, ◌||◌, not, Option, none, some, List, [], ◌∷◌, ◌++◌,
  if◌then◌else◌, ◌==◌, ◌==?◌, ltb, leb, count,
}
use telephone_booth_operator.Store.{Message, Db, is_awaiting}

pub record PushRow : Type 0 where
  pub active : Bool
  pub threshold : ℕ
  pub badge_count : ℕ
  pub badge_version : ℕ
  pub badge_delivered_version : ℕ
  pub badge_lease_token : Option ℕ
  pub badge_lease_expires_at : Option ℕ

abbrev pub badge_lease_duration_ms : ℕ
badge_lease_duration_ms = 120000

abbrev pub badge_dispatch_batch_size : ℕ
badge_dispatch_batch_size = 16

-- `tx.message.count`
abbrev pub awaiting_moderation : Db → ℕ
awaiting_moderation db = count (λ m. is_awaiting m.status) db.messages

abbrev pub bool_eq : Bool → Bool → Bool
bool_eq true b = b
bool_eq false b = not b

-- `upsert` with nothing to update.
abbrev pub upsert : PushRow → Option PushRow → PushRow
upsert fresh none = fresh
upsert fresh (some row) = row

abbrev pub fresh_row : ℕ → ℕ → ℕ → PushRow
fresh_row threshold badge_count version = record {
  active = false;
  threshold = threshold;
  badge_count = badge_count;
  badge_version = version;
  badge_delivered_version = 0;
  badge_lease_token = none;
  badge_lease_expires_at = none;
}

-- `updateMessageAlertState`
unfoldable pub update_message_alert_state : Option PushRow → ℕ → Bool → PushRow
update_message_alert_state alert n should_alert =
    let state = upsert (fresh_row 0 0 0) alert in
    if not should_alert && state.badge_count == n then state else record state {
      active = should_alert && ltb 0 n;
      threshold = 0;
      badge_count = n;
      badge_version = state.badge_version + 1;
    }

pub record Push : Type 0 where
  pub queue : Option PushRow
  pub alert : Option PushRow

-- The row of the queue, as the transactions of `notifyMessageReceived` and `observeModerationQueue`
-- write it, and whether the alert of a high queue is sent.
observed_row : ℕ → ℕ → PushRow → PushRow
observed_row threshold n state = record state {
  active = leb threshold n;
  threshold = threshold;
  badge_count = n;
  badge_version = state.badge_version + 1;
}

pub active_at : ℕ → PushRow → Bool
active_at threshold state = state.threshold == threshold && state.active

crosses : ℕ → ℕ → PushRow → Bool
unfolding active_at
crosses threshold n state = leb threshold n && not (active_at threshold state)

-- The transaction of `observeModerationQueue`.
unfoldable pub observe_queue : Push → ℕ → ℕ → Push × Bool
unfolding observed_row crosses update_message_alert_state
observe_queue p threshold n =
    let state = upsert (fresh_row threshold 0 0) p.queue in
    (
      record {
        queue = some (observed_row threshold n state);
        alert = some (update_message_alert_state p.alert n false);
      },
      crosses threshold n state,
    )

-- The transaction of `notifyMessageReceived`.
unfoldable pub receive_message : Push → ℕ → ℕ → Push × Bool
unfolding observed_row crosses update_message_alert_state
receive_message p threshold n =
    let state = upsert (fresh_row threshold 0 0) p.queue in
    (
      record {
        queue = some (observed_row threshold n state);
        alert = some (update_message_alert_state p.alert n true);
      },
      crosses threshold n state,
    )

-- The transaction of `queueModerationBadgeRefresh`.
unfoldable pub refresh_badge : Push → ℕ → ℕ → Push
unfolding update_message_alert_state
refresh_badge p threshold n =
    let state = upsert (fresh_row threshold 0 0) p.queue in
    record {
      queue = some (record state { badge_count = n; badge_version = state.badge_version + 1 });
      alert = some (update_message_alert_state p.alert n false);
    }

-- The transaction of `reconcileModerationBadgeState`: it writes what differs.
reconciled_level : ℕ → ℕ → PushRow → PushRow
reconciled_level threshold n state =
    if not (bool_eq state.active (leb threshold n)) || not (state.threshold == threshold)
    then record state { active = leb threshold n; threshold = threshold }
    else state

reconciled_badge : ℕ → PushRow → PushRow → PushRow
reconciled_badge n state row =
    if not (state.badge_count == n)
      || (state.badge_version == 0 && state.badge_delivered_version == 0)
    then record row { badge_count = n; badge_version = row.badge_version + 1 }
    else row

unfoldable pub reconcile_badge : Push → ℕ → ℕ → Push × Bool
unfolding reconciled_level reconciled_badge crosses update_message_alert_state
reconcile_badge p threshold n =
    let state = upsert (fresh_row threshold n 1) p.queue in
    (
      record {
        queue = some (reconciled_badge n state (reconciled_level threshold n state));
        alert = some (update_message_alert_state p.alert n false);
      },
      crosses threshold n state,
    )

pub record BadgeClaim : Type 0 where
  pub count : ℕ
  pub version : ℕ
  pub lease_token : ℕ

-- `claimModerationBadge`: the tests on the row as it was read, and the update that compares.
unfoldable pub badge_is_due : ℕ → PushRow → Bool
badge_is_due now row =
    ltb row.badge_delivered_version row.badge_version
    && not (elim row.badge_lease_expires_at [ none ↦ false | some t ↦ ltb now t ])

unfoldable pub same_lease : PushRow → PushRow → Bool
same_lease read row =
    row.badge_version == read.badge_version
    && row.badge_lease_token ==? read.badge_lease_token
    && row.badge_lease_expires_at ==? read.badge_lease_expires_at

unfoldable pub take_badge : ℕ → ℕ → PushRow → PushRow
take_badge token expires_at row = record row {
  badge_lease_token = some token;
  badge_lease_expires_at = some expires_at;
}

-- `where: { key, badgeLeaseToken }`
unfoldable pub holds_badge : ℕ → PushRow → Bool
holds_badge token row = row.badge_lease_token ==? some token

-- `releaseModerationBadge`, the renewal in `renewModerationBadge`, and the completion.
unfoldable pub release_badge : ℕ → PushRow → PushRow
unfolding holds_badge
release_badge token row =
    if holds_badge token row
    then record row { badge_lease_token = none; badge_lease_expires_at = none }
    else row

unfoldable pub renew_badge : ℕ → ℕ → PushRow → PushRow
unfolding holds_badge
renew_badge token expires_at row =
    if holds_badge token row then record row { badge_lease_expires_at = some expires_at } else row

unfoldable pub complete_badge : BadgeClaim → PushRow → PushRow
unfolding holds_badge
complete_badge c row =
    if holds_badge c.lease_token row
    then record row {
      badge_delivered_version = c.version;
      badge_lease_token = none;
      badge_lease_expires_at = none;
    }
    else row

-- `claimMessageAlert`: the tests on the row as it was read, and the update that compares.
unfoldable pub alert_is_due : PushRow → Bool
alert_is_due row = row.active && ltb row.badge_delivered_version row.badge_version

unfoldable pub same_alert : PushRow → PushRow → Bool
same_alert read row = row.active && row.badge_version == read.badge_version

unfoldable pub take_alert : PushRow → PushRow → PushRow
take_alert read row = record row {
  active = false;
  badge_delivered_version = read.badge_version;
  badge_lease_token = none;
  badge_lease_expires_at = none;
}
