-- ===== src/Era.antt =====
-- packages/api/src/lib/installation.ts: which era (installation) reads are scoped to, and which one
-- a write may land in.
pub mod Scope
pub mod Lock
pub mod CloseOut
use telephone_booth_operator.Common.{
  ℕ, zero, suc, ◌+◌, Bool, true, false, Option, none, some, List, find_first, find_latest,
  if◌then◌else◌, holds, ◌==?◌, count, ltb,
}
use telephone_booth_operator.Store.{Db, Installation, is_open, has_id, is_in}

-- `findActiveInstallation`
unfoldable pub find_active_installation : Db → Option Installation
find_active_installation db = find_latest is_open (λ row. row.started_at) db.installations

unfoldable pub find_installation : Db → ℕ → Option Installation
find_installation db e = find_first (has_id e) db.installations

-- The id of the open era, `openEra` and `requireActiveInstallation`.
unfoldable pub open_era : Db → Option ℕ
unfolding find_active_installation
open_era db = elim (find_active_installation db) [ none ↦ none | some row ↦ some row.id ]

-- `rows.length > 0 && rows[0]?.endedAt === null`: taking the lock of an era succeeds if it is open.
-- The lock for a booth write and the exclusive one differ in what they exclude, not in their answer.
unfoldable pub lock_installation : Db → ℕ → Bool
unfolding find_installation
lock_installation db e = holds is_open (find_installation db e)

-- The check of `withOpenEra`: a row without an era is always writable.
abbrev pub era_is_writable : Db → Option ℕ → Bool
era_is_writable db none = true
era_is_writable db (some e) = lock_installation db e

abbrev pub era_lock_attempts : ℕ
era_lock_attempts = 3

-- The loop of `lockOpenInstallationWith`. Other transactions commit between its statements: `view t`
-- is the database that statement `t` sees. The result holds the era and the statement that locked it.
unfoldable pub lock_attempts : (ℕ → Db) → ℕ → ℕ → Option ℕ → Option (ℕ × ℕ)
unfolding lock_installation open_era
lock_attempts view zero t candidate = none
lock_attempts view (suc n) t none = none
lock_attempts view (suc n) t (some c) =
    let next = open_era (view (t + 1)) in
    let rest = lock_attempts view n (t + 2) next in
    if lock_installation (view t) c then some (c, t) else if next ==? some c then none else rest

-- `preferred ?? (await openEra())`
abbrev pub first_candidate : Db → Option ℕ → Option ℕ
first_candidate db none = open_era db
first_candidate db (some e) = some e

unfoldable pub lock_open_installation_with : (ℕ → Db) → Option ℕ → Option (ℕ × ℕ)
unfolding lock_attempts open_era
lock_open_installation_with view preferred =
    lock_attempts view era_lock_attempts 1 (first_candidate (view 0) preferred)

-- The same with no other transaction in between.
unfoldable pub lock_open_installation : Db → Option ℕ → Option ℕ
unfolding lock_open_installation_with
lock_open_installation db preferred = elim (lock_open_installation_with (λ _. db) preferred) [
  | none ↦ none
  | some (e, _) ↦ some e
]

-- `installationHasActivity`
pub installation_has_activity : Db → ℕ → Bool
installation_has_activity db e = ltb 0 (
    count (λ s. is_in e s.installation_id) db.sessions
    + count (λ m. is_in e m.installation_id) db.messages
    + count (λ v. is_in e v.installation_id) db.events
    + count (λ s. is_in e s.installation_id) db.snapshots)
