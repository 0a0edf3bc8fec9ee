-- ===== src/Era/Lock.antt =====
-- packages/api/src/lib/installation.ts: what `lockOpenInstallationWith` promises.
use telephone_booth_operator.Common.{
  ℕ, zero, suc, ◌+◌, ◌*◌, ◌≤◌, ◌<◌, ◌≡◌, Bool, true, false, Option, none, some, List, [], ◌∷◌,
  if◌then◌else◌, arith, inl, inr, Option-cases, ==?_iff, find_latest-holds, any, find_first,
  find_latest, find_latest-holds,
}
use telephone_booth_operator.Store.{Db, Installation, is_open, has_id}
use telephone_booth_operator.Era.{
  find_active_installation, open_era, lock_installation, lock_attempts, lock_open_installation_with,
  lock_open_installation, first_candidate,
}

lock_attempts-locked :
    (view : ℕ → Db) (n t : ℕ) (candidate : Option ℕ) (e u : ℕ)
    → lock_attempts view n t candidate ≡ some (e, u)
    → (lock_installation (view u) e ≡ true) × (t ≤ u) × (u < t + 2 * n)
unfolding lock_attempts
lock_attempts-locked view zero t candidate e u h = ground arith
lock_attempts-locked view (suc n) t none e u h = ground arith
lock_attempts-locked view (suc n) t (some c) e u h =
    ground (arith, lock_attempts-locked view n (t + 2) (open_era (view (t + 1))) e u)

-- However other transactions interleave, the era that the lock resolver returns was open at the
-- statement that locked it, and that statement is one of the first seven.
pub lock_open_installation_with-locked :
    (view : ℕ → Db) (preferred : Option ℕ) (e u : ℕ)
    → lock_open_installation_with view preferred ≡ some (e, u)
    → (lock_installation (view u) e ≡ true) × (1 ≤ u) × (u < 7)
unfolding lock_open_installation_with
lock_open_installation_with-locked view preferred e u h =
    lock_attempts-locked view 3 1 (first_candidate (view 0) preferred) e u h

-- No id occurs twice.
abbrev pub HasDistinctIds : List Installation → Type 0
HasDistinctIds [] = Unit
HasDistinctIds (row ∷ rows) = (any (has_id row.id) rows ≡ false) × HasDistinctIds rows

any-find_latest :
    (p : Installation → Bool) (key : Installation → ℕ) (e : ℕ) (rows : List Installation)
    (row : Installation)
    → find_latest p key rows ≡ some row
    → row.id ≡ e
    → any (has_id e) rows ≡ true
any-find_latest p key e [] row h i = ground arith
any-find_latest p key e (x ∷ rows) row h i = elim (Option-cases (find_latest p key rows)) [
  | inl k ↦ ground arith
  | inr (y, k) ↦ ground (arith, any-find_latest p key e rows y k)
]

-- With distinct ids, looking an era up by the id of a row that a query found gives that row.
pub find_first-find_latest :
    (p : Installation → Bool) (key : Installation → ℕ) (rows : List Installation)
    (row : Installation)
    → HasDistinctIds rows
    → find_latest p key rows ≡ some row
    → find_first (has_id row.id) rows ≡ some row
find_first-find_latest p key [] row d h = ground arith
find_first-find_latest p key (x ∷ rows) row d h = elim (Option-cases (find_latest p key rows)) [
  | inl k ↦ ground arith
  | inr (y, k) ↦
      ground (arith, any-find_latest p key x.id rows y k, find_first-find_latest p key rows y d.1 k)
]

open_era-lock :
    (db : Db) (e : ℕ)
    → HasDistinctIds db.installations
    → open_era db ≡ some e
    → lock_installation db e ≡ true
unfolding open_era lock_installation find_active_installation
open_era-lock db e d h =
    elim (Option-cases (find_latest is_open (λ row. row.started_at) db.installations)) [
      | inl k ↦ ground arith
      | inr (row, k) ↦ ground (
        arith,
        find_first-find_latest is_open (λ r. r.started_at) db.installations row d k,
        find_latest-holds is_open (λ r. r.started_at) db.installations row k,
      )
    ]

-- With no rollover in between and distinct ids, the resolver takes the preferred era if it is open, and otherwise the
-- open era, if there is one.
pub lock_open_installation_lem :
    (db : Db) (preferred : Option ℕ)
    → HasDistinctIds db.installations
    → lock_open_installation db preferred ≡ elim preferred [
      | none ↦ open_era db
      | some e ↦ if lock_installation db e then some e else open_era db
    ]
unfolding lock_open_installation
lock_open_installation_lem db none d = elim (Option-cases (open_era db)) [
  | inl k ↦ ground arith
  | inr (o, k) ↦ ground (arith, open_era-lock db o d k)
]
lock_open_installation_lem db (some e) d = elim (Option-cases (open_era db)) [
  | inl k ↦ ground arith
  | inr (o, k) ↦ ground (arith, open_era-lock db o d k, ==?_iff (some o) (some e))
]

-- What the resolver returns is open.
pub lock_open_installation-locked :
    (db : Db) (preferred : Option ℕ) (e : ℕ)
    → lock_open_installation db preferred ≡ some e
    → lock_installation db e ≡ true
unfolding lock_open_installation
lock_open_installation-locked db preferred e h =
    elim (Option-cases (lock_open_installation_with (λ _. db) preferred)) [
      | inl k ↦ ground arith
      | inr ((o, u), k) ↦
          ground (arith, lock_open_installation_with-locked (λ _. db) preferred o u k)
    ]
