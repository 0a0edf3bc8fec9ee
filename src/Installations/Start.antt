-- ===== src/Installations/Start.antt =====
-- packages/api/src/routes/installations.ts: `POST /` starts an era, and never a second one.
use telephone_booth_operator.Common.{
  sym, subst, any, true, false, List, ℕ, ◌≤◌, ◌<◌, ◌≡◌, ◌≢◌, refl, ap, ◌∙◌, String, Option, none,
  some, [], ◌∷◌, ◌++◌, count, arith, Bool-cases, Option-cases, inl, inr, find_latest,
  find_latest-append, find_latest-none, find_latest-count, find_latest-holds,
}
use telephone_booth_operator.Store.{Installation, Db, is_open}
use telephone_booth_operator.Era.{find_installation, find_active_installation, open_era}
use telephone_booth_operator.Installations.{
  InstallationCreate, new_installation, create_installation, carry_forward, Started, latest_ended,
  begin_era, start_installation, end_era, claims,
}
use telephone_booth_operator.Installations.Settled.{IsConsistent, SameEra}
use telephone_booth_operator.Installations.Lifecycle.{end_era-IsConsistent, end_era-won}
use telephone_booth_operator.Installations.Begin.{
  begun, carry_forward-SameEra, begun-IsConsistent, no_open-any,
}

-- The result of starting: consistent, with exactly the new era open.
pub record IsStarted (r : Started) : Type 0 where
  pub consistent : IsConsistent r.db
  pub one : count is_open r.db.installations ≡ 1
  pub current : open_era r.db ≡ some r.created

open_era-begun :
    (db db' : Db) (row : Installation) (n : ℕ)
    → db'.installations ≡ db.installations ++ row ∷ []
    → count is_open db.installations ≡ 0
    → row.ended_at ≡ none
    → row.id ≡ n
    → open_era db' ≡ some n
unfolding open_era find_active_installation
open_era-begun db db' row n rows none_open live id =
    let found =
      find_latest-append is_open (λ r. r.started_at) db.installations row none_open
        (ground arith) in
    let found' : find_latest is_open (λ r. r.started_at) db'.installations ≡ some row =
      ap (find_latest is_open (λ r. r.started_at)) rows ∙ found in
    ground arith

carried_rows :
    (db : Db) (era : ℕ) (p : Installation)
    → (carry_forward db era p).installations ≡ db.installations
unfolding carry_forward
carried_rows db era p = refl

carried_next :
    (db : Db) (era : ℕ) (p : Installation) → db.next_id ≤ (carry_forward db era p).next_id
unfolding carry_forward
carried_next db era p = omega arith

no_active : (db : Db) → find_active_installation db ≡ none → count is_open db.installations ≡ 0
unfolding find_active_installation
no_active db h = find_latest-none is_open (λ r. r.started_at) db.installations h

-- The claim of the open era cannot be lost within the transaction that found it.
end_era-active :
    (db : Db) (row : Installation) (t : ℕ) (user : Option ℕ)
    → find_active_installation db ≡ some row
    → (db' : Db) × (end_era db row.id t user none none ≡ some db')
unfolding find_active_installation claims
end_era-active db row t user h =
    let there =
      find_latest-count is_open (claims row.id) (λ r. r.started_at) db.installations row h
        (ground (arith, find_latest-holds is_open (λ r. r.started_at) db.installations row h)) in
    end_era-won db row.id t user none none there

module _ (name_of : ℕ → String) (before db : Db) (body : InstallationCreate) (now : ℕ)
    (ended : Option ℕ) (c : IsConsistent db) (none_open : count is_open db.installations ≡ 0) where
  abbrev new_row : Installation
  new_row = new_installation name_of before db.next_id body now

  is_started :
      (db' : Db)
      → db'.installations ≡ db.installations ++ new_row ∷ []
      → db.next_id < db'.next_id
      → ((f : ℕ) → f ≢ db.next_id → SameEra db db' f)
      → IsStarted (record { db = db'; created = db.next_id; ended = ended })
  unfolding new_installation
  is_started db' rows up same =
      let (good, one) = begun-IsConsistent db db' new_row c none_open refl refl rows up same in
      record {
        consistent = good;
        one = one;
        current = open_era-begun db db' new_row db.next_id rows none_open refl refl;
      }

  begin_era-IsStarted :
      (previous : Option Installation)
      → (r : Started) × (begin_era name_of before db body now previous ended ≡ some r) × IsStarted r
  unfolding begin_era create_installation
  begin_era-IsStarted none = (
    record { db = begun db new_row; created = db.next_id; ended = ended },
    rw (no_open-any db.installations none_open, begin_era),
    is_started (begun db new_row) refl (omega arith)
        (λ f _. record { slice = refl; sessions = refl; awaiting = refl; questions = refl }),
  )
  begin_era-IsStarted (some p) = elim (Bool-cases body.copy_questions) [
    | inl k ↦
        let carried = carry_forward (begun db new_row) db.next_id p in
        (
          record { db = carried; created = db.next_id; ended = ended },
          rw (no_open-any db.installations none_open, k, begin_era),
          is_started carried (carried_rows (begun db new_row) db.next_id p)
              (omega (arith, carried_next (begun db new_row) db.next_id p))
              (λ f ne.
                let same = carry_forward-SameEra (begun db new_row) db.next_id f p ne in
                record {
                  slice = same.slice;
                  sessions = same.sessions;
                  awaiting = same.awaiting;
                  questions = same.questions;
                }),
        )
    | inr k ↦ (
      record { db = begun db new_row; created = db.next_id; ended = ended },
      rw (no_open-any db.installations none_open, k, begin_era),
      is_started (begun db new_row) refl (omega arith)
          (λ f _. record { slice = refl; sessions = refl; awaiting = refl; questions = refl }),
    )
  ]

begin_era-refused :
    (name_of : ℕ → String) (before db : Db) (body : InstallationCreate) (now : ℕ)
    (previous : Option Installation) (ended : Option ℕ)
    → any is_open db.installations ≡ true
    → begin_era name_of before db body now previous ended ≡ none
unfolding begin_era create_installation
begin_era-refused name_of before db body now previous ended h = rw (begin_era, h) refl

any-none : (rows : List Installation) → any is_open rows ≡ false → count is_open rows ≡ 0
any-none [] h = refl
any-none (x ∷ xs) h = ground (arith, h, any-none xs)

-- Nothing that this request does can make a second open era, however late it is.
begin_era-answered :
    (name_of : ℕ → String) (before db : Db) (body : InstallationCreate) (now : ℕ)
    (previous : Option Installation) (ended : Option ℕ) (r : Started)
    → IsConsistent db
    → begin_era name_of before db body now previous ended ≡ some r
    → IsStarted r
begin_era-answered name_of before db body now previous ended r c h =
    elim (Bool-cases (any is_open db.installations)) [
      | inl k ↦ ground (arith, begin_era-refused name_of before db body now previous ended k, h)
      | inr k ↦
          let (s, e, done) =
            begin_era-IsStarted name_of before db body now ended c (any-none db.installations k)
              previous in
          let same : s ≡ r = ground (arith, e, h) in subst IsStarted same done
    ]

-- In a consistent database, whatever `POST /` read before its writes: if it answers with a new era,
-- the database stays consistent (so an era that it closed out is settled), and exactly the new era is
-- open. Where nobody else has opened or ended an era since it looked for the open one, it does.
pub start_installation-IsStarted :
    (name_of : ℕ → String) (before db : Db) (body : InstallationCreate) (user : Option ℕ)
    (ended_at now : ℕ)
    → IsConsistent db
    → ((r : Started)
        → start_installation name_of before db body user ended_at now ≡ some r
        → IsStarted r)
      × (find_active_installation before ≡ find_active_installation db
          → (r : Started) × (start_installation name_of before db body user ended_at now ≡ some r))
unfolding start_installation
start_installation-IsStarted name_of before db body user ended_at now c =
    elim (Option-cases (find_active_installation before)) [
      | inl k ↦ (
        (λ r h.
            begin_era-answered name_of before db body now (latest_ended before) none r c
              (sym (rw (start_installation, k) refl) ∙ h)),
        (λ same.
            let (r, e, s) =
              begin_era-IsStarted name_of before db body now none c (no_active db (sym same ∙ k))
                (latest_ended before) in
            (r, rw (start_installation, k) e)),
      )
      | inr (row, k) ↦ (
        (λ r h. elim (Option-cases (end_era db row.id ended_at user none none)) [
          | inl lost ↦ ground (arith, rw (start_installation, k, lost) at h)
          | inr (db', e) ↦
              begin_era-answered name_of before db' body now (find_installation db' row.id)
                (some row.id) r (end_era-IsConsistent db row.id ended_at user none none c e).0
                (rw (start_installation, k, e) at h)
        ]),
        (λ same.
            let (db', e) = end_era-active db row ended_at user (sym same ∙ k) in
            let (c', none_open) = end_era-IsConsistent db row.id ended_at user none none c e in
            let (r, b, s) =
              begin_era-IsStarted name_of before db' body now (some row.id) c' none_open
                (find_installation db' row.id) in
            (r, rw (start_installation, k, e) b)),
      )
    ]
