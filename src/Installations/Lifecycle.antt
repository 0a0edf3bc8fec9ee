-- ===== src/Installations/Lifecycle.antt =====
-- packages/api/src/routes/installations.ts: starting and ending keep the bookkeeping of eras.
use telephone_booth_operator.Common.{
  ℕ, ◌+◌, ◌≤◌, ◌<◌, ◌≡◌, ◌≢◌, refl, sym, subst, String, Bool, true, false, Option, some, List, [],
  ◌∷◌, if◌then◌else◌, ◌==◌, ==_iff, All, count, count-update_many, any, update_many, arith,
  Bool-cases, guarded_some, inl, inr,
}
use telephone_booth_operator.Store.{Installation, InstallationSummary, Db, is_open, has_id}
use telephone_booth_operator.Store.Summary.{compute_installation_summary}
use telephone_booth_operator.Era.Lock.{HasDistinctIds}
use telephone_booth_operator.Era.CloseOut.{
  open_session_in, awaiting_in, live_question_in, close_out_installation, close_out-drains,
  close_out-other, is_in_unique,
}
use telephone_booth_operator.Installations.{claims, stamp_ended, finish, end_era}
use telephone_booth_operator.Installations.Settled.{
  IsSettled, RowIsSettled, SettledIfEnded, SettledIfEnded-same, IsConsistent, SameEra,
}

SettledIfEnded-of :
    (db : Db) (i e : ℕ) (x : Option InstallationSummary) (s : InstallationSummary) (o : Option ℕ)
    (t : ℕ)
    → i ≡ e
    → x ≡ some s
    → o ≡ some t
    → IsSettled db e (some s)
    → SettledIfEnded db i x o
SettledIfEnded-of db i e x s o t p q r h = rw (p, q, r) h

-- Updates that keep ids keep them distinct and fresh.
pub any-update_many :
    (o : ℕ) (p : Installation → Bool) (f : Installation → Installation) (rows : List Installation)
    → ((r : Installation) → (f r).id ≡ r.id)
    → any (has_id o) (update_many p f rows) ≡ any (has_id o) rows
any-update_many o p f [] h = refl
any-update_many o p f (r ∷ rows) h = ground (arith, h r, any-update_many o p f rows h)

pub HasDistinctIds-update_many :
    (p : Installation → Bool) (f : Installation → Installation) (rows : List Installation)
    → ((r : Installation) → (f r).id ≡ r.id)
    → HasDistinctIds rows
    → HasDistinctIds (update_many p f rows)
HasDistinctIds-update_many p f [] h d = tt
HasDistinctIds-update_many p f (r ∷ rows) h d = (
  ground (arith, h r, any-update_many r.id p f rows h),
  HasDistinctIds-update_many p f rows h d.1,
)

module _ (e t : ℕ) (user : Option ℕ) (s : InstallationSummary)
    (notes location : Option String) where
  abbrev ended_rows : List Installation → List Installation
  ended_rows rows =
      update_many (has_id e) (finish t user s notes location)
        (update_many (claims e) (stamp_ended t) rows)

  -- The open eras afterwards are those with another id.
  open-ended_rows :
      (rows : List Installation)
      → count is_open (ended_rows rows) + count (claims e) rows ≡ count is_open rows
  unfolding claims stamp_ended finish
  open-ended_rows [] = refl
  open-ended_rows (r ∷ rows) = ground (arith, open-ended_rows rows)

  HasDistinctIds-ended_rows :
      (rows : List Installation) → HasDistinctIds rows → HasDistinctIds (ended_rows rows)
  unfolding claims stamp_ended finish
  HasDistinctIds-ended_rows rows d =
      HasDistinctIds-update_many (has_id e) (finish t user s notes location)
        (update_many (claims e) (stamp_ended t) rows) (λ r. refl)
        (HasDistinctIds-update_many (claims e) (stamp_ended t) rows (λ r. refl) d)

  fresh-ended_rows :
      (n : ℕ) (rows : List Installation)
      → All (λ r. r.id < n) rows
      → All (λ r. r.id < n) (ended_rows rows)
  unfolding claims stamp_ended finish
  fresh-ended_rows n [] h = tt
  fresh-ended_rows n (r ∷ rows) h = (ground arith, fresh-ended_rows n rows h.1)

  abbrev end_row : Installation → Installation
  end_row r =
      let claimed = if claims e r then stamp_ended t r else r in
      if has_id e claimed then finish t user s notes location claimed else claimed

  end_row_hit :
      (r : Installation)
      → has_id e r ≡ true
      → ((end_row r).id ≡ e) × ((end_row r).summary ≡ some s) × ((end_row r).ended_at ≡ some t)
  unfolding claims stamp_ended finish
  end_row_hit r k = ground arith

  end_row_miss : (r : Installation) → has_id e r ≡ false → end_row r ≡ r
  unfolding claims stamp_ended finish
  end_row_miss r k = ground arith

  settled-end_row :
      (db db' : Db) (r : Installation)
      → ((f : ℕ) → f ≢ e → SameEra db db' f)
      → IsSettled db' e (some s)
      → RowIsSettled db r
      → RowIsSettled db' (end_row r)
  settled-end_row db db' r same here h = elim (Bool-cases (has_id e r)) [
    | inl k ↦
        let (i, x, o) = end_row_hit r k in
        SettledIfEnded-of db' (end_row r).id e (end_row r).summary s (end_row r).ended_at t i x o
          here
    | inr k ↦
        subst (RowIsSettled db') (sym (end_row_miss r k))
          (SettledIfEnded-same db db' r.id r.summary r.ended_at (λ _. same r.id (ne_of_test r k)) h)
  ]
    where
      ne_of_test : (r : Installation) → has_id e r ≡ false → r.id ≢ e
      ne_of_test r k p = ground (arith, ==_iff r.id e)

  settled-ended_rows :
      (db db' : Db) (rows : List Installation)
      → ((f : ℕ) → f ≢ e → SameEra db db' f)
      → IsSettled db' e (some s)
      → All (RowIsSettled db) rows
      → All (RowIsSettled db') (ended_rows rows)
  settled-ended_rows db db' [] same here h = tt
  settled-ended_rows db db' (r ∷ rows) same here (row, h) =
      (settled-end_row db db' r same here row, settled-ended_rows db db' rows same here h)

-- The close-out of one era leaves the others as they are.
pub close_out-SameEra :
    (db : Db) (e f t : ℕ) → f ≢ e → SameEra db (close_out_installation db e t).0 f
unfolding close_out_installation
close_out-SameEra db e f t h =
    let other : e ≢ f = λ p. h (sym p) in
    record {
      slice = (close_out-other db e f t other).0;
      sessions =
          count-update_many (open_session_in f) (open_session_in e) _ db.sessions
            (λ s a. ground (arith, is_in_unique e f s.installation_id other));
      awaiting =
          count-update_many (awaiting_in f) (awaiting_in e) _ db.messages
            (λ m a. ground (arith, is_in_unique e f m.installation_id other));
      questions =
          count-update_many (live_question_in f) (live_question_in e) _ db.questions
            (λ q a. ground (arith, is_in_unique e f q.installation_id other));
    }

module _ (db : Db) (e t : ℕ) (user : Option ℕ) (notes location : Option String) where
  abbrev ended_db : Db
  ended_db =
      let claimed = record db {
        installations = update_many (claims e) (stamp_ended t) db.installations;
      } in
      let (closed, summary) = close_out_installation claimed e t in
      record closed {
        installations =
            update_many (has_id e) (finish t user summary notes location) closed.installations;
      }

  ended_db-IsConsistent : IsConsistent db → IsConsistent ended_db
  unfolding close_out_installation compute_installation_summary
  ended_db-IsConsistent c =
      let claimed = record db {
        installations = update_many (claims e) (stamp_ended t) db.installations;
      } in
      let s = (close_out_installation claimed e t).1 in
      let (sessions, awaiting, live, _) = close_out-drains claimed e t in
      record {
        distinct = HasDistinctIds-ended_rows e t user s notes location db.installations c.distinct;
        fresh = fresh-ended_rows e t user s notes location db.next_id db.installations c.fresh;
        one_open =
            omega (arith, open-ended_rows e t user s notes location db.installations, c.one_open);
        settled =
            settled-ended_rows e t user s notes location db ended_db db.installations
              (λ f ne.
                let same = close_out-SameEra claimed e f t ne in
                record {
                  slice = same.slice;
                  sessions = same.sessions;
                  awaiting = same.awaiting;
                  questions = same.questions;
                })
              (record {
                frozen = refl;
                no_open_session = sessions;
                no_awaiting = awaiting;
                no_live_question = live;
              })
              c.settled;
      }

  -- Where an era is ended in a consistent database, the bookkeeping stays consistent, with the ended
  -- era settled, and no era is open afterwards.
  pub end_era-IsConsistent :
      {db' : Db}
      → IsConsistent db
      → end_era db e t user notes location ≡ some db'
      → IsConsistent db' × (count is_open db'.installations ≡ 0)
  unfolding end_era close_out_installation
  end_era-IsConsistent {db'} c h =
      let (won, same) = guarded_some (count (claims e) db.installations == 0) ended_db db' h in
      let s =
        (close_out_installation
          (record db { installations = update_many (claims e) (stamp_ended t) db.installations }) e
          t).1 in
      let left : count is_open ended_db.installations ≡ 0 =
        ground
          (arith, open-ended_rows e t user s notes location db.installations, c.one_open, won) in
      (
        subst IsConsistent same (ended_db-IsConsistent c),
        subst (λ d. count is_open d.installations ≡ 0) same left,
      )

  -- A claim that matches a row succeeds.
  pub end_era-won :
      1 ≤ count (claims e) db.installations
      → (db' : Db) × (end_era db e t user notes location ≡ some db')
  unfolding end_era
  end_era-won h = (ended_db, ground arith)
