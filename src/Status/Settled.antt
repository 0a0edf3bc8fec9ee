-- ===== src/Status/Settled.antt =====
-- packages/api/src/routes/status.ts, `PUT /`: an idle booth closes sessions of the open era only.
use telephone_booth_operator.Common.{
  ℕ, ◌≡◌, ◌≢◌, refl, sym, ap, subst, none, some, List, count-update_many, filter-update_many,
  with_default, arith, Bool-cases, Option-cases, inl, inr,
}
use text.Mathlib.Text.{◌==◌ as str_eq}
use telephone_booth_operator.Store.{Db}
use telephone_booth_operator.Store.Summary.{session_in, slice_of}
use telephone_booth_operator.Era.{lock_open_installation}
use telephone_booth_operator.Era.Lock.{lock_open_installation-locked}
use telephone_booth_operator.Era.CloseOut.{open_session_in, is_in_unique}
use telephone_booth_operator.Installations.Settled.{IsConsistent, SameEra, IsConsistent-locked}
use telephone_booth_operator.Status.{
  StatusSnapshot, StatusUpdate, is_stale, abort, reconcile_stale_sessions, report, put_status,
}

reconcile-SameEra : (db : Db) (e t f : ℕ) → f ≢ e → SameEra db (reconcile_stale_sessions db e t) f
unfolding reconcile_stale_sessions abort
reconcile-SameEra db e t f ne =
    let other : e ≢ f = λ p. ne (sym p) in
    record {
      slice =
          ap
            (λ ss. record {
              sessions = ss;
              landed = (slice_of db f).landed;
              questions = (slice_of db f).questions;
              events = (slice_of db f).events;
            })
            (filter-update_many (session_in f) (is_stale e t) (abort t) db.sessions
              (λ s a. ground (arith, is_in_unique e f s.installation_id other)));
      sessions =
          count-update_many (open_session_in f) (is_stale e t) (abort t) db.sessions
            (λ s a. ground (arith, is_in_unique e f s.installation_id other));
      awaiting = refl;
      questions = refl;
    }

-- A status report keeps the era bookkeeping: a session that was left open in an era that has ended is
-- not rewritten under its frozen counters.
pub put_status-IsConsistent :
    (db : Db) (seen ss : List StatusSnapshot) (fresh : ℕ) (u : StatusUpdate) (now : ℕ)
    (r : Db × List StatusSnapshot)
    → IsConsistent db
    → put_status db seen ss fresh u now ≡ some r
    → IsConsistent r.0
unfolding put_status reconcile_stale_sessions
put_status-IsConsistent db seen ss fresh u now r c h =
    elim (Option-cases (lock_open_installation db none)) [
      | inl k ↦ ground (arith, h, k)
      | inr (e, k) ↦
          elim (Option-cases (report fresh e (with_default u.updated_at now) u seen ss)) [
            | inl n ↦ ground (arith, h, k, n)
            | inr ((after, t), n) ↦ elim (Bool-cases (str_eq u.state "idle")) [
              | inr i ↦
                  let same : db ≡ r.0 = ground (arith, h, k, n, i) in subst IsConsistent same c
              | inl i ↦
                  let same : reconcile_stale_sessions db e t ≡ r.0 = ground (arith, h, k, n, i) in
                  subst IsConsistent same (
                    IsConsistent-locked db (reconcile_stale_sessions db e t) e c refl (omega arith)
                      (lock_open_installation-locked db none e k)
                      (λ f ne. reconcile-SameEra db e t f ne))
            ]
          ]
    ]
