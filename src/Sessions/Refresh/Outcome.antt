-- ===== src/Sessions/Refresh/Outcome.antt =====
-- packages/api/src/lib/session.ts, `readValidSession`: who is let in, and who is sent away.
use telephone_booth_operator.Common.{
  Bool, ◌≡◌, sym, ap, subst, ◌∙◌, true, false, none, some, Text, any, Bool-cases, Option-cases,
  is_some, ◌≢◌, inl, inr, arith,
}
use telephone_booth_operator.Sessions.{verify_cookie_value}
use telephone_booth_operator.Sessions.Lifetime.{OperatorSession, session_is_expired}
use telephone_booth_operator.Sessions.Reading.{
  reading, Request, World, find_session, is_operator_session, at_moment, read_session, touch,
}
use telephone_booth_operator.Sessions.Refresh.{
  check_session, Reading, signed_in, signed_out, failed, read_valid_session,
}
use telephone_booth_operator.Sessions.Refresh.Keeping.{find_session-id}
use telephone_booth_operator.Sessions.Refresh.Gone.{
  IsGone, read_session-refused, read_session-missing, read_session-found,
}
use telephone_booth_operator.Sessions.Refresh.Stages.{IsRead, check_session-IsRead}

IsRead-signed_in :
    (b : Bool) (id : Text) (o : World × Reading) (s : OperatorSession)
    → IsRead b id o
    → o.1 ≡ signed_in s
    → s.id ≡ id
IsRead-signed_in b id (w, signed_in x) s k e = ground (arith, k, e)
IsRead-signed_in b id (w, signed_out) s k e = ground (arith, e)
IsRead-signed_in b id (w, failed) s k e = ground (arith, e)

IsRead-signed_out :
    (b : Bool) (id : Text) (o : World × Reading)
    → IsRead b id o
    → o.1 ≡ signed_out
    → IsGone b id o.0
IsRead-signed_out b id (w, signed_in x) k e = ground (arith, e)
IsRead-signed_out b id (w, signed_out) k e = k
IsRead-signed_out b id (w, failed) k e = ground (arith, e)

check_session-live :
    (r : Request) (w : World) (row s : OperatorSession)
    → (check_session r (w, some row)).1 ≡ signed_in s
    → session_is_expired r.settings (r.clock reading) row ≡ false
unfolding check_session
check_session-live r w row s e =
    elim (Bool-cases (session_is_expired r.settings (r.clock reading) row)) [
      | inl b ↦ ground (arith, b, e)
      | inr b ↦ b
    ]

check_session-none :
    (r : Request) (w now : World) (s : OperatorSession)
    → read_session r reading now ≡ (w, none)
    → (check_session r (read_session r reading now)).1 ≢ signed_in s
unfolding check_session
check_session-none r w now s h e = ground (arith, sym (ap (λ o. (check_session r o).1) h) ∙ e)

-- The session that is read first, of a cookie that verifies.
read_valid_session-row :
    (r : Request) (w : World) (id : Text) (row : OperatorSession)
    → verify_cookie_value r.runtime r.cookie ≡ some id
    → find_session id (r.others reading w.rows) ≡ some row
    → IsRead r.delete_fails id (read_valid_session r w)
unfolding read_valid_session at_moment
read_valid_session-row r w id row h f =
    let now = at_moment r reading w in
    let same = find_session-id id now.rows row f in
    subst (λ o. IsRead r.delete_fails id (check_session r o))
      (sym (read_session-found r reading now id row h f))
      (subst (λ j. IsRead r.delete_fails j (check_session r (touch r reading id now, some row)))
        same (check_session-IsRead r row (h ∙ ap some (sym same)) (touch r reading id now)))

-- An operator who is let in has a cookie that verifies, and the session that it names was stored, had
-- not expired when it was read, and is the one that is given back: whatever other requests do to the
-- rows meanwhile, and whatever the provider answers.
pub read_valid_session-signed_in :
    (r : Request) (w : World) (s : OperatorSession)
    → (read_valid_session r w).1 ≡ signed_in s
    → (verify_cookie_value r.runtime r.cookie ≡ some s.id)
      × (stored : OperatorSession) × (find_session s.id (r.others reading w.rows) ≡ some stored)
      × (session_is_expired r.settings (r.clock reading) stored ≡ false)
unfolding read_valid_session at_moment
read_valid_session-signed_in r w s e =
    let now = at_moment r reading w in
    elim (Option-cases (verify_cookie_value r.runtime r.cookie)) [
      | inl h ↦ elim (check_session-none r now now s (read_session-refused r reading now h) e) [ ]
      | inr (id, h) ↦ elim (Option-cases (find_session id now.rows)) [
        | inl f ↦
            elim (check_session-none r now now s (read_session-missing r reading now id h f) e) [ ]
        | inr (row, f) ↦
            let same =
              IsRead-signed_in r.delete_fails id (read_valid_session r w) s
                (read_valid_session-row r w id row h f) e in
            (
              h ∙ ap some (sym same),
              row,
              subst (λ j. find_session j now.rows ≡ some row) (sym same) f,
              check_session-live r (touch r reading id now) row s (
                  ap (λ o. (check_session r o).1)
                    (sym (read_session-found r reading now id row h f))
                  ∙ e),
            )
      ]
    ]

-- An operator who is sent away, with a cookie that verifies and names a stored session, has no session
-- left, unless the delete of its row failed: the row is gone, also where another request has written it
-- meanwhile.
pub read_valid_session-signed_out :
    (r : Request) (w : World) (id : Text)
    → verify_cookie_value r.runtime r.cookie ≡ some id
    → is_some (find_session id (r.others reading w.rows)) ≡ true
    → (read_valid_session r w).1 ≡ signed_out
    → r.delete_fails ≡ false
    → any (is_operator_session id) (read_valid_session r w).0.rows ≡ false
read_valid_session-signed_out r w id h k e works =
    elim (Option-cases (find_session id (r.others reading w.rows))) [
      | inl f ↦ ground (arith, f, k)
      | inr (row, f) ↦
          IsRead-signed_out r.delete_fails id (read_valid_session r w)
            (read_valid_session-row r w id row h f) e works
    ]
