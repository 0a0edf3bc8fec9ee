-- ===== src/Sessions/Refresh/Gone.antt =====
-- packages/api/src/lib/session.ts: a session that was ended is no longer in the store.
use telephone_booth_operator.Common.{
  Bool, true, ◌≡◌, refl, sym, subst, false, none, some, Text, any, delete_many, Option-cases, inl,
  inr, arith,
}
use telephone_booth_operator.Sessions.{verify_cookie_value}
use telephone_booth_operator.Sessions.Lifetime.{OperatorSession}
use telephone_booth_operator.Sessions.Reading.{
  Moment, ending, Request, World, find_session, is_operator_session, at_moment, read_session,
  destroy_session, touch, end_session,
}
use telephone_booth_operator.Sessions.Refresh.Keeping.{
  find_session-id, find_session-none, any-delete_many,
}

-- No row of the session is left where it has ended, unless its delete failed.
abbrev pub IsGone : Bool → Text → World → Type 0
IsGone fails id w = fails ≡ false → any (is_operator_session id) w.rows ≡ false

pub read_session-refused :
    (r : Request) (m : Moment) (w : World)
    → verify_cookie_value r.runtime r.cookie ≡ none
    → read_session r m w ≡ (w, none)
unfolding read_session
read_session-refused r m w h = rw (read_session, h) refl

pub read_session-missing :
    (r : Request) (m : Moment) (w : World) (id : Text)
    → verify_cookie_value r.runtime r.cookie ≡ some id
    → find_session id w.rows ≡ none
    → read_session r m w ≡ (w, none)
unfolding read_session
read_session-missing r m w id h e = rw (read_session, h, e) refl

pub read_session-found :
    (r : Request) (m : Moment) (w : World) (id : Text) (s : OperatorSession)
    → verify_cookie_value r.runtime r.cookie ≡ some id
    → find_session id w.rows ≡ some s
    → read_session r m w ≡ (touch r m id w, some s)
unfolding read_session
read_session-found r m w id s h e = rw (read_session, h, e) refl

end_session-IsGone :
    (fails : Bool) (s : OperatorSession) (id : Text) (w : World)
    → s.id ≡ id
    → IsGone fails id (end_session fails (w, some s))
unfolding end_session
end_session-IsGone true s id w h works = ground (arith, works)
end_session-IsGone false s id w h works =
    subst (λ j. any (is_operator_session j) (delete_many (is_operator_session s.id) w.rows) ≡ false)
      h (any-delete_many (is_operator_session s.id) w.rows)

pub destroy_session-IsGone :
    (r : Request) (id : Text) (w : World)
    → verify_cookie_value r.runtime r.cookie ≡ some id
    → IsGone r.delete_fails id (destroy_session r w)
unfolding destroy_session end_session
destroy_session-IsGone r id w h =
    let now = at_moment r ending w in
    elim (Option-cases (find_session id now.rows)) [
      | inl e ↦
          subst (λ read. IsGone r.delete_fails id (end_session r.delete_fails read))
            (sym (read_session-missing r ending now id h e)) (λ _. find_session-none id now.rows e)
      | inr (s, e) ↦
          subst (λ read. IsGone r.delete_fails id (end_session r.delete_fails read))
            (sym (read_session-found r ending now id s h e))
            (end_session-IsGone r.delete_fails s id (touch r ending id now)
              (find_session-id id now.rows s e))
    ]
