-- ===== src/Sessions/Refresh/Keeping.antt =====
-- packages/api/src/lib/session.ts, `readValidSession`: a refresh gives back the session that it was for.
use telephone_booth_operator.Common.{
  ◌≡◌, refl, ◌∙◌, Bool, true, false, Option, none, some, List, [], ◌∷◌, Text, text_eq_iff, any,
  find_first-holds, delete_many, Bool-cases, Option-cases, inl, inr, arith,
}
use telephone_booth_operator.Sessions.Lifetime.{OperatorSession, session_is_expired}
use telephone_booth_operator.Sessions.Reading.{
  Moment, rotating, rereading, rereading_later, Grant, granted, grant_rejected, grant_unavailable,
  RefreshResult, Request, World, find_session, is_operator_session, at_moment, update_session,
}
use telephone_booth_operator.Sessions.Refresh.Tokens.{
  rotated, is_healthy, rescued, kept_stale, refresh_failed, after_rotation, take_grant,
}

pub find_session-id :
    (id : Text) (rows : List OperatorSession) (s : OperatorSession)
    → find_session id rows ≡ some s
    → s.id ≡ id
find_session-id id rows s h =
    (text_eq_iff s.id id).0 (find_first-holds (is_operator_session id) rows s h)

pub find_session-none :
    (id : Text) (rows : List OperatorSession)
    → find_session id rows ≡ none
    → any (is_operator_session id) rows ≡ false
find_session-none id [] h = refl
find_session-none id (s ∷ rows) h = ground (arith, find_session-none id rows)

pub any-delete_many :
    (p : OperatorSession → Bool) (rows : List OperatorSession) → any p (delete_many p rows) ≡ false
any-delete_many p [] = refl
any-delete_many p (s ∷ rows) = ground (arith, any-delete_many p rows)

-- A result that is still of the session `id`.
abbrev pub Keeps : Text → Option RefreshResult → Type 0
Keeps id none = Unit
Keeps id (some x) = x.session.id ≡ id

abbrev KeepsRescue : Text → Option (World × Option RefreshResult) → Type 0
KeepsRescue id none = Unit
KeepsRescue id (some (w, x)) = Keeps id x

abbrev pub KeepsUpdate : Text → Option (World × OperatorSession) → Type 0
KeepsUpdate id none = Unit
KeepsUpdate id (some (w, s)) = s.id ≡ id

pub update_session-Keeps :
    (f : OperatorSession → OperatorSession) (id : Text) (w : World)
    → ((s : OperatorSession) → (f s).id ≡ s.id)
    → KeepsUpdate id (update_session f id w)
unfolding update_session
update_session-Keeps f id w h = elim (Option-cases (find_session id w.rows)) [
  | inl e ↦ rw (KeepsUpdate, update_session, e) tt
  | inr (s, e) ↦ rw (KeepsUpdate, update_session, e) (h s ∙ find_session-id id w.rows s e)
]

rescued-Keeps :
    (r : Request) (m : Moment) (s : OperatorSession) (w : World)
    → KeepsRescue s.id (rescued r m s w)
unfolding rescued
rescued-Keeps r m s w = elim (Option-cases (find_session s.id w.rows)) [
  | inl e ↦ rw (KeepsRescue, rescued, e) tt
  | inr (c, e) ↦ elim (Bool-cases (is_healthy r m c)) [
    | inl b ↦ rw (KeepsRescue, rescued, e, b) (find_session-id s.id w.rows c e)
    | inr b ↦ rw (KeepsRescue, rescued, e, b) tt
  ]
]

kept_stale-Keeps : (r : Request) (s : OperatorSession) (w : World) → Keeps s.id (kept_stale r s w).1
unfolding kept_stale
kept_stale-Keeps r s w = elim (Option-cases (find_session s.id w.rows)) [
  | inl e ↦ rw (Keeps, kept_stale, e) tt
  | inr (c, e) ↦ elim (Bool-cases (session_is_expired r.settings (r.clock rereading) c)) [
    | inl b ↦ rw (Keeps, kept_stale, e, b) tt
    | inr b ↦ rw (Keeps, kept_stale, e, b) (find_session-id s.id w.rows c e)
  ]
]

rescued_or :
    (id : Text) (o : Option (World × Option RefreshResult)) (rest : World × Option RefreshResult)
    → KeepsRescue id o
    → Keeps id rest.1
    → Keeps id
        (elim o as (λ _. World × Option RefreshResult) [ some result ↦ result | none ↦ rest ]).1
rescued_or id none rest h k = k
rescued_or id (some (w, x)) rest h k = h

refresh_failed-Keeps :
    (r : Request) (s : OperatorSession) (rejected : Bool) (w : World)
    → Keeps s.id (refresh_failed r s rejected w).1
unfolding refresh_failed
refresh_failed-Keeps r s true w =
    rescued_or s.id _ _ (rescued-Keeps r rereading s (at_moment r rereading w)) (
      rescued_or s.id _ _
        (rescued-Keeps r rereading_later s (at_moment r rereading_later (at_moment r rereading w)))
        tt)
refresh_failed-Keeps r s false w =
    rescued_or s.id _ _ (rescued-Keeps r rereading s (at_moment r rereading w))
      (kept_stale-Keeps r s (at_moment r rereading w))

after_rotation-Keeps :
    (r : Request) (s : OperatorSession) (now : World) (o : Option (World × OperatorSession))
    → KeepsUpdate s.id o
    → Keeps s.id (after_rotation r s now o).1
unfolding after_rotation
after_rotation-Keeps r s now none h = refresh_failed-Keeps r s false now
after_rotation-Keeps r s now (some (written, updated)) h = h

pub take_grant-Keeps :
    (r : Request) (s : OperatorSession) (token : Text) (w : World) (g : Grant)
    → Keeps s.id (take_grant r s token w g).1
unfolding take_grant rotated
take_grant-Keeps r s token w grant_rejected = refresh_failed-Keeps r s true w
take_grant-Keeps r s token w grant_unavailable = refresh_failed-Keeps r s false w
take_grant-Keeps r s token w (granted tokens) =
    let now = at_moment r rotating w in
    after_rotation-Keeps r s now _
      (update_session-Keeps (rotated r tokens token s) s.id now (λ x. refl))
