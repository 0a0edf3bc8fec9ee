-- ===== src/Sessions/Refresh/Stages.antt =====
-- packages/api/src/lib/session.ts, `readValidSession`: what each of its stages leaves of the session.
use telephone_booth_operator.Common.{
  Bool, is_empty, either, ◌≡◌, refl, subst, true, false, ◌||◌, not, Option, none, some, Text,
}
use telephone_booth_operator.Sessions.{verify_cookie_value}
use telephone_booth_operator.Sessions.Secrets.{
  Secret, absent, undecipherable, plain, decrypt_session_secret,
}
use telephone_booth_operator.Sessions.Lifetime.{
  OperatorSession, session_is_expired, access_token_is_fresh, is_due_for_renewal,
  session_needs_revalidation, renewed,
}
use telephone_booth_operator.Sessions.Backoff.{refresh_is_cooling_down}
use telephone_booth_operator.Sessions.Reading.{
  reading, revalidating, extending, UserInfo, claims, userinfo_rejected, userinfo_unavailable,
  RefreshResult, Request, World, at_moment, update_session,
}
use telephone_booth_operator.Sessions.Refresh.{
  after_update, take_userinfo, use_access_token, after_extension, check_session, Reading, signed_in,
  signed_out, failed, validated_at, mark_validated, revalidate_session_against_idp, expiring_at,
  extend_session_lifetime, extended, after_refreshing,
}
use telephone_booth_operator.Sessions.Refresh.Tokens.{
  asked, use_refresh_token, refresh_access_token, Refreshed, refreshed, ended, crashed,
  after_refresh, refresh_if_access_token_expired,
}
use telephone_booth_operator.Sessions.Refresh.Keeping.{
  Keeps, KeepsUpdate, update_session-Keeps, take_grant-Keeps,
}
use telephone_booth_operator.Sessions.Refresh.Gone.{IsGone, destroy_session-IsGone}

-- What a stage leaves of the session `id`: it is still that one, or it is gone.
abbrev IsRefreshed : Bool → Text → World × Refreshed → Type 0
IsRefreshed b id (w, refreshed x) = x.session.id ≡ id
IsRefreshed b id (w, ended) = IsGone b id w
IsRefreshed b id (w, crashed) = Unit

abbrev pub IsRead : Bool → Text → World × Reading → Type 0
IsRead b id (w, signed_in s) = s.id ≡ id
IsRead b id (w, signed_out) = IsGone b id w
IsRead b id (w, failed) = Unit

module _ (r : Request) (s : OperatorSession)
    (h : verify_cookie_value r.runtime r.cookie ≡ some s.id) where
  after_refresh-IsRefreshed :
      (o : World × Option RefreshResult)
      → Keeps s.id o.1
      → IsRefreshed r.delete_fails s.id (after_refresh r o)
  unfolding after_refresh
  after_refresh-IsRefreshed (w, none) k = destroy_session-IsGone r s.id w h
  after_refresh-IsRefreshed (w, some x) k = k

  use_refresh_token-IsRefreshed :
      (w : World) (o : Secret) → IsRefreshed r.delete_fails s.id (use_refresh_token r s w o)
  unfolding use_refresh_token refresh_access_token
  use_refresh_token-IsRefreshed w undecipherable = tt
  use_refresh_token-IsRefreshed w absent = destroy_session-IsGone r s.id w h
  use_refresh_token-IsRefreshed w (plain token) =
      either (IsRefreshed r.delete_fails s.id) (is_empty token) _ _
        (destroy_session-IsGone r s.id w h)
        (either (IsRefreshed r.delete_fails s.id)
          (refresh_is_cooling_down s.id (r.clock reading) w.backoffs) _ _ refl
          (after_refresh-IsRefreshed (refresh_access_token r s token w)
            (take_grant-Keeps r s token (asked w) r.grant)))

  refresh_if_access_token_expired-IsRefreshed :
      (w : World) → IsRefreshed r.delete_fails s.id (refresh_if_access_token_expired r s w)
  unfolding refresh_if_access_token_expired
  refresh_if_access_token_expired-IsRefreshed w =
      either (IsRefreshed r.delete_fails s.id) (access_token_is_fresh (r.clock reading) s) _ _ refl
        (use_refresh_token-IsRefreshed w (decrypt_session_secret r.cipher s.refresh_token))

  after_update-IsRead :
      (x : OperatorSession) (now : World) (o : Option (World × OperatorSession))
      → x.id ≡ s.id
      → KeepsUpdate s.id o
      → IsRead r.delete_fails s.id (after_update x now o)
  unfolding after_update
  after_update-IsRead x now none e k = e
  after_update-IsRead x now (some (written, updated)) e k = k

  mark_validated-IsRead :
      (x : OperatorSession) (w : World)
      → x.id ≡ s.id
      → IsRead r.delete_fails s.id (mark_validated r x w)
  unfolding mark_validated validated_at
  mark_validated-IsRead x w e =
      let now = at_moment r revalidating w in
      let written = update_session (validated_at (r.clock revalidating)) x.id now in
      after_update-IsRead x now written e (
        subst (λ id. KeepsUpdate id written) e
          (update_session-Keeps (validated_at (r.clock revalidating)) x.id now (λ y. refl)))

  take_userinfo-IsRead :
      (x : OperatorSession) (w : World) (u : UserInfo)
      → x.id ≡ s.id
      → IsRead r.delete_fails s.id (take_userinfo r x w u)
  unfolding take_userinfo
  take_userinfo-IsRead x w (claims true) e = mark_validated-IsRead x w e
  take_userinfo-IsRead x w (claims false) e = destroy_session-IsGone r s.id w h
  take_userinfo-IsRead x w userinfo_rejected e = destroy_session-IsGone r s.id w h
  take_userinfo-IsRead x w userinfo_unavailable e = mark_validated-IsRead x w e

  use_access_token-IsRead :
      (x : OperatorSession) (w : World) (o : Secret)
      → x.id ≡ s.id
      → IsRead r.delete_fails s.id (use_access_token r x w o)
  unfolding use_access_token
  use_access_token-IsRead x w undecipherable e = tt
  use_access_token-IsRead x w absent e = e
  use_access_token-IsRead x w (plain token) e =
      either (IsRead r.delete_fails s.id) (is_empty token) _ _ e
        (take_userinfo-IsRead x w r.userinfo e)

  revalidate-IsRead :
      (x : OperatorSession) (w : World)
      → x.id ≡ s.id
      → IsRead r.delete_fails s.id (revalidate_session_against_idp r x w)
  unfolding revalidate_session_against_idp
  revalidate-IsRead x w e =
      either (IsRead r.delete_fails s.id)
        (not r.oidc_enabled || not (session_needs_revalidation r.settings (r.clock revalidating) x))
        _ _ e (use_access_token-IsRead x w (decrypt_session_secret r.cipher x.access_token) e)

  after_extension-IsRead :
      (x : OperatorSession) (now : World) (o : Option (World × OperatorSession))
      → x.id ≡ s.id
      → KeepsUpdate s.id o
      → IsRead r.delete_fails s.id (after_extension x now o)
  unfolding after_extension
  after_extension-IsRead x now none e k = e
  after_extension-IsRead x now (some (written, updated)) e k = k

  extend_session_lifetime-IsRead :
      (x : OperatorSession) (w : World)
      → x.id ≡ s.id
      → IsRead r.delete_fails s.id (extend_session_lifetime r x w)
  unfolding extend_session_lifetime expiring_at
  extend_session_lifetime-IsRead x w e =
      let now = at_moment r extending w in
      let next = renewed r.settings (r.clock extending) x in
      let written = update_session (expiring_at next.expires_at) x.id now in
      either (IsRead r.delete_fails s.id)
        (not (is_due_for_renewal r.settings (r.clock extending) x)) _ _ e
        (after_extension-IsRead x now written e (
          subst (λ id. KeepsUpdate id written) e
            (update_session-Keeps (expiring_at next.expires_at) x.id now (λ y. refl))))

  extended-IsRead :
      (o : World × Reading)
      → IsRead r.delete_fails s.id o
      → IsRead r.delete_fails s.id (extended r o)
  unfolding extended
  extended-IsRead (w, signed_in x) k = extend_session_lifetime-IsRead x w k
  extended-IsRead (w, signed_out) k = k
  extended-IsRead (w, failed) k = k

  after_refreshing-IsRead :
      (o : World × Refreshed)
      → IsRefreshed r.delete_fails s.id o
      → IsRead r.delete_fails s.id (after_refreshing r o)
  unfolding after_refreshing
  after_refreshing-IsRead (w, ended) k = k
  after_refreshing-IsRead (w, crashed) k = k
  after_refreshing-IsRead (w, refreshed x) k =
      either (IsRead r.delete_fails s.id) x.access_token_stale _ _
        (extended-IsRead (w, signed_in x.session) k)
        (extended-IsRead (revalidate_session_against_idp r x.session w)
          (revalidate-IsRead x.session w k))

  pub check_session-IsRead : (w : World) → IsRead r.delete_fails s.id (check_session r (w, some s))
  unfolding check_session
  check_session-IsRead w =
      either (IsRead r.delete_fails s.id) (session_is_expired r.settings (r.clock reading) s) _ _
        (destroy_session-IsGone r s.id w h)
        (after_refreshing-IsRead (refresh_if_access_token_expired r s w)
          (refresh_if_access_token_expired-IsRefreshed w))
