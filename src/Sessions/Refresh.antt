-- ===== src/Sessions/Refresh.antt =====
-- packages/api/src/lib/session.ts: refreshing the access token of a session, checking its account,
-- and `readValidSession`. A refresh that another request of this process has begun is not joined.
pub mod Stages
pub mod Tokens
pub mod Keeping
pub mod Asking
pub mod Gone
pub mod Outcome
use telephone_booth_operator.Common.{
  is_empty, ℕ, ◌+◌, Bool, true, false, ◌&&◌, ◌||◌, not, Option, none, some, List, [], ◌∷◌,
  if◌then◌else◌, or_else, Text, is_some, is_none, holds,
}
use telephone_booth_operator.Sessions.Secrets.{
  Secret, absent, undecipherable, plain, encrypt_session_secret, decrypt_session_secret,
}
use telephone_booth_operator.Sessions.Lifetime.{
  OperatorSession, session_is_expired, access_token_is_fresh, access_token_expires_at,
  session_needs_revalidation, renewed, is_due_for_renewal,
}
use telephone_booth_operator.Sessions.Backoff.{note_refresh_failure, refresh_is_cooling_down}
use telephone_booth_operator.Sessions.Reading.{
  Moment, reading, rotating, rereading, rereading_later, revalidating, extending, TokenSet, Grant,
  granted, grant_rejected, grant_unavailable, UserInfo, claims, userinfo_rejected,
  userinfo_unavailable, RefreshResult, Request, World, find_session, at_moment, update_session,
  clear_backoff, put_cookie, read_session, destroy_session,
}
use telephone_booth_operator.Sessions.Refresh.Tokens.{
  Refreshed, refresh_if_access_token_expired, refreshed, ended, crashed,
}

pub data Reading : Type 0 where
  signed_in : OperatorSession → Reading
  signed_out failed : Reading

unfoldable pub validated_at : ℕ → OperatorSession → OperatorSession
validated_at now s = record s { last_validated_at = some now }

unfoldable pub after_update :
    OperatorSession → World → Option (World × OperatorSession) → World × Reading
after_update s now none = (now, signed_in s)
after_update s now (some (written, updated)) = (written, signed_in updated)

-- The update of `lastValidatedAt`; where it throws, the session is kept.
unfoldable pub mark_validated : Request → OperatorSession → World → World × Reading
unfolding update_session validated_at after_update
mark_validated r s w =
    let now = at_moment r revalidating w in
    after_update s now (update_session (validated_at (r.clock revalidating)) s.id now)

unfoldable pub take_userinfo : Request → OperatorSession → World → UserInfo → World × Reading
unfolding mark_validated destroy_session
take_userinfo r s w (claims true) = mark_validated r s w
take_userinfo r s w (claims false) = (destroy_session r w, signed_out)
take_userinfo r s w userinfo_rejected = (destroy_session r w, signed_out)
take_userinfo r s w userinfo_unavailable = mark_validated r s w

unfoldable pub use_access_token : Request → OperatorSession → World → Secret → World × Reading
unfolding take_userinfo
use_access_token r s w undecipherable = (w, failed)
use_access_token r s w absent = (w, signed_in s)
use_access_token r s w (plain token) =
    if is_empty token then (w, signed_in s) else take_userinfo r s w r.userinfo

-- `revalidateSessionAgainstIdp`. The update after an answer of the provider is in the `try`: where it
-- throws, the one of the `catch` is tried.
unfoldable pub revalidate_session_against_idp : Request → OperatorSession → World → World × Reading
unfolding use_access_token
revalidate_session_against_idp r s w =
    if not r.oidc_enabled || not (session_needs_revalidation r.settings (r.clock revalidating) s)
    then (w, signed_in s)
    else use_access_token r s w (decrypt_session_secret r.cipher s.access_token)

unfoldable pub expiring_at : ℕ → OperatorSession → OperatorSession
expiring_at t s = record s { expires_at = t }

unfoldable pub after_extension :
    OperatorSession → World → Option (World × OperatorSession) → World × Reading
unfolding put_cookie
after_extension s now none = (now, signed_in s)
after_extension s now (some (written, updated)) = (put_cookie updated written, signed_in updated)

-- `extendSessionLifetime`, for a session that was validated.
unfoldable pub extend_session_lifetime : Request → OperatorSession → World → World × Reading
unfolding update_session expiring_at after_extension
extend_session_lifetime r s w =
    let now = at_moment r extending w in
    let next = renewed r.settings (r.clock extending) s in
    if not (is_due_for_renewal r.settings (r.clock extending) s)
    then (w, signed_in s)
    else after_extension s now (update_session (expiring_at next.expires_at) s.id now)

unfoldable pub extended : Request → World × Reading → World × Reading
unfolding extend_session_lifetime
extended r (w, signed_in s) = extend_session_lifetime r s w
extended r (w, signed_out) = (w, signed_out)
extended r (w, failed) = (w, failed)

unfoldable pub after_refreshing : Request → World × Refreshed → World × Reading
unfolding revalidate_session_against_idp extended
after_refreshing r (w, ended) = (w, signed_out)
after_refreshing r (w, crashed) = (w, failed)
after_refreshing r (w, refreshed result) =
    if result.access_token_stale
    then extended r (w, signed_in result.session)
    else extended r (revalidate_session_against_idp r result.session w)

unfoldable pub check_session : Request → World × Option OperatorSession → World × Reading
unfolding refresh_if_access_token_expired after_refreshing destroy_session
check_session r (w, none) = (w, signed_out)
check_session r (w, some s) =
    if session_is_expired r.settings (r.clock reading) s
    then (destroy_session r w, signed_out)
    else after_refreshing r (refresh_if_access_token_expired r s w)

-- `readValidSession`
unfoldable pub read_valid_session : Request → World → World × Reading
unfolding check_session read_session
read_valid_session r w = check_session r (read_session r reading (at_moment r reading w))
