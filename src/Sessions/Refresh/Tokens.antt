-- ===== src/Sessions/Refresh/Tokens.antt =====
-- packages/api/src/lib/session.ts: refreshing the access token of a session, `refreshAccessToken` and
-- `refreshIfAccessTokenExpired`.
use telephone_booth_operator.Common.{
  is_empty, ◌+◌, Bool, true, false, ◌&&◌, not, Option, none, some, if◌then◌else◌, or_else, Text,
}
use telephone_booth_operator.Sessions.Secrets.{
  Secret, absent, undecipherable, plain, encrypt_session_secret, decrypt_session_secret,
}
use telephone_booth_operator.Sessions.Lifetime.{
  OperatorSession, session_is_expired, access_token_is_fresh, access_token_expires_at,
}
use telephone_booth_operator.Sessions.Backoff.{note_refresh_failure, refresh_is_cooling_down}
use telephone_booth_operator.Sessions.Reading.{
  Moment, reading, rotating, rereading, rereading_later, TokenSet, Grant, granted, grant_rejected,
  grant_unavailable, RefreshResult, Request, World, find_session, at_moment, update_session,
  clear_backoff, put_cookie, destroy_session,
}

-- The update of `refreshAccessToken`.
unfoldable pub rotated :
    Request → TokenSet → Text → OperatorSession → OperatorSession → OperatorSession
rotated r tokens refresh_token session row = record row {
  access_token =
      or_else (encrypt_session_secret r.cipher r.access_iv tokens.access_token)
        session.access_token;
  id_token = or_else (encrypt_session_secret r.cipher r.id_iv tokens.id_token) session.id_token;
  refresh_token =
      encrypt_session_secret r.cipher r.refresh_iv
        (or_else tokens.refresh_token (some refresh_token));
  access_token_expires_at = access_token_expires_at (r.clock rotating) tokens.expires_in;
  last_seen_at = r.clock rotating;
}

-- `current && !sessionIsExpired(current) && accessTokenIsFresh(current)`
pub is_healthy : Request → Moment → OperatorSession → Bool
is_healthy r m s =
    not (session_is_expired r.settings (r.clock m) s) && access_token_is_fresh (r.clock m) s

note_failure : Request → Text → World → World
note_failure r id w = record w { backoffs = note_refresh_failure id (r.clock rereading) w.backoffs }

-- A stored session that looks healthy is preferred over our own failure.
unfoldable pub rescued :
    Request → Moment → OperatorSession → World → Option (World × Option RefreshResult)
unfolding is_healthy
rescued r m s w = elim (find_session s.id w.rows) [
  | none ↦ none
  | some current ↦
      if is_healthy r m current
      then some
          (clear_backoff s.id w, some (record { session = current; access_token_stale = false }))
      else none
]

-- What is left of a session that was neither rotated nor refused.
unfoldable pub kept_stale : Request → OperatorSession → World → World × Option RefreshResult
unfolding note_failure
kept_stale r s w = elim (find_session s.id w.rows) [
  | none ↦ (w, none)
  | some current ↦
      if session_is_expired r.settings (r.clock rereading) current
      then (w, none)
      else (note_failure r s.id w, some (record { session = current; access_token_stale = true }))
]

-- The `catch` of `refreshAccessToken`; `rejected` is whether the provider refused the token.
unfoldable pub refresh_failed :
    Request → OperatorSession → Bool → World → World × Option RefreshResult
unfolding rescued kept_stale at_moment
refresh_failed r s rejected w =
    let reread = at_moment r rereading w in
    let later = at_moment r rereading_later reread in
    elim (rescued r rereading s reread) [
      | some result ↦ result
      | none ↦
          if rejected
          then (elim (rescued r rereading_later s later) [
            | some result ↦ result
            | none ↦ (later, none)
          ])
          else kept_stale r s reread
    ]

pub asked : World → World
asked w = record w { grants = w.grants + 1 }

-- What the update gave; where it threw, the `catch` is what follows.
unfoldable pub after_rotation :
    Request
    → OperatorSession
    → World
    → Option (World × OperatorSession)
    → World × Option RefreshResult
unfolding refresh_failed clear_backoff
after_rotation r s now none = refresh_failed r s false now
after_rotation r s now (some (written, updated)) =
    (clear_backoff s.id written, some (record { session = updated; access_token_stale = false }))

unfoldable pub take_grant :
    Request → OperatorSession → Text → World → Grant → World × Option RefreshResult
unfolding after_rotation rotated at_moment update_session
take_grant r s token w grant_rejected = refresh_failed r s true w
take_grant r s token w grant_unavailable = refresh_failed r s false w
take_grant r s token w (granted tokens) =
    let now = at_moment r rotating w in
    after_rotation r s now (update_session (rotated r tokens token s) s.id now)

-- `refreshAccessToken`
unfoldable pub refresh_access_token :
    Request → OperatorSession → Text → World → World × Option RefreshResult
unfolding take_grant asked
refresh_access_token r s token w = take_grant r s token (asked w) r.grant

-- `crashed` is an exception, answered with an error.
pub data Refreshed : Type 0 where
  refreshed : RefreshResult → Refreshed
  ended crashed : Refreshed

-- What follows the refresh.
unfoldable pub after_refresh : Request → World × Option RefreshResult → World × Refreshed
unfolding put_cookie destroy_session
after_refresh r (w, none) = (destroy_session r w, ended)
after_refresh r (w, some result) = (put_cookie result.session w, refreshed result)

-- What the stored refresh token leads to.
unfoldable pub use_refresh_token : Request → OperatorSession → World → Secret → World × Refreshed
unfolding refresh_access_token after_refresh destroy_session
use_refresh_token r s w undecipherable = (w, crashed)
use_refresh_token r s w absent = (destroy_session r w, ended)
use_refresh_token r s w (plain token) =
    if is_empty token
    then (destroy_session r w, ended)
    else if refresh_is_cooling_down s.id (r.clock reading) w.backoffs
    then (w, refreshed (record { session = s; access_token_stale = true }))
    else after_refresh r (refresh_access_token r s token w)

-- `refreshIfAccessTokenExpired`
unfoldable pub refresh_if_access_token_expired :
    Request → OperatorSession → World → World × Refreshed
unfolding use_refresh_token clear_backoff
refresh_if_access_token_expired r s w =
    if access_token_is_fresh (r.clock reading) s
    then (clear_backoff s.id w, refreshed (record { session = s; access_token_stale = false }))
    else use_refresh_token r s w (decrypt_session_secret r.cipher s.refresh_token)
