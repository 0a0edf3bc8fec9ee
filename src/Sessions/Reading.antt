-- ===== src/Sessions/Reading.antt =====
-- packages/api/src/lib/session.ts, `readValidSession`: from a cookie to the session of an operator.
-- A request awaits the provider and the database; `others m` is what other requests have done to
-- the rows by moment `m`, and `clock m` is the time.
use telephone_booth_operator.Common.{
  ℕ, Bool, if◌then◌else◌, Option, none, some, List, ◌∷◌, Text, text_eq, find_first, update_many,
  delete_many,
}
use telephone_booth_operator.Sessions.{Runtime, verify_cookie_value}
use telephone_booth_operator.Sessions.Secrets.{Cipher}
use telephone_booth_operator.Sessions.Lifetime.{OperatorSession, Settings}
use telephone_booth_operator.Sessions.Backoff.{Backoff, clear_refresh_backoff}

-- The statements that the request waits at.
pub data Moment : Type 0 where
  reading rotating rereading rereading_later revalidating extending ending : Moment

pub record TokenSet : Type 0 where
  pub access_token : Option Text
  pub id_token : Option Text
  pub refresh_token : Option Text
  pub expires_in : Option ℕ

-- What the provider makes of a refresh token, and of an access token at its userinfo endpoint;
-- `allowed` is the outcome of `revalidateOperatorFromClaims`.
pub data Grant : Type 0 where
  granted : TokenSet → Grant
  grant_rejected grant_unavailable : Grant

pub data UserInfo : Type 0 where
  claims : Bool → UserInfo
  userinfo_rejected userinfo_unavailable : UserInfo

pub record RefreshResult : Type 0 where
  pub session : OperatorSession
  pub access_token_stale : Bool

pub record Request : Type 0 where
  pub runtime : Runtime
  pub cipher : Cipher
  pub settings : Settings
  pub clock : Moment → ℕ
  pub others : Moment → List OperatorSession → List OperatorSession
  pub cookie : Option Text
  pub grant : Grant
  pub userinfo : UserInfo
  pub oidc_enabled : Bool
  -- The delete of `destroySession` throws, which it swallows.
  pub delete_fails : Bool
  -- The random bytes that the three tokens are sealed with.
  pub access_iv : Text
  pub id_iv : Text
  pub refresh_iv : Text

pub data CookieChange : Type 0 where
  set_cookie : Text → ℕ → CookieChange
  clear_cookie : CookieChange

-- The rows, the back-offs of this process, what the answer does to the cookie, the last first, and
-- how many times the provider was asked for tokens.
pub record World : Type 0 where
  pub rows : List OperatorSession
  pub backoffs : List Backoff
  pub cookies : List CookieChange
  pub grants : ℕ

abbrev pub is_operator_session : Text → OperatorSession → Bool
is_operator_session id s = text_eq s.id id

abbrev pub find_session : Text → List OperatorSession → Option OperatorSession
find_session id rows = find_first (is_operator_session id) rows

unfoldable pub at_moment : Request → Moment → World → World
at_moment r m w = record w { rows = r.others m w.rows }

-- `operatorSession.update`, which throws where the row is gone.
unfoldable pub update_session :
    (OperatorSession → OperatorSession) → Text → World → Option (World × OperatorSession)
update_session f id w = elim (find_session id w.rows) [
  | none ↦ none
  | some row ↦ some (record w { rows = update_many (is_operator_session id) f w.rows }, f row)
]

unfoldable pub clear_backoff : Text → World → World
unfolding clear_refresh_backoff
clear_backoff id w = record w { backoffs = clear_refresh_backoff id w.backoffs }

unfoldable pub put_cookie : OperatorSession → World → World
put_cookie s w = record w { cookies = set_cookie s.id s.expires_at ∷ w.cookies }

unfoldable pub seen_at : ℕ → OperatorSession → OperatorSession
seen_at now s = record s { last_seen_at = now }

unfoldable pub touch : Request → Moment → Text → World → World
unfolding seen_at
touch r m id w = record w {
  rows = update_many (is_operator_session id) (seen_at (r.clock m)) w.rows;
}

-- `readSession`
unfoldable pub read_session : Request → Moment → World → World × Option OperatorSession
unfolding touch
read_session r m w = elim (verify_cookie_value r.runtime r.cookie) [
  | none ↦ (w, none)
  | some id ↦ elim (find_session id w.rows) [
    | none ↦ (w, none)
    | some row ↦ (touch r m id w, some row)
  ]
]

unfoldable pub end_session : Bool → World × Option OperatorSession → World
unfolding clear_backoff
end_session delete_fails (w, none) = record w { cookies = clear_cookie ∷ w.cookies }
end_session delete_fails (w, some s) = record (clear_backoff s.id w) {
  rows = if delete_fails then w.rows else delete_many (is_operator_session s.id) w.rows;
  cookies = clear_cookie ∷ w.cookies;
}

unfoldable pub destroy_session : Request → World → World
unfolding read_session end_session at_moment
destroy_session r w = end_session r.delete_fails (read_session r ending (at_moment r ending w))
