-- ===== src/Sessions/Lifetime.antt =====
-- packages/api/src/lib/session.ts: how long a session and its access token last. Times are in
-- milliseconds.
use telephone_booth_operator.Common.{
  ℕ, ◌+◌, ◌*◌, ◌/◌, ◌≤◌, ◌<◌, min, max, ◌≡◌, inl, inr, Bool, true, false, ◌&&◌, ◌||◌, Option, none,
  some, if◌then◌else◌, ◌==◌, ltb, leb, with_default, Text, arith, Bool-cases,
}

-- A row of OperatorSession, its user by id, and its tokens as they are stored.
pub record OperatorSession : Type 0 where
  pub id : Text
  pub user_id : ℕ
  pub id_token : Option Text
  pub access_token : Option Text
  pub refresh_token : Option Text
  pub access_token_expires_at : Option ℕ
  pub created_at : ℕ
  pub expires_at : ℕ
  pub last_seen_at : ℕ
  pub last_validated_at : Option ℕ

-- What `parseInt` makes of SESSION_TTL_SECONDS, SESSION_ABSOLUTE_TTL_SECONDS and
-- SESSION_REVALIDATE_SECONDS: none where it is missing or no number, and 0 for a negative one, for
-- which each has a lower bound.
pub record Settings : Type 0 where
  pub session_ttl : Option ℕ
  pub session_absolute_ttl : Option ℕ
  pub session_revalidate : Option ℕ

unfoldable pub idle_ttl_seconds : Settings → ℕ
idle_ttl_seconds s = max (with_default s.session_ttl 2592000) 300

unfoldable pub absolute_ttl_seconds : Settings → ℕ
absolute_ttl_seconds s = max (with_default s.session_absolute_ttl 7776000) 0

-- `now` is `Date.now()`.
unfoldable pub session_expires_at : Settings → ℕ → ℕ → ℕ
unfolding idle_ttl_seconds absolute_ttl_seconds
session_expires_at s now created_at =
    let idle_deadline = now + idle_ttl_seconds s * 1000 in
    let absolute = absolute_ttl_seconds s in
    if absolute == 0 then idle_deadline else min idle_deadline (created_at + absolute * 1000)

unfoldable pub renewal_interval_ms : Settings → ℕ
unfolding idle_ttl_seconds
renewal_interval_ms s = min (idle_ttl_seconds s * 1000 / 10) 3600000

unfoldable pub session_is_expired : Settings → ℕ → OperatorSession → Bool
unfolding absolute_ttl_seconds
session_is_expired s now session =
    let absolute = absolute_ttl_seconds s in
    leb session.expires_at now || (ltb 0 absolute && leb (session.created_at + absolute * 1000) now)

unfoldable pub access_token_is_fresh : ℕ → OperatorSession → Bool
access_token_is_fresh now session = elim session.access_token_expires_at [
  | none ↦ true
  | some t ↦ ltb (now + 60000) t
]

-- `tokens.expires_in`
unfoldable pub access_token_expires_at : ℕ → Option ℕ → Option ℕ
access_token_expires_at now none = none
access_token_expires_at now (some ttl_seconds) = some (now + max ttl_seconds 60 * 1000)

unfoldable pub revalidate_interval_ms : Settings → ℕ
revalidate_interval_ms s = max (with_default s.session_revalidate 300) 60 * 1000

unfoldable pub session_needs_revalidation : Settings → ℕ → OperatorSession → Bool
unfolding revalidate_interval_ms
session_needs_revalidation s now session = elim session.last_validated_at [
  | none ↦ true
  | some last ↦ leb (last + revalidate_interval_ms s) now
]

-- The test of `extendSessionLifetime`: the next expiry is an interval later than the one stored.
unfoldable pub is_due_for_renewal : Settings → ℕ → OperatorSession → Bool
unfolding session_expires_at renewal_interval_ms
is_due_for_renewal s now session =
    leb (session.expires_at + renewal_interval_ms s) (session_expires_at s now session.created_at)

unfoldable pub renewed : Settings → ℕ → OperatorSession → OperatorSession
unfolding is_due_for_renewal session_expires_at
renewed s now session =
    if is_due_for_renewal s now session
    then record session { expires_at = session_expires_at s now session.created_at }
    else session

pub renewal_interval_ms-pos : (s : Settings) → 0 < renewal_interval_ms s
unfolding renewal_interval_ms idle_ttl_seconds
renewal_interval_ms-pos s = omega arith

-- A session that is not expired when it is renewed stays so. It lasts at least as long as before, and
-- to less than a renewal interval before the expiry that a session used at that time is given.
pub renewed-lasts :
    (s : Settings) (now : ℕ) (session : OperatorSession)
    → session_is_expired s now session ≡ false
    → (session_is_expired s now (renewed s now session) ≡ false)
      × (session.expires_at ≤ (renewed s now session).expires_at)
      × (session_expires_at s now session.created_at
          < (renewed s now session).expires_at + renewal_interval_ms s)
unfolding renewed is_due_for_renewal session_is_expired
renewed-lasts s now session h = elim (Bool-cases (is_due_for_renewal s now session)) [
  | inl e ↦ rw e (ground (arith, h, e, renewal_interval_ms-pos s))
  | inr e ↦ rw e (ground (arith, h, e))
]
