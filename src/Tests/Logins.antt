-- ===== src/Tests/Logins.antt =====
-- Sessions, run on a stored session whose access token has expired.
use telephone_booth_operator.Common.{
  ◌+◌, ◌≤◌, ◌<◌, ◌≡◌, refl, true, false, none, some, List, [], ◌∷◌, ◌++◌, Text, arith, any, length,
}
use telephone_booth_operator.Sessions.{
  dot, verify_cookie_value, cookie_value_from_header, session_cookie, with_others,
}
use telephone_booth_operator.Sessions.Cookies.{session_cookie-readable}
use telephone_booth_operator.Sessions.Secrets.{
  encrypt_session_secret, decrypt_session_secret, plain,
  decrypt_session_secret-encrypt_session_secret,
}
use telephone_booth_operator.Sessions.Lifetime.{
  OperatorSession, Settings, session_is_expired, session_expires_at, access_token_is_fresh,
  is_due_for_renewal, renewed, renewal_interval_ms, renewed-lasts,
}
use telephone_booth_operator.Sessions.Backoff.{
  Backoff, refresh_backoff_max_entries, evict_soonest, note_refresh_failure,
  refresh_is_cooling_down, clear_refresh_backoff,
}
use telephone_booth_operator.Sessions.Backoff.Bound.{
  evict_soonest-ends, BackoffHistory, no_failure, BackoffHistory-length,
}
use telephone_booth_operator.Sessions.Reading.{
  Grant, grant_rejected, grant_unavailable, userinfo_unavailable, Request, World, find_session,
  is_operator_session,
}
use telephone_booth_operator.Sessions.Refresh.{read_valid_session}
use telephone_booth_operator.Sessions.Refresh.Outcome.{
  read_valid_session-signed_in, read_valid_session-signed_out,
}
use telephone_booth_operator.Sessions.Refresh.Asking.{read_valid_session-backs_off}
use telephone_booth_operator.Cursors.{Codec}
use telephone_booth_operator.Address.Bytes
use telephone_booth_operator.Address.{client_ip, forwarded_client_ip}
use telephone_booth_operator.Address.Forwarded.{client_ip-appended}
use telephone_booth_operator.Tests.Coding.{runtime, runtime-IsRuntime, cipher, cipher-IsCipher}

abbrev id : Text
id = 65 ∷ []

abbrev name : Text
name = 98 ∷ 95 ∷ []

session_cookie-readable_example :
    verify_cookie_value runtime (
      cookie_value_from_header runtime
        (some (with_others (session_cookie runtime name id) (some (120 ∷ []))))
        name)
    ≡ some id
session_cookie-readable_example =
    session_cookie-readable runtime 98 65 (95 ∷ []) [] (some (120 ∷ [])) runtime-IsRuntime refl refl
      refl refl

abbrev token : Text
token = 116 ∷ []

decrypt_session_secret_example :
    decrypt_session_secret cipher (encrypt_session_secret cipher (1 ∷ []) (some token))
    ≡ plain token
decrypt_session_secret_example =
    decrypt_session_secret-encrypt_session_secret cipher (1 ∷ []) (some token) cipher-IsCipher refl

abbrev settings : Settings
settings = record { session_ttl = none; session_absolute_ttl = none; session_revalidate = none }

abbrev stored : OperatorSession
stored = record {
  id = id;
  user_id = 1;
  id_token = none;
  access_token = none;
  refresh_token = encrypt_session_secret cipher (1 ∷ []) (some token);
  access_token_expires_at = some 10;
  created_at = 0;
  expires_at = 5000;
  last_seen_at = 0;
  last_validated_at = none;
}

renewed-lasts_example :
    (session_is_expired settings 1000 (renewed settings 1000 stored) ≡ false)
    × (stored.expires_at ≤ (renewed settings 1000 stored).expires_at)
    × (session_expires_at settings 1000 stored.created_at
        < (renewed settings 1000 stored).expires_at + renewal_interval_ms settings)
unfolding session_is_expired
renewed-lasts_example = renewed-lasts settings 1000 stored refl

abbrev waiting : List Backoff
waiting = record { session = id; failures = 1; retry_at = 2000 } ∷ []

evict_soonest-ends_example :
    (length (evict_soonest 1 waiting) < refresh_backoff_max_entries)
    × (evict_soonest 2 waiting ≡ evict_soonest 1 waiting)
evict_soonest-ends_example = evict_soonest-ends 1 waiting (omega arith)

BackoffHistory-length_example :
    length (clear_refresh_backoff token (note_refresh_failure id 1000 []))
    ≤ refresh_backoff_max_entries
BackoffHistory-length_example = BackoffHistory-length (
    BackoffHistory.cleared token (note_refresh_failure id 1000 [])
      (BackoffHistory.failed id 1000 [] no_failure))

abbrev request : Grant → Request
request grant = record {
  runtime = runtime;
  cipher = cipher;
  settings = settings;
  clock = λ m. 1000;
  others = λ m rows. rows;
  cookie = some (65 ∷ dot ∷ 65 ∷ []);
  grant = grant;
  userinfo = userinfo_unavailable;
  oidc_enabled = true;
  delete_fails = false;
  access_iv = 1 ∷ [];
  id_iv = 2 ∷ [];
  refresh_iv = 3 ∷ [];
}

abbrev world : List Backoff → World
world bs = record { rows = stored ∷ []; backoffs = bs; cookies = []; grants = 0 }

abbrev stale : OperatorSession
stale = record stored { expires_at = 2592001000; last_seen_at = 1000 }

signed_in_example :
    (verify_cookie_value runtime (some (65 ∷ dot ∷ 65 ∷ [])) ≡ some id)
    × (row : OperatorSession) × (find_session id (stored ∷ []) ≡ some row)
    × (session_is_expired settings 1000 row ≡ false)
unfolding read_valid_session verify_cookie_value session_is_expired access_token_is_fresh
    decrypt_session_secret encrypt_session_secret refresh_is_cooling_down is_due_for_renewal renewed
signed_in_example = read_valid_session-signed_in (request grant_unavailable) (world []) stale refl

signed_out_example :
    any (is_operator_session id) (read_valid_session (request grant_rejected) (world [])).0.rows
    ≡ false
unfolding read_valid_session verify_cookie_value session_is_expired access_token_is_fresh
    decrypt_session_secret encrypt_session_secret refresh_is_cooling_down
signed_out_example =
    read_valid_session-signed_out (request grant_rejected) (world []) id refl refl refl refl

backs_off_example :
    (read_valid_session
      (request grant_unavailable)
      (world (note_refresh_failure id 500 []))).0.grants
    ≡ 0
unfolding verify_cookie_value
backs_off_example =
    read_valid_session-backs_off (request grant_unavailable)
      (world (note_refresh_failure id 500 [])) id 500 [] refl refl (omega arith)

abbrev codec : Codec
codec = record { encode = λ s. s; decode = λ s. some s; is_date = λ s. true }

abbrev strings : Bytes.Runtime
strings = record { trim = λ s. s; to_lower = λ s. s; number = λ s. none }

-- `::2`, and `::1` before it.
abbrev client : Text
client = 58 ∷ 58 ∷ 50 ∷ []

client_ip-appended_example :
    client_ip strings
      ((58 ∷ 58 ∷ 51 ∷ []) ∷ [])
      (some (58 ∷ 58 ∷ 51 ∷ []))
      (58 ∷ 58 ∷ 49 ∷ [] ++ 44 ∷ client)
    ≡ client_ip strings ((58 ∷ 58 ∷ 51 ∷ []) ∷ []) (some (58 ∷ 58 ∷ 51 ∷ [])) client
unfolding forwarded_client_ip
client_ip-appended_example =
    client_ip-appended strings ((58 ∷ 58 ∷ 51 ∷ []) ∷ []) (some (58 ∷ 58 ∷ 51 ∷ []))
      (58 ∷ 58 ∷ 49 ∷ []) client refl
