-- ===== src/Sessions.antt =====
-- packages/api/src/lib/session.ts: the sessions of the operators. A text is a list of codes; the
-- runtime's and node:crypto's functions on texts are the fields of `Runtime`.
pub mod Cookies
pub mod Reading
pub mod Refresh
pub mod Lifetime
pub mod Secrets
pub mod Backoff
use telephone_booth_operator.Common.{
  ℕ, zero, suc, ◌≤◌, ◌≡◌, Bool, true, false, ◌&&◌, ◌||◌, not, Option, none, some, List, [], ◌∷◌,
  ◌++◌, if◌then◌else◌, ◌==◌, leb, Text, text_eq, around, index_of, last_index_of, split, take, drop,
  all, contains, length,
}

-- `signature` is the HMAC of `signValue`, `bytes` is `Buffer.from`.
pub record Runtime : Type 0 where
  pub signature : Text → Text
  pub bytes : Text → Text
  pub trim : Text → Text
  pub encode_uri : Text → Text
  pub decode_uri : Text → Text

abbrev pub dot : ℕ
dot = 46

abbrev pub semicolon : ℕ
semicolon = 59

abbrev pub equals_sign : ℕ
equals_sign = 61

-- A character of ASCII that is no white space.
abbrev pub is_graphic : ℕ → Bool
is_graphic c = leb 33 c && leb c 126

-- What the runtime documents: a component that is encoded for a URI is decoded to itself, and is of
-- graphic characters without a separator of cookies; what has no white space is not trimmed.
pub record IsRuntime (r : Runtime) : Type 0 where
  pub decoded : (s : Text) → r.decode_uri (r.encode_uri s) ≡ s
  pub graphic : (s : Text) → all is_graphic (r.encode_uri s) ≡ true
  pub unseparated : (s : Text) → contains semicolon (r.encode_uri s) ≡ false
  pub untrimmed : (s : Text) → all is_graphic s ≡ true → r.trim s ≡ s

unfoldable pub signed_cookie_value : Runtime → Text → Text
signed_cookie_value r payload = payload ++ dot ∷ r.signature payload

unfoldable pub signed_payload : Runtime → Option (Text × Text) → Option Text
signed_payload r none = none
signed_payload r (some (payload, signature)) =
    let given = r.bytes signature in
    let expected = r.bytes (r.signature payload) in
    if not (length given == length expected)
    then none
    else if text_eq given expected
    then some payload
    else none

unfoldable pub verify_cookie_value : Runtime → Option Text → Option Text
unfolding signed_payload
verify_cookie_value r none = none
verify_cookie_value r (some value) = signed_payload r (around value (last_index_of dot value))

-- One part of the header, cut at its equals sign: its value if it is the cookie of that name.
unfoldable pub cookie_value_in : Runtime → Text → Option (Text × Text) → Option Text
cookie_value_in r name none = none
cookie_value_in r name (some (given, value)) =
    if text_eq given name then some (r.decode_uri value) else none

unfoldable pub first_cookie_value : Runtime → Text → List Text → Option Text
unfolding cookie_value_in
first_cookie_value r name [] = none
first_cookie_value r name (part ∷ parts) =
    let trimmed = r.trim part in
    elim (cookie_value_in r name (around trimmed (index_of equals_sign trimmed))) [
      | none ↦ first_cookie_value r name parts
      | some value ↦ some value
    ]

unfoldable pub cookie_value_from_header : Runtime → Option Text → Text → Option Text
unfolding first_cookie_value
cookie_value_from_header r none name = none
cookie_value_from_header r (some header) name =
    let (part, parts) = split semicolon header in first_cookie_value r name (part ∷ parts)

-- The cookie of `setSessionCookie`, `name=value`, without its attributes.
unfoldable pub session_cookie : Runtime → Text → Text → Text
unfolding signed_cookie_value
session_cookie r name id = name ++ equals_sign ∷ r.encode_uri (signed_cookie_value r id)

-- The header of a request: its first cookie, and the text of the other ones.
abbrev pub with_others : Text → Option Text → Text
with_others cookie none = cookie
with_others cookie (some others) = cookie ++ semicolon ∷ others
