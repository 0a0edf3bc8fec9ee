-- ===== src/Sessions/Cookies.antt =====
-- packages/api/src/lib/session.ts: a session cookie, from setting it to reading it back.
use telephone_booth_operator.Common.{
  ℕ, ◌≡◌, refl, ap, ◌∙◌, true, false, Option, none, some, List, [], ◌∷◌, ◌++◌, ◌==◌, ==_refl,
  Bool-cases, inl, inr, arith, Text, text_eq, text_eq_iff, around, around-index_of,
  around-last_index_of, around-split, index_of, last_index_of, split, split-append, split-whole,
  all, contains, length,
}
use telephone_booth_operator.Sessions.{
  Runtime, IsRuntime, dot, signed_payload, semicolon, equals_sign, is_graphic, signed_cookie_value,
  verify_cookie_value, cookie_value_in, first_cookie_value, cookie_value_from_header,
  session_cookie, with_others,
}

signed_payload_sound :
    (r : Runtime) (cut : Option (Text × Text)) (value payload : Text)
    → ((p t : Text) → cut ≡ some (p, t) → value ≡ p ++ dot ∷ t)
    → signed_payload r cut ≡ some payload
    → (signature : Text) × (value ≡ payload ++ dot ∷ signature)
      × (r.bytes signature ≡ r.bytes (r.signature payload))
unfolding signed_payload
signed_payload_sound r none value payload cuts h = ground arith
signed_payload_sound r (some (p, t)) value payload cuts h =
    elim (Bool-cases (length (r.bytes t) == length (r.bytes (r.signature p)))) [
      | inl l ↦ elim (Bool-cases (text_eq (r.bytes t) (r.bytes (r.signature p)))) [
        | inl e ↦ (
          t,
          ground (arith, cuts p t refl, l, e, h),
          ground (arith, (text_eq_iff (r.bytes t) (r.bytes (r.signature p))).0 e, l, e, h),
        )
        | inr e ↦ ground (arith, l, e, h)
      ]
      | inr l ↦ ground (arith, l, h)
    ]

-- A value is accepted for a payload only where it is that payload, a dot and its signature, byte by
-- byte.
pub verify_cookie_value_sound :
    (r : Runtime) (value payload : Text)
    → verify_cookie_value r (some value) ≡ some payload
    → (signature : Text) × (value ≡ payload ++ dot ∷ signature)
      × (r.bytes signature ≡ r.bytes (r.signature payload))
unfolding verify_cookie_value
verify_cookie_value_sound r value payload h =
    signed_payload_sound r (around value (last_index_of dot value)) value payload
      (around-split dot value) h

-- The value that is signed for a payload that is not empty is accepted for that payload, where a
-- signature has no dot.
pub verify_cookie_value-signed_cookie_value :
    (r : Runtime) (c : ℕ) (payload : Text)
    → contains dot (r.signature (c ∷ payload)) ≡ false
    → verify_cookie_value r (some (signed_cookie_value r (c ∷ payload))) ≡ some (c ∷ payload)
unfolding verify_cookie_value signed_payload signed_cookie_value
verify_cookie_value-signed_cookie_value r c payload h =
    rw
      (
        around-last_index_of dot c payload (r.signature (c ∷ payload)) h,
        ==_refl (length (r.bytes (r.signature (c ∷ payload)))),
        (text_eq_iff (r.bytes (r.signature (c ∷ payload))) (r.bytes (r.signature (c ∷ payload)))).1
            refl,
      )
      refl

all-append :
    (s t : Text)
    → all is_graphic s ≡ true
    → all is_graphic t ≡ true
    → all is_graphic (s ++ t) ≡ true
all-append [] t hs ht = ht
all-append (c ∷ s) t hs ht = ground (arith, all-append s t)

contains-append :
    (c : ℕ) (s t : Text) → contains c s ≡ false → contains c t ≡ false → contains c (s ++ t) ≡ false
contains-append c [] t hs ht = ht
contains-append c (d ∷ s) t hs ht = ground (arith, contains-append c s t)

session_cookie-unseparated :
    (r : Runtime) (name id : Text)
    → IsRuntime r
    → contains semicolon name ≡ false
    → contains semicolon (session_cookie r name id) ≡ false
unfolding session_cookie
session_cookie-unseparated r name id ir ns =
    let value = r.encode_uri (signed_cookie_value r id) in
    contains-append semicolon name (equals_sign ∷ value) ns
      (ground (arith, ir.unseparated (signed_cookie_value r id)))

first_cookie_value-found :
    (r : Runtime) (name part value : Text) (parts : List Text)
    → cookie_value_in r name (around (r.trim part) (index_of equals_sign (r.trim part)))
      ≡ some value
    → first_cookie_value r name (part ∷ parts) ≡ some value
unfolding first_cookie_value
first_cookie_value-found r name part value parts h = rw (first_cookie_value, h) refl

cookie_value_in-decoded :
    (r : Runtime) (name signed : Text)
    → IsRuntime r
    → cookie_value_in r name (some (name, r.encode_uri signed)) ≡ some signed
unfolding cookie_value_in
cookie_value_in-decoded r name signed ir =
    rw ((text_eq_iff name name).1 refl, ir.decoded signed) refl

first_cookie_value-session_cookie :
    (r : Runtime) (c : ℕ) (name id : Text) (parts : List Text)
    → IsRuntime r
    → all is_graphic (c ∷ name) ≡ true
    → contains equals_sign (c ∷ name) ≡ false
    → first_cookie_value r (c ∷ name) (session_cookie r (c ∷ name) id ∷ parts)
      ≡ some (signed_cookie_value r id)
unfolding session_cookie
first_cookie_value-session_cookie r c name id parts ir g ne =
    let signed = signed_cookie_value r id in
    let value = r.encode_uri signed in
    let plain = all-append (c ∷ name) (equals_sign ∷ value) g (ground (arith, ir.graphic signed)) in
    first_cookie_value-found r (c ∷ name) (c ∷ name ++ equals_sign ∷ value) signed parts (
      ap (λ s. cookie_value_in r (c ∷ name) (around s (index_of equals_sign s)))
        (ir.untrimmed (c ∷ name ++ equals_sign ∷ value) plain)
      ∙ ap (cookie_value_in r (c ∷ name)) (around-index_of equals_sign c name value ne)
      ∙ cookie_value_in-decoded r (c ∷ name) signed ir)

-- The cookie that a browser sends back first in the header, alone or with others behind it, gives the
-- session that it was set for: for a name of graphic characters without an equals sign or semicolon,
-- and a session whose id is not empty, where a signature has no dot.
pub session_cookie-readable :
    (r : Runtime) (c d : ℕ) (name id : Text) (others : Option Text)
    → IsRuntime r
    → all is_graphic (c ∷ name) ≡ true
    → contains equals_sign (c ∷ name) ≡ false
    → contains semicolon (c ∷ name) ≡ false
    → contains dot (r.signature (d ∷ id)) ≡ false
    → verify_cookie_value r (
        cookie_value_from_header r
          (some (with_others (session_cookie r (c ∷ name) (d ∷ id)) others))
          (c ∷ name))
      ≡ some (d ∷ id)
unfolding cookie_value_from_header
session_cookie-readable r c d name id none ir g ne ns h =
    let cookie = session_cookie r (c ∷ name) (d ∷ id) in
    ap (λ cut. verify_cookie_value r (first_cookie_value r (c ∷ name) (cut.0 ∷ cut.1)))
      (split-whole semicolon cookie (session_cookie-unseparated r (c ∷ name) (d ∷ id) ir ns))
    ∙ ap (verify_cookie_value r) (first_cookie_value-session_cookie r c name (d ∷ id) [] ir g ne)
    ∙ verify_cookie_value-signed_cookie_value r d id h
session_cookie-readable r c d name id (some others) ir g ne ns h =
    let cookie = session_cookie r (c ∷ name) (d ∷ id) in
    ap (λ cut. verify_cookie_value r (first_cookie_value r (c ∷ name) (cut.0 ∷ cut.1)))
      (split-append semicolon cookie others
        (session_cookie-unseparated r (c ∷ name) (d ∷ id) ir ns))
    ∙ ap (verify_cookie_value r) (
        first_cookie_value-session_cookie r c name (d ∷ id)
          ((split semicolon others).0 ∷ (split semicolon others).1) ir g ne)
    ∙ verify_cookie_value-signed_cookie_value r d id h
