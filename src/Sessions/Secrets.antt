-- ===== src/Sessions/Secrets.antt =====
-- packages/api/src/lib/session.ts: the tokens of a session as they are stored, sealed by node:crypto.
use telephone_booth_operator.Common.{
  is_empty, ◌≡◌, refl, ap, ◌∙◌, false, Option, none, some, List, [], ◌∷◌, ◌++◌, if◌then◌else◌, not,
  ◌||◌, Text, text_eq, split, split-append, split-whole, contains,
}
use telephone_booth_operator.Sessions.{dot}

-- AES-256-GCM under the configured key: from an iv and a text to a tag and a ciphertext, and back,
-- which throws where the tag does not fit. `encode` and `decode` are base64url.
pub record Cipher : Type 0 where
  pub seal : Text → Text → Text × Text
  pub unseal : Text → Text → Text → Option Text
  pub encode : Text → Text
  pub decode : Text → Text

-- `v1`
abbrev pub secret_version : Text
secret_version = 118 ∷ 49 ∷ []

-- What reading a stored secret gives, where `undecipherable` is an exception.
pub data Secret : Type 0 where
  absent undecipherable : Secret
  plain : Text → Secret

-- `iv` are the random bytes.
unfoldable pub encrypt_session_secret : Cipher → Text → Option Text → Option Text
encrypt_session_secret c iv none = none
encrypt_session_secret c iv (some []) = none
encrypt_session_secret c iv (some (x ∷ plaintext)) =
    let (tag, ciphertext) = c.seal iv (x ∷ plaintext) in
    some
      (secret_version ++ dot ∷ (c.encode iv ++ dot ∷ (c.encode tag ++ dot ∷ c.encode ciphertext)))

opened : Option Text → Secret
opened none = undecipherable
opened (some plaintext) = plain plaintext

-- The parts that a stored value is cut into; one in another form is a text from before encryption.
unfoldable pub decrypt_parts : Cipher → Text → List Text → Secret
unfolding opened
decrypt_parts c stored (version ∷ iv ∷ tag ∷ ciphertext ∷ rest) =
    if not (text_eq version secret_version) || is_empty iv || is_empty tag || is_empty ciphertext
    then plain stored
    else opened (c.unseal (c.decode iv) (c.decode tag) (c.decode ciphertext))
decrypt_parts c stored _ = plain stored

unfoldable pub decrypt_session_secret : Cipher → Option Text → Secret
unfolding decrypt_parts
decrypt_session_secret c none = absent
decrypt_session_secret c (some []) = absent
decrypt_session_secret c (some (x ∷ stored)) =
    let (part, parts) = split dot (x ∷ stored) in decrypt_parts c (x ∷ stored) (part ∷ parts)

-- What node documents of the cipher and of base64url: a sealed text is opened by its iv, tag and
-- ciphertext; base64url is decoded to what was encoded and has no dot; and nothing that is encoded
-- is empty: an iv has 12 bytes, a tag 16 and the ciphertext as many as the text.
pub record IsCipher (c : Cipher) : Type 0 where
  pub unsealed : (iv s : Text) → c.unseal iv (c.seal iv s).0 (c.seal iv s).1 ≡ some s
  pub decoded : (s : Text) → c.decode (c.encode s) ≡ s
  pub undotted : (s : Text) → contains dot (c.encode s) ≡ false
  pub encoded : (s : Text) → is_empty s ≡ false → is_empty (c.encode s) ≡ false
  pub tagged : (iv s : Text) → is_empty (c.seal iv s).0 ≡ false
  pub sealed : (iv s : Text) → is_empty s ≡ false → is_empty (c.seal iv s).1 ≡ false

-- The four parts of a stored secret are what it is split into.
split-secret :
    (iv tag ciphertext : Text)
    → contains dot iv ≡ false
    → contains dot tag ≡ false
    → contains dot ciphertext ≡ false
    → split dot (secret_version ++ dot ∷ (iv ++ dot ∷ (tag ++ dot ∷ ciphertext)))
      ≡ (secret_version, iv ∷ tag ∷ ciphertext ∷ [])
split-secret iv tag ciphertext hi ht hc =
    split-append dot secret_version (iv ++ dot ∷ (tag ++ dot ∷ ciphertext)) refl
    ∙ ap (λ cut. (secret_version, cut.0 ∷ cut.1))
        (split-append dot iv (tag ++ dot ∷ ciphertext) hi
          ∙ ap (λ cut. (iv, cut.0 ∷ cut.1))
              (split-append dot tag ciphertext ht
                ∙ ap (λ cut. (tag, cut.0 ∷ cut.1)) (split-whole dot ciphertext hc)))

decrypt_parts-sealed :
    (c : Cipher) (stored iv s : Text)
    → IsCipher c
    → is_empty iv ≡ false
    → is_empty s ≡ false
    → decrypt_parts c stored
        (secret_version ∷ c.encode iv ∷ c.encode (c.seal iv s).0 ∷ c.encode (c.seal iv s).1 ∷ [])
      ≡ plain s
unfolding decrypt_parts opened
decrypt_parts-sealed c stored iv s ic hi hs =
    let t = c.seal iv s in
    rw
      (
        ic.encoded iv hi,
        ic.encoded t.0 (ic.tagged iv s),
        ic.encoded t.1 (ic.sealed iv s hs),
        ic.decoded iv,
        ic.decoded t.0,
        ic.decoded t.1,
        ic.unsealed iv s,
      )
      refl

-- What the stored form of a token is read as.
abbrev pub kept_secret : Option Text → Secret
kept_secret none = absent
kept_secret (some []) = absent
kept_secret (some (x ∷ plaintext)) = plain (x ∷ plaintext)

-- A token that is stored encrypted is read back as it was, whatever the random bytes: a token that is
-- missing or empty as none. The random bytes are not empty.
pub decrypt_session_secret-encrypt_session_secret :
    (c : Cipher) (iv : Text) (o : Option Text)
    → IsCipher c
    → is_empty iv ≡ false
    → decrypt_session_secret c (encrypt_session_secret c iv o) ≡ kept_secret o
unfolding decrypt_session_secret encrypt_session_secret
decrypt_session_secret-encrypt_session_secret c iv none ic h = refl
decrypt_session_secret-encrypt_session_secret c iv (some []) ic h = refl
decrypt_session_secret-encrypt_session_secret c iv (some (x ∷ s)) ic h =
    let t = c.seal iv (x ∷ s) in
    let stored =
      secret_version ++ dot ∷ (c.encode iv ++ dot ∷ (c.encode t.0 ++ dot ∷ c.encode t.1)) in
    ap (λ cut. decrypt_parts c stored (cut.0 ∷ cut.1))
      (split-secret (c.encode iv) (c.encode t.0) (c.encode t.1) (ic.undotted iv) (ic.undotted t.0)
        (ic.undotted t.1))
    ∙ decrypt_parts-sealed c stored iv (x ∷ s) ic h refl
