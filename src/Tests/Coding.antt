-- ===== src/Tests/Coding.antt =====
-- A coding of texts into two letters, as an instance of what the code takes from its runtime.
use telephone_booth_operator.Common.{
  is_empty, ℕ, zero, suc, ◌+◌, ◌≡◌, refl, ap, ◌∙◌, true, false, some, [], ◌∷◌, if◌then◌else◌, ◌==◌,
  Text, all, contains, arith,
}
use telephone_booth_operator.Sessions.{Runtime, IsRuntime, is_graphic, semicolon, dot}
use telephone_booth_operator.Sessions.Secrets.{Cipher, IsCipher}

-- A number as so many letters a, and a letter b.
abbrev unary : ℕ → Text → Text
unary zero t = 98 ∷ t
unary (suc n) t = 97 ∷ unary n t

abbrev encode : Text → Text
encode [] = []
encode (c ∷ s) = unary c (encode s)

abbrev decode_from : ℕ → Text → Text
decode_from n [] = []
decode_from n (c ∷ s) =
    let ended = decode_from 0 s in
    let more = decode_from (suc n) s in if c == 98 then n ∷ ended else more

abbrev decode : Text → Text
decode s = decode_from 0 s

decode_from-unary : (n c : ℕ) (t : Text) → decode_from n (unary c t) ≡ (n + c) ∷ decode t
decode_from-unary n zero t = ap (λ m. m ∷ decode t) (omega arith)
decode_from-unary n (suc c) t = decode_from-unary (suc n) c t ∙ ap (λ m. m ∷ decode t) (omega arith)

decode-encode : (s : Text) → decode (encode s) ≡ s
decode-encode [] = refl
decode-encode (c ∷ s) = decode_from-unary 0 c (encode s) ∙ ground (arith, decode-encode s)

unary-graphic : (c : ℕ) (t : Text) → all is_graphic t ≡ true → all is_graphic (unary c t) ≡ true
unary-graphic zero t h = ground (arith, h)
unary-graphic (suc c) t h = ground (arith, unary-graphic c t h)

encode-graphic : (s : Text) → all is_graphic (encode s) ≡ true
encode-graphic [] = refl
encode-graphic (c ∷ s) = unary-graphic c (encode s) (encode-graphic s)

unary-lacks :
    (k c : ℕ) (t : Text)
    → (97 == k) ≡ false
    → (98 == k) ≡ false
    → contains k t ≡ false
    → contains k (unary c t) ≡ false
unary-lacks k zero t a b h = ground (arith, h)
unary-lacks k (suc c) t a b h = ground (arith, unary-lacks k c t a b h)

encode-lacks :
    (k : ℕ) (s : Text) → (97 == k) ≡ false → (98 == k) ≡ false → contains k (encode s) ≡ false
encode-lacks k [] a b = refl
encode-lacks k (c ∷ s) a b = unary-lacks k c (encode s) a b (encode-lacks k s a b)

unary-nonempty : (c : ℕ) (t : Text) → is_empty (unary c t) ≡ false
unary-nonempty zero t = refl
unary-nonempty (suc c) t = refl

encode-nonempty : (s : Text) → is_empty s ≡ false → is_empty (encode s) ≡ false
encode-nonempty [] h = h
encode-nonempty (c ∷ s) h = unary-nonempty c (encode s)

-- The signature of a text is its first letter.
abbrev first_letter : Text → Text
first_letter [] = []
first_letter (c ∷ s) = if c == dot then [] else c ∷ []

abbrev pub runtime : Runtime
runtime = record {
  signature = first_letter;
  bytes = λ s. s;
  trim = λ s. s;
  encode_uri = encode;
  decode_uri = decode;
}

pub runtime-IsRuntime : IsRuntime runtime
runtime-IsRuntime = record {
  decoded = decode-encode;
  graphic = encode-graphic;
  unseparated = λ s. encode-lacks semicolon s refl refl;
  untrimmed = λ s h. refl;
}

abbrev pub cipher : Cipher
cipher = record {
  seal = λ iv s. (7 ∷ [], s);
  unseal = λ iv tag s. some s;
  encode = encode;
  decode = decode;
}

pub cipher-IsCipher : IsCipher cipher
cipher-IsCipher = record {
  unsealed = λ iv s. refl;
  decoded = decode-encode;
  undotted = λ s. encode-lacks dot s refl refl;
  encoded = encode-nonempty;
  tagged = λ iv s. refl;
  sealed = λ iv s h. h;
}
