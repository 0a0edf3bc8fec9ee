-- ===== src/Address/Bytes.antt =====
-- packages/api/src/lib/client-ip.ts: the bytes of an address. Parameters stand for the runtime.
use telephone_booth_operator.Common.{
  is_empty, ℕ, zero, suc, ◌+◌, ◌-◌, ◌*◌, ◌/◌, ◌%◌, Bool, ◌&&◌, ◌||◌, not, Option, none, some, List,
  [], ◌∷◌, ◌++◌, map, if◌then◌else◌, ◌==◌, ltb, leb, is_some, Text, text_eq, split, take, drop, all,
  any, filter, length,
}

-- `trim` and `toLowerCase`; `number` is `Number` where that is an integer from 0 on.
pub record Runtime : Type 0 where
  pub trim : Text → Text
  pub to_lower : Text → Text
  pub number : Text → Option ℕ

abbrev pub comma : ℕ
comma = 44

-- `csv`
unfoldable pub csv : Runtime → Text → List Text
csv r input =
    let (part, parts) = split comma input in
    filter (λ s. not (is_empty s)) (map r.trim (part ∷ parts))

is_digit : ℕ → Bool
is_digit c = leb 48 c && leb c 57

-- The value of a hexadecimal digit.
hex_value : ℕ → Option ℕ
unfolding is_digit
hex_value c =
    if is_digit c
    then some (c - 48)
    else if leb 97 c && leb c 102
    then some (c - 87)
    else if leb 65 c && leb c 70
    then some (c - 55)
    else none

-- `/^\d{1,n}$/`
is_number : ℕ → Text → Bool
unfolding is_digit
is_number n s = not (is_empty s) && leb (length s) n && all is_digit s

decimal : ℕ → Text → ℕ
decimal n [] = n
decimal n (c ∷ s) = decimal (n * 10 + (c - 48)) s

-- `(\d{1,n})\.(\d{1,n})\.(\d{1,n})\.(\d{1,n})`
dotted : ℕ → Text → Option (List Text)
unfolding is_number
dotted n s =
    let (part, parts) = split 46 s in
    if length parts == 3 && all (is_number n) (part ∷ parts) then some (part ∷ parts) else none

pub lower : ℕ → ℕ
lower c = if leb 65 c && leb c 90 then c + 32 else c

-- `::ffff:` in any case, before an address of four numbers.
mapped_prefix : Text
mapped_prefix = 58 ∷ 58 ∷ 102 ∷ 102 ∷ 102 ∷ 102 ∷ 58 ∷ []

unmapped : Text → Text
unfolding lower mapped_prefix dotted
unmapped s =
    if text_eq (map lower (take 7 s)) mapped_prefix && is_some (dotted (length s) (drop 7 s))
    then drop 7 s
    else s

unfoldable pub normalize : Runtime → Text → Option Text
unfolding unmapped
normalize r value =
    let trimmed = r.trim value in if is_empty trimmed then none else some (unmapped trimmed)

-- `split("::")`
split_colons : Text → Text × List Text
split_colons [] = ([], [])
split_colons (c ∷ []) = (c ∷ [], [])
split_colons (c ∷ d ∷ s) =
    let (skip_head, skip_tail) = split_colons s in
    let (head, tail) = split_colons (d ∷ s) in
    if c == 58 && d == 58 then ([], skip_head ∷ skip_tail) else (c ∷ head, tail)

hex_word : ℕ → Text → Option ℕ
unfolding hex_value
hex_word n [] = some n
hex_word n (c ∷ s) = elim (hex_value c) [ none ↦ none | some d ↦ hex_word (n * 16 + d) s ]

-- The bytes of the words between colons.
hex_words : List Text → Option (List ℕ)
unfolding hex_word
hex_words [] = some []
hex_words (piece ∷ pieces) =
    if is_empty piece || ltb 4 (length piece) then none else elim (hex_word 0 piece) [
      | none ↦ none
      | some word ↦ elim (hex_words pieces) [
        | none ↦ none
        | some bytes ↦ some (word / 256 ∷ word % 256 ∷ bytes)
      ]
    ]

parse_group : Text → Option (List ℕ)
unfolding hex_words
parse_group [] = some []
parse_group (c ∷ s) = let (part, parts) = split 58 (c ∷ s) in hex_words (part ∷ parts)

zeros : ℕ → List ℕ
zeros zero = []
zeros (suc n) = 0 ∷ zeros n

-- The sixteen bytes of the groups before and behind `::`, if there is one.
groups_to_bytes : Option (List ℕ) → Option (Option (List ℕ)) → Option (List ℕ)
unfolding zeros
groups_to_bytes (some left) none = if length left == 16 then some left else none
groups_to_bytes (some left) (some (some right)) =
    if leb 16 (length left + length right)
    then none
    else some (left ++ zeros (16 - (length left + length right)) ++ right)
groups_to_bytes _ _ = none

is_hex_or_colon : ℕ → Bool
unfolding hex_value
is_hex_or_colon c = is_some (hex_value c) || c == 58

colons_to_bytes : Text × List Text → Option (List ℕ)
unfolding parse_group groups_to_bytes
colons_to_bytes (head, []) = groups_to_bytes (parse_group head) none
colons_to_bytes (head, tail ∷ []) = groups_to_bytes (parse_group head) (some (parse_group tail))
colons_to_bytes (head, tail ∷ more ∷ rest) = none

v6_to_bytes : Text → Option (List ℕ)
unfolding colons_to_bytes split_colons is_hex_or_colon
v6_to_bytes plain =
    let literal = (split 37 plain).0 in
    if is_empty literal || not (all is_hex_or_colon literal)
    then none
    else colons_to_bytes (split_colons literal)

octets_to_bytes : List ℕ → Option (List ℕ)
unfolding zeros
octets_to_bytes octets =
    if any (ltb 255) octets then none else some (zeros 10 ++ 255 ∷ 255 ∷ octets)

plain_to_bytes : Text → Option (List ℕ)
unfolding dotted octets_to_bytes v6_to_bytes decimal
plain_to_bytes plain = elim (dotted 3 plain) [
  | none ↦ v6_to_bytes plain
  | some parts ↦ octets_to_bytes (map (decimal 0) parts)
]

-- `toBytes`
unfoldable pub to_bytes : Runtime → Text → Option (List ℕ)
unfolding normalize plain_to_bytes
to_bytes r address = elim (normalize r address) [ none ↦ none | some plain ↦ plain_to_bytes plain ]
