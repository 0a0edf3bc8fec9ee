-- ===== src/Address.antt =====
-- packages/api/src/lib/client-ip.ts: the address of a client behind proxies. A text is a list of
-- codes, and an address is its sixteen bytes.
pub mod Bytes
pub mod Forwarded
use telephone_booth_operator.Common.{
  is_empty, ℕ, zero, suc, ◌+◌, ◌-◌, ◌*◌, ◌/◌, ◌%◌, ◌^◌, ◌≡◌, Bool, true, false, ◌&&◌, ◌||◌, not,
  Option, none, some, List, [], ◌∷◌, ◌++◌, map, if◌then◌else◌, ◌==◌, ltb, leb, is_none, is_some,
  holds, Text, text_eq, contains, split, take, drop, all, any, filter, length, or_else,
}
use telephone_booth_operator.Address.Bytes.{Runtime, csv, normalize, to_bytes}

-- `x & (0xff << k)` of a byte: without its last k bits.
masked : ℕ → ℕ → ℕ
masked k byte = byte / 2 ^ k * 2 ^ k

-- The comparison of `bits` bits, byte by byte and then under a mask.
unfoldable pub matches_bits : ℕ → List ℕ → List ℕ → Bool
unfolding masked
matches_bits bits rule address =
    let full = bits / 8 in
    let remainder = bits % 8 in
    text_eq (take full rule) (take full address)
    && (remainder == 0
        || text_eq (map (masked (8 - remainder)) (take 1 (drop full rule)))
            (map (masked (8 - remainder)) (take 1 (drop full address))))

-- The number of bits that a prefix stands for among the 128; none for one out of range.
prefix_bits : Bool → ℕ → Option ℕ
prefix_bits true width = if ltb 32 width then none else some (width + 96)
prefix_bits false width = if ltb 128 width then none else some width

matches_prefix : Runtime → Text → List Text → List ℕ → List ℕ → Bool
unfolding prefix_bits matches_bits
matches_prefix r network [] rule address = text_eq rule address
matches_prefix r network (prefix ∷ rest) rule address = elim (r.number prefix) [
  | none ↦ false
  | some width ↦
      holds (λ bits. matches_bits bits rule address) (prefix_bits (contains 46 network) width)
]

both_match : Runtime → Text → List Text → Option (List ℕ) → Option (List ℕ) → Bool
unfolding matches_prefix
both_match r network prefixes (some rule) (some address) =
    matches_prefix r network prefixes rule address
both_match r network prefixes _ _ = false

unfoldable pub matches_network : Runtime → Text → Text → Bool
unfolding both_match to_bytes
matches_network r address rule =
    let (network, prefixes) = split 47 rule in
    both_match r network prefixes (to_bytes r network) (to_bytes r address)

-- `azure-container-apps`, the one name of NAMED_PROXY_RULES, and its rules.
abbrev pub azure_container_apps : Text
azure_container_apps =
    97 ∷ 122 ∷ 117 ∷ 114 ∷ 101 ∷ 45 ∷ 99 ∷ 111 ∷ 110 ∷ 116 ∷ 97 ∷ 105 ∷ 110 ∷ 101 ∷ 114 ∷ 45 ∷ 97
    ∷ 112 ∷ 112 ∷ 115 ∷ []

abbrev azure_rules : List Text
azure_rules =
    (49 ∷ 48 ∷ 46 ∷ 48 ∷ 46 ∷ 48 ∷ 46 ∷ 48 ∷ 47 ∷ 56 ∷ [])
    ∷ (49 ∷ 55 ∷ 50 ∷ 46 ∷ 49 ∷ 54 ∷ 46 ∷ 48 ∷ 46 ∷ 48 ∷ 47 ∷ 49 ∷ 50 ∷ [])
    ∷ (49 ∷ 57 ∷ 50 ∷ 46 ∷ 49 ∷ 54 ∷ 56 ∷ 46 ∷ 48 ∷ 46 ∷ 48 ∷ 47 ∷ 49 ∷ 54 ∷ [])
    ∷ (49 ∷ 48 ∷ 48 ∷ 46 ∷ 54 ∷ 52 ∷ 46 ∷ 48 ∷ 46 ∷ 48 ∷ 47 ∷ 49 ∷ 48 ∷ [])
    ∷ (49 ∷ 50 ∷ 55 ∷ 46 ∷ 48 ∷ 46 ∷ 48 ∷ 46 ∷ 48 ∷ 47 ∷ 56 ∷ [])
    ∷ (58 ∷ 58 ∷ 49 ∷ 47 ∷ 49 ∷ 50 ∷ 56 ∷ [])
    ∷ (102 ∷ 99 ∷ 48 ∷ 48 ∷ 58 ∷ 58 ∷ 47 ∷ 55 ∷ [])
    ∷ (102 ∷ 101 ∷ 56 ∷ 48 ∷ 58 ∷ 58 ∷ 47 ∷ 49 ∷ 48 ∷ [])
    ∷ []

-- `matchesProxyRule`, which calls itself on rules that are no names only.
unfoldable pub matches_proxy_rule : Runtime → Text → Text → Bool
unfolding matches_network
matches_proxy_rule r address rule =
    if text_eq (r.to_lower rule) azure_container_apps
    then any (matches_network r address) azure_rules
    else matches_network r address rule

-- One entry of the chain: its address if it is one and no proxy's.
unfoldable pub untrusted_entry : Runtime → List Text → Text → Option Text
unfolding normalize to_bytes matches_proxy_rule
untrusted_entry r proxies entry = elim (normalize r entry) [
  | none ↦ none
  | some candidate ↦
      if is_none (to_bytes r candidate) || any (matches_proxy_rule r candidate) proxies
      then none
      else some candidate
]

-- The loop of `forwardedClientIp`, from the right: the last entry that gives an address.
unfoldable pub rightmost : (Text → Option Text) → List Text → Option Text
rightmost f [] = none
rightmost f (x ∷ xs) = or_else (rightmost f xs) (f x)

-- `forwardedClientIp`, of the header's value.
unfoldable pub forwarded_client_ip : Runtime → List Text → Text → Option Text
unfolding rightmost csv untrusted_entry
forwarded_client_ip r proxies header = rightmost (untrusted_entry r proxies) (csv r header)

unfoldable pub is_trusted_peer : Runtime → List Text → Option Text → Bool
unfolding matches_proxy_rule
is_trusted_peer r proxies none = false
is_trusted_peer r proxies (some peer) =
    not (is_empty peer) && any (matches_proxy_rule r peer) proxies

-- `clientIp`, from the peer's address and the header, where a missing one is an empty text.
unfoldable pub client_ip : Runtime → List Text → Option Text → Text → Option Text
unfolding forwarded_client_ip is_trusted_peer
client_ip r proxies peer header =
    if not (is_trusted_peer r proxies peer)
    then peer
    else or_else (forwarded_client_ip r proxies header) peer
