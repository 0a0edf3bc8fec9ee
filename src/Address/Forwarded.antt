-- ===== src/Address/Forwarded.antt =====
-- packages/api/src/lib/client-ip.ts, `clientIp`: what a caller writes into a forwarding header.
use telephone_booth_operator.Common.{
  is_empty, ℕ, ◌≡◌, refl, ap, ◌∙◌, true, not, Option, none, some, List, [], ◌∷◌, ◌++◌, map,
  if◌then◌else◌, ◌==◌, is_some, or_else, Text, split, filter, filter-append, Bool-cases,
  Option-cases, inl, inr, arith,
}
use telephone_booth_operator.Address.{
  untrusted_entry, rightmost, forwarded_client_ip, is_trusted_peer, client_ip,
}
use telephone_booth_operator.Address.Bytes.{Runtime, comma, csv}

-- The parts of a text as one list.
abbrev parts_of : Text → List Text
parts_of s = (split comma s).0 ∷ (split comma s).1

to_head : ℕ → List Text → List Text
to_head d [] = []
to_head d (x ∷ xs) = (d ∷ x) ∷ xs

split-append : (s t : Text) → parts_of (s ++ comma ∷ t) ≡ parts_of s ++ parts_of t
unfolding to_head
split-append [] t = refl
split-append (d ∷ s) t = elim (Bool-cases (d == comma)) [
  | inl e ↦ rw (parts_of, split, e) (ap (λ parts. [] ∷ parts) (split-append s t))
  | inr e ↦ rw (parts_of, split, e) (ap (to_head d) (split-append s t))
]

map-append : (f : Text → Text) (xs ys : List Text) → map f (xs ++ ys) ≡ map f xs ++ map f ys
map-append f [] ys = refl
map-append f (x ∷ xs) ys = ap (λ zs. f x ∷ zs) (map-append f xs ys)

csv-append : (r : Runtime) (s t : Text) → csv r (s ++ comma ∷ t) ≡ csv r s ++ csv r t
unfolding csv
csv-append r s t =
    ap (λ parts. filter (λ x. not (is_empty x)) (map r.trim parts)) (split-append s t)
    ∙ ap (filter (λ x. not (is_empty x))) (map-append r.trim (parts_of s) (parts_of t))
    ∙ filter-append (λ x. not (is_empty x)) (map r.trim (parts_of s)) (map r.trim (parts_of t))

rightmost-append :
    (f : Text → Option Text) (xs ys : List Text)
    → rightmost f (xs ++ ys) ≡ or_else (rightmost f ys) (rightmost f xs)
unfolding rightmost
rightmost-append f [] ys = elim (Option-cases (rightmost f ys)) [
  | inl e ↦ ground (arith, e)
  | inr (x, e) ↦ ground (arith, e)
]
rightmost-append f (x ∷ xs) ys = elim (Option-cases (rightmost f ys)) [
  | inl e ↦ ground (arith, e, rightmost-append f xs ys)
  | inr (y, e) ↦ ground (arith, e, rightmost-append f xs ys)
]

or_else-some : (a b : Option Text) → is_some a ≡ true → or_else a b ≡ a
or_else-some none b h = ground (arith, h)
or_else-some (some x) b h = refl

forwarded_client_ip-appended :
    (r : Runtime) (proxies : List Text) (forged appended : Text)
    → is_some (forwarded_client_ip r proxies appended) ≡ true
    → forwarded_client_ip r proxies (forged ++ comma ∷ appended)
      ≡ forwarded_client_ip r proxies appended
unfolding forwarded_client_ip
forwarded_client_ip-appended r proxies forged appended h =
    let f = untrusted_entry r proxies in
    ap (rightmost f) (csv-append r forged appended)
    ∙ rightmost-append f (csv r forged) (csv r appended)
    ∙ or_else-some (rightmost f (csv r appended)) (rightmost f (csv r forged)) h

-- What a caller puts into the header before the entries that the proxies append has no influence on
-- the address, as soon as one of those entries is the address of no proxy.
pub client_ip-appended :
    (r : Runtime) (proxies : List Text) (peer : Option Text) (forged appended : Text)
    → is_some (forwarded_client_ip r proxies appended) ≡ true
    → client_ip r proxies peer (forged ++ comma ∷ appended) ≡ client_ip r proxies peer appended
unfolding client_ip
client_ip-appended r proxies peer forged appended h =
    ap (λ ip. if not (is_trusted_peer r proxies peer) then peer else or_else ip peer)
      (forwarded_client_ip-appended r proxies forged appended h)
