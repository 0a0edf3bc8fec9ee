-- ===== src/Sessions/Backoff/Bound.antt =====
-- packages/api/src/lib/session.ts, `boundRefreshBackoffs`: its loop ends, and the map stays small.
use telephone_booth_operator.Common.{
  ℕ, zero, suc, ◌+◌, ◌≤◌, ◌<◌, ◌≡◌, refl, Bool, true, false, not, some, List, [], ◌∷◌,
  if◌then◌else◌, ltb, leb, Text, text_eq_iff, length, find_first, delete_many, any, Bool-cases,
  Option-cases, inl, inr, arith, length-filter-le,
}
use telephone_booth_operator.Sessions.Backoff.{
  Backoff, is_backoff, refresh_backoff_max_entries, clear_refresh_backoff, soonest_from,
  evict_soonest, bound_refresh_backoffs, set_backoff, refresh_delay, note_refresh_failure,
}

-- Whatever is scanned, the scan finds an entry of the list.
soonest_from-found :
    (best : Backoff) (bs : List Backoff)
    → (b : Backoff) × (soonest_from (some best) bs ≡ some b)
      × (any (is_backoff b.session) (best ∷ bs) ≡ true)
unfolding soonest_from
soonest_from-found best [] =
    (best, refl, ground (arith, (text_eq_iff best.session best.session).1 refl))
soonest_from-found best (x ∷ bs) = elim (Bool-cases (ltb x.retry_at best.retry_at)) [
  | inl e ↦ let (b, f, a) = soonest_from-found x bs in (b, rw e f, ground (arith, a))
  | inr e ↦ let (b, f, a) = soonest_from-found best bs in (b, rw e f, ground (arith, a))
]

length-delete_many :
    (p : Backoff → Bool) (bs : List Backoff)
    → any p bs ≡ true
    → suc (length (delete_many p bs)) ≤ length bs
length-delete_many p [] h = ground arith
length-delete_many p (b ∷ bs) h = elim (Bool-cases (p b)) [
  | inl e ↦ ground (arith, length-filter-le (λ x. not (p x)) bs)
  | inr e ↦ ground (arith, length-delete_many p bs)
]

-- One turn of the loop on a map that is full removes at least an entry.
evict_soonest-turn :
    (bs : List Backoff)
    → leb refresh_backoff_max_entries (length bs) ≡ true
    → (b : Backoff) × ((fuel : ℕ)
        → evict_soonest (suc fuel) bs ≡ evict_soonest fuel (clear_refresh_backoff b.session bs))
      × (suc (length (clear_refresh_backoff b.session bs)) ≤ length bs)
unfolding evict_soonest clear_refresh_backoff soonest_from
evict_soonest-turn [] h = ground (arith, h)
evict_soonest-turn (b ∷ bs) h =
    let (c, f, a) = soonest_from-found b bs in
    (c, λ fuel. rw (h, f) refl, length-delete_many (is_backoff c.session) (b ∷ bs) a)

evict_soonest-done :
    (fuel : ℕ) (bs : List Backoff)
    → leb refresh_backoff_max_entries (length bs) ≡ false
    → evict_soonest fuel bs ≡ bs
unfolding evict_soonest
evict_soonest-done zero bs h = refl
evict_soonest-done (suc fuel) bs h = rw h refl

-- The loop of the eviction ends: with as many turns as there are entries it leaves a map that is not
-- full, and more turns change nothing.
pub evict_soonest-ends :
    (fuel : ℕ) (bs : List Backoff)
    → length bs ≤ fuel
    → (length (evict_soonest fuel bs) < refresh_backoff_max_entries)
      × (evict_soonest (suc fuel) bs ≡ evict_soonest fuel bs)
evict_soonest-ends zero bs h =
    let e : leb refresh_backoff_max_entries (length bs) ≡ false = ground (arith, h) in
    rw (evict_soonest-done zero bs e, evict_soonest-done 1 bs e) (ground (arith, h), refl)
evict_soonest-ends (suc n) bs h = elim (Bool-cases (leb refresh_backoff_max_entries (length bs))) [
  | inl e ↦
      let (b, turn, fewer) = evict_soonest-turn bs e in
      rw (turn n, turn (suc n))
        (evict_soonest-ends n (clear_refresh_backoff b.session bs) (omega (arith, fewer, h)))
  | inr e ↦
      rw (evict_soonest-done (suc n) bs e, evict_soonest-done (suc (suc n)) bs e)
        (ground (arith, e), refl)
]

set_backoff-length :
    (b : Backoff) (bs : List Backoff)
    → length (set_backoff b bs)
      ≡ (if any (is_backoff b.session) bs then length bs else suc (length bs))
unfolding set_backoff
set_backoff-length b [] = refl
set_backoff-length b (x ∷ bs) = ground (arith, set_backoff-length b bs)

find_first-some :
    (p : Backoff → Bool) (bs : List Backoff) (b : Backoff)
    → find_first p bs ≡ some b
    → any p bs ≡ true
find_first-some p [] b h = ground arith
find_first-some p (x ∷ bs) b h = ground (arith, find_first-some p bs b)

bound_refresh_backoffs-length :
    (now : ℕ) (bs : List Backoff)
    → length (bound_refresh_backoffs now bs) < refresh_backoff_max_entries
unfolding bound_refresh_backoffs
bound_refresh_backoffs-length now bs =
    elim (Bool-cases (ltb (length bs) refresh_backoff_max_entries)) [
      | inl e ↦ rw e (ground (arith, e))
      | inr e ↦
          rw e
            (evict_soonest-ends (length bs) (delete_many (λ b. leb b.retry_at now) bs)
              (length-filter-le (λ b. not (leb b.retry_at now)) bs)).0
    ]

note_refresh_failure-length :
    (id : Text) (now : ℕ) (bs : List Backoff)
    → length bs ≤ refresh_backoff_max_entries
    → length (note_refresh_failure id now bs) ≤ refresh_backoff_max_entries
unfolding note_refresh_failure
note_refresh_failure-length id now bs h = elim (Option-cases (find_first (is_backoff id) bs)) [
  | inl e ↦
      rw (note_refresh_failure, e)
        (ground (
          arith,
          set_backoff-length
              (record { session = id; failures = 1; retry_at = now + refresh_delay 1 })
              (bound_refresh_backoffs now bs),
          bound_refresh_backoffs-length now bs,
        ))
  | inr (b, e) ↦
      rw (note_refresh_failure, e)
        (ground (
          arith,
          set_backoff-length
              (record {
                session = id;
                failures = b.failures + 1;
                retry_at = now + refresh_delay (b.failures + 1);
              })
              bs,
          find_first-some (is_backoff id) bs b e,
          h,
        ))
]

-- The maps that come about from the empty one by failures and by ends of a back-off.
pub data BackoffHistory : List Backoff → Type 0 where
  no_failure : BackoffHistory []
  failed :
      (id : Text) (now : ℕ) (bs : List Backoff)
      → BackoffHistory bs
      → BackoffHistory (note_refresh_failure id now bs)
  cleared :
      (id : Text) (bs : List Backoff)
      → BackoffHistory bs
      → BackoffHistory (clear_refresh_backoff id bs)

-- However many sessions fail to refresh, and in whatever order, the map holds a thousand at most.
pub BackoffHistory-length :
    {bs : List Backoff} → BackoffHistory bs → length bs ≤ refresh_backoff_max_entries
unfolding clear_refresh_backoff
BackoffHistory-length no_failure = omega arith
BackoffHistory-length (failed id now bs h) =
    note_refresh_failure-length id now bs (BackoffHistory-length h)
BackoffHistory-length (cleared id bs h) =
    omega (arith, length-filter-le (λ b. not (is_backoff id b)) bs, BackoffHistory-length h)
