-- ===== src/Sessions/Backoff/Cooling.antt =====
-- packages/api/src/lib/session.ts: how long a failure keeps a session from asking again.
use telephone_booth_operator.Common.{
  ℕ, ◌+◌, ◌-◌, ◌^◌, ◌≤◌, ◌<◌, zero, suc, ◌≡◌, refl, true, false, some, List, [], ◌∷◌, Text, text_eq,
  text_eq_iff, find_first, Bool-cases, Option-cases, inl, inr, arith,
}
use telephone_booth_operator.Sessions.Backoff.{
  Backoff, is_backoff, refresh_backoff_base_ms, refresh_backoff_max_ms, bound_refresh_backoffs,
  set_backoff, refresh_delay, note_refresh_failure, refresh_is_cooling_down,
}

find_first-set_backoff :
    (b : Backoff) (bs : List Backoff)
    → find_first (is_backoff b.session) (set_backoff b bs) ≡ some b
unfolding set_backoff
find_first-set_backoff b [] = rw ((text_eq_iff b.session b.session).1 refl) refl
find_first-set_backoff b (x ∷ bs) = elim (Bool-cases (text_eq x.session b.session)) [
  | inl e ↦ ground (arith, e, (text_eq_iff b.session b.session).1 refl)
  | inr e ↦ ground (arith, e, find_first-set_backoff b bs)
]

pow-pos : (n : ℕ) → 1 ≤ 2 ^ n
pow-pos zero = omega arith
pow-pos (suc n) = omega (arith, pow-pos n)

refresh_delay-bounds :
    (n : ℕ)
    → (refresh_backoff_base_ms ≤ refresh_delay n) × (refresh_delay n ≤ refresh_backoff_max_ms)
unfolding refresh_delay
refresh_delay-bounds n = (omega (arith, pow-pos (n - 1)), omega arith)

-- A session whose refresh failed does not ask the provider for fifteen seconds, and may ask again
-- after five minutes, whatever failed before and whatever the map held.
pub note_refresh_failure-cools :
    (id : Text) (now later : ℕ) (bs : List Backoff)
    → let cools = refresh_is_cooling_down id later (note_refresh_failure id now bs) in
      (later < now + refresh_backoff_base_ms → cools ≡ true)
      × (now + refresh_backoff_max_ms ≤ later → cools ≡ false)
unfolding note_refresh_failure refresh_is_cooling_down
note_refresh_failure-cools id now later bs = elim (Option-cases (find_first (is_backoff id) bs)) [
  | inl e ↦
      let b : Backoff = record { session = id; failures = 1; retry_at = now + refresh_delay 1 } in
      rw (note_refresh_failure, e, find_first-set_backoff b (bound_refresh_backoffs now bs))
        (ground (arith, refresh_delay-bounds 1))
  | inr (p, e) ↦
      let n = p.failures + 1 in
      let b : Backoff = record { session = id; failures = n; retry_at = now + refresh_delay n } in
      rw (note_refresh_failure, e, find_first-set_backoff b bs)
        (ground (arith, refresh_delay-bounds n))
]
