-- ===== src/Sessions/Backoff.antt =====
-- packages/api/src/lib/session.ts: the back-off of the sessions whose access token could not be
-- refreshed, a map that is bounded.
pub mod Bound
pub mod Cooling
use telephone_booth_operator.Common.{
  ℕ, zero, suc, ◌+◌, ◌-◌, ◌*◌, ◌^◌, ◌≤◌, ◌<◌, min, ◌≡◌, refl, sym, ap, ◌∙◌, Bool, true, false, not,
  Option, none, some, List, [], ◌∷◌, if◌then◌else◌, ltb, leb, Text, text_eq, text_eq_iff, length,
  filter, find_first, delete_many, with_default, holds, any, Bool-cases, Option-cases, inl, inr,
  arith, length-filter-le,
}

abbrev pub refresh_backoff_base_ms : ℕ
refresh_backoff_base_ms = 15000

abbrev pub refresh_backoff_max_ms : ℕ
refresh_backoff_max_ms = 300000

abbrev pub refresh_backoff_max_entries : ℕ
refresh_backoff_max_entries = 1000

-- An entry of `refreshBackoffs`, whose keys are different.
pub record Backoff : Type 0 where
  pub session : Text
  pub failures : ℕ
  pub retry_at : ℕ

abbrev pub is_backoff : Text → Backoff → Bool
is_backoff id b = text_eq b.session id

unfoldable pub clear_refresh_backoff : Text → List Backoff → List Backoff
clear_refresh_backoff id bs = delete_many (is_backoff id) bs

-- The scan for the entry that is closest to lapsing, the first one of them; any number is below the
-- infinity that it starts from.
unfoldable pub soonest_from : Option Backoff → List Backoff → Option Backoff
soonest_from best [] = best
soonest_from none (b ∷ bs) = soonest_from (some b) bs
soonest_from (some best) (b ∷ bs) =
    soonest_from (some (if ltb b.retry_at best.retry_at then b else best)) bs

-- The `while` loop. A turn of it removes an entry, so that as many turns as entries are enough.
unfoldable pub evict_soonest : ℕ → List Backoff → List Backoff
unfolding soonest_from clear_refresh_backoff
evict_soonest zero bs = bs
evict_soonest (suc fuel) bs =
    let rest : List Backoff = elim (soonest_from none bs) [
      | none ↦ bs
      | some b ↦ evict_soonest fuel (clear_refresh_backoff b.session bs)
    ] in
    if leb refresh_backoff_max_entries (length bs) then rest else bs

unfoldable pub bound_refresh_backoffs : ℕ → List Backoff → List Backoff
unfolding evict_soonest
bound_refresh_backoffs now bs =
    if ltb (length bs) refresh_backoff_max_entries
    then bs
    else evict_soonest (length bs) (delete_many (λ b. leb b.retry_at now) bs)

-- `Map.set`
unfoldable pub set_backoff : Backoff → List Backoff → List Backoff
set_backoff b [] = b ∷ []
set_backoff b (x ∷ bs) =
    let rest = set_backoff b bs in if text_eq x.session b.session then b ∷ bs else x ∷ rest

unfoldable pub refresh_delay : ℕ → ℕ
refresh_delay failures = min (refresh_backoff_base_ms * 2 ^ (failures - 1)) refresh_backoff_max_ms

unfoldable pub note_refresh_failure : Text → ℕ → List Backoff → List Backoff
unfolding bound_refresh_backoffs set_backoff refresh_delay
note_refresh_failure id now bs = elim (find_first (is_backoff id) bs) [
  | none ↦
      set_backoff (record { session = id; failures = 1; retry_at = now + refresh_delay 1 })
        (bound_refresh_backoffs now bs)
  | some previous ↦
      let failures = previous.failures + 1 in
      set_backoff
        (record { session = id; failures = failures; retry_at = now + refresh_delay failures }) bs
]

unfoldable pub refresh_is_cooling_down : Text → ℕ → List Backoff → Bool
refresh_is_cooling_down id now bs = holds (λ b. ltb now b.retry_at) (find_first (is_backoff id) bs)
