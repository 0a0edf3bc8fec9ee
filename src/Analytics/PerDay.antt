-- ===== src/Analytics/PerDay.antt =====
-- packages/api/src/lib/interaction-analytics.ts: `buildInteractionPerDay`, one bucket for each day.
-- `isoDay` names a day, and names order as days do; here a day is its number.
use telephone_booth_operator.Common.{
  ℕ, zero, suc, ◌+◌, ◌-◌, ◌/◌, ◌≤◌, ◌≡◌, refl, Bool, Option, none, some, List, [], ◌∷◌,
  if◌then◌else◌, leb, ltb, ◌==◌, or_else, with_default, sum_by, arith, count, max,
}
use telephone_booth_operator.Analytics.{
  InteractionSession, outcome_is, no_selection_outcome, message_left_outcome,
}

pub record Bucket : Type 0 where
  pub total : ℕ
  pub no_selection : ℕ
  pub messages_left : ℕ

abbrev pub Buckets : Type 0
Buckets = List (ℕ × Bucket)

abbrev day_ms : ℕ
day_ms = 86400000

unfoldable pub iso_day : ℕ → ℕ
iso_day t = t / day_ms

-- `minStartedAt`: null on no sessions.
earliest : ℕ → List InteractionSession → ℕ
earliest m [] = m
earliest m (s ∷ ss) = earliest (if ltb s.started_at m then s.started_at else m) ss

pub min_started_at : List InteractionSession → Option ℕ
unfolding earliest
min_started_at [] = none
min_started_at (s ∷ ss) = some (earliest s.started_at (s ∷ ss))

abbrev empty_bucket : Bucket
empty_bucket = record { total = 0; no_selection = 0; messages_left = 0 }

-- The `while` loop: the days from one to another, of which `n` are left.
fill_days : ℕ → ℕ → Buckets
fill_days zero d = []
fill_days (suc n) d = (d, empty_bucket) ∷ fill_days n (d + 1)

add_session : InteractionSession → Bucket → Bucket
add_session s b = record {
  total = b.total + 1;
  no_selection = b.no_selection + (if outcome_is no_selection_outcome s then 1 else 0);
  messages_left = b.messages_left + (if outcome_is message_left_outcome s then 1 else 0);
}

-- `buckets.get(key) ?? …`, the updates, and `buckets.set(key, bucket)`.
bump : Buckets → ℕ → InteractionSession → Buckets
unfolding add_session
bump [] k s = (k, add_session s empty_bucket) ∷ []
bump ((d, b) ∷ r) k s = if d == k then (d, add_session s b) ∷ r else (d, b) ∷ bump r k s

bump_all : Buckets → List InteractionSession → Buckets
unfolding bump iso_day
bump_all r [] = r
bump_all r (s ∷ ss) = bump_all (bump r (iso_day s.started_at) s) ss

-- `.sort(…)` by date.
insert_by_day : ℕ × Bucket → Buckets → Buckets
insert_by_day e [] = e ∷ []
insert_by_day e (x ∷ r) = if leb e.0 x.0 then e ∷ x ∷ r else x ∷ insert_by_day e r

sort_by_day : Buckets → Buckets
unfolding insert_by_day
sort_by_day [] = []
sort_by_day (e ∷ r) = insert_by_day e (sort_by_day r)

abbrev start_day : Option ℕ → ℕ → List InteractionSession → ℕ
start_day range_start range_end sessions =
    iso_day (with_default (or_else range_start (min_started_at sessions)) range_end)

unfoldable pub build_interaction_per_day : Option ℕ → ℕ → List InteractionSession → Buckets
unfolding fill_days bump_all sort_by_day min_started_at iso_day
build_interaction_per_day range_start range_end sessions =
    let first = start_day range_start range_end sessions in
    let days = fill_days (iso_day range_end + 1 - first) first in
    sort_by_day (bump_all days sessions)

-- Any sum over the entries is kept by the sort.
sum_by-insert_by_day :
    (f : ℕ × Bucket → ℕ) (e : ℕ × Bucket) (r : Buckets)
    → sum_by f (insert_by_day e r) ≡ f e + sum_by f r
unfolding insert_by_day
sum_by-insert_by_day f e [] = refl
sum_by-insert_by_day f e (x ∷ r) = ground (arith, sum_by-insert_by_day f e r)

sum_by-sort_by_day : (f : ℕ × Bucket → ℕ) (r : Buckets) → sum_by f (sort_by_day r) ≡ sum_by f r
unfolding sort_by_day
sum_by-sort_by_day f [] = refl
sum_by-sort_by_day f (e ∷ r) =
    omega (arith, sum_by-insert_by_day f e (sort_by_day r), sum_by-sort_by_day f r)

-- The sessions filed under a day, and the entries that a day has.
abbrev pub filed_on : ℕ → ℕ × Bucket → ℕ
filed_on d e = if e.0 == d then e.1.total else 0

abbrev pub entry_of : ℕ → ℕ × Bucket → ℕ
entry_of d e = if e.0 == d then 1 else 0

abbrev pub started_on : ℕ → InteractionSession → Bool
started_on d s = iso_day s.started_at == d

filed_on-bump :
    (d : ℕ) (r : Buckets) (k : ℕ) (s : InteractionSession)
    → sum_by (filed_on d) (bump r k s) ≡ sum_by (filed_on d) r + (if k == d then 1 else 0)
unfolding bump
filed_on-bump d [] k s = ground arith
filed_on-bump d ((i, b) ∷ r) k s = ground (arith, filed_on-bump d r k s)

filed_on-bump_all :
    (d : ℕ) (r : Buckets) (ss : List InteractionSession)
    → sum_by (filed_on d) (bump_all r ss) ≡ sum_by (filed_on d) r + count (started_on d) ss
unfolding bump_all
filed_on-bump_all d r [] = omega arith
filed_on-bump_all d r (s ∷ ss) = omega (
  arith,
  filed_on-bump d r (iso_day s.started_at) s,
  filed_on-bump_all d (bump r (iso_day s.started_at) s) ss,
)

filed_on-fill_days : (d n k : ℕ) → sum_by (filed_on d) (fill_days n k) ≡ 0
unfolding fill_days
filed_on-fill_days d zero k = refl
filed_on-fill_days d (suc n) k = ground (arith, filed_on-fill_days d n (k + 1))

-- The bucket of a day counts the sessions that started on it.
pub per_day-filed :
    (range_start : Option ℕ) (range_end : ℕ) (sessions : List InteractionSession) (d : ℕ)
    → sum_by (filed_on d) (build_interaction_per_day range_start range_end sessions)
      ≡ count (started_on d) sessions
unfolding build_interaction_per_day
per_day-filed range_start range_end sessions d =
    let first = start_day range_start range_end sessions in
    let n = iso_day range_end + 1 - first in
    omega (
      arith,
      sum_by-sort_by_day (filed_on d) (bump_all (fill_days n first) sessions),
      filed_on-bump_all d (fill_days n first) sessions,
      filed_on-fill_days d n first,
    )

entry_of-bump :
    (d : ℕ) (r : Buckets) (k : ℕ) (s : InteractionSession)
    → sum_by (entry_of d) (bump r k s)
      ≡ (if k == d then max 1 (sum_by (entry_of d) r) else sum_by (entry_of d) r)
unfolding bump
entry_of-bump d [] k s = ground arith
entry_of-bump d ((i, b) ∷ r) k s = ground (arith, entry_of-bump d r k s)

entry_of-bump_all :
    (d : ℕ) (r : Buckets) (ss : List InteractionSession)
    → sum_by (entry_of d) r ≤ 1
    → (sum_by (entry_of d) r ≤ sum_by (entry_of d) (bump_all r ss))
      × (sum_by (entry_of d) (bump_all r ss) ≤ 1)
unfolding bump_all
entry_of-bump_all d r [] h = omega arith
entry_of-bump_all d r (s ∷ ss) h = ground (
  arith,
  entry_of-bump d r (iso_day s.started_at) s,
  entry_of-bump_all d (bump r (iso_day s.started_at) s) ss,
)

entry_of-fill_days :
    (d n k : ℕ)
    → sum_by (entry_of d) (fill_days n k) ≡ (if leb k d then if ltb d (k + n) then 1 else 0 else 0)
unfolding fill_days
entry_of-fill_days d zero k = ground arith
entry_of-fill_days d (suc n) k = ground (arith, entry_of-fill_days d n (k + 1))

module _ (range_start : Option ℕ) (range_end : ℕ) (sessions : List InteractionSession) (d : ℕ) where
  abbrev first_day : ℕ
  first_day = start_day range_start range_end sessions

  abbrev day_count : ℕ
  day_count = iso_day range_end + 1 - first_day

  entry_of-per_day :
      (sum_by (entry_of d) (fill_days day_count first_day)
        ≤ sum_by (entry_of d) (build_interaction_per_day range_start range_end sessions))
      × (sum_by (entry_of d) (build_interaction_per_day range_start range_end sessions) ≤ 1)
  unfolding build_interaction_per_day
  entry_of-per_day =
      let kept : sum_by (entry_of d) (fill_days day_count first_day) ≤ 1 =
        ground (arith, entry_of-fill_days d day_count first_day) in
      let (low, high) = entry_of-bump_all d (fill_days day_count first_day) sessions kept in
      let sorted =
        sum_by-sort_by_day (entry_of d) (bump_all (fill_days day_count first_day) sessions) in
      omega arith

  -- Every day from the first day of the range to its last one has exactly one bucket.
  pub per_day-covers :
      first_day ≤ d
      → d ≤ iso_day range_end
      → sum_by (entry_of d) (build_interaction_per_day range_start range_end sessions) ≡ 1
  per_day-covers a b = ground (arith, entry_of-per_day, entry_of-fill_days d day_count first_day)

-- Sorted, by recursion on the list.
abbrev pub IsSortedByDay : Buckets → Type 0
IsSortedByDay [] = Unit
IsSortedByDay (e ∷ []) = Unit
IsSortedByDay (e ∷ x ∷ r) = (e.0 ≤ x.0) × IsSortedByDay (x ∷ r)

insert_by_day-IsSortedByDay :
    (e : ℕ × Bucket) (r : Buckets) → IsSortedByDay r → IsSortedByDay (insert_by_day e r)
unfolding insert_by_day
insert_by_day-IsSortedByDay e [] h = tt
insert_by_day-IsSortedByDay e (x ∷ []) h = ground arith
insert_by_day-IsSortedByDay e (x ∷ y ∷ r) h =
    ground (arith, insert_by_day-IsSortedByDay e (y ∷ r) h.1)

sort_by_day-IsSortedByDay : (r : Buckets) → IsSortedByDay (sort_by_day r)
unfolding sort_by_day
sort_by_day-IsSortedByDay [] = tt
sort_by_day-IsSortedByDay (e ∷ r) =
    insert_by_day-IsSortedByDay e (sort_by_day r) (sort_by_day-IsSortedByDay r)

-- The buckets come in the order of their days, and no day has two.
pub per_day-IsSorted :
    (range_start : Option ℕ) (range_end : ℕ) (sessions : List InteractionSession) (d : ℕ)
    → IsSortedByDay (build_interaction_per_day range_start range_end sessions)
      × (sum_by (entry_of d) (build_interaction_per_day range_start range_end sessions) ≤ 1)
unfolding build_interaction_per_day
per_day-IsSorted range_start range_end sessions d = (
  sort_by_day-IsSortedByDay (
      bump_all
        (fill_days (iso_day range_end + 1 - start_day range_start range_end sessions)
          (start_day range_start range_end sessions))
        sessions),
  (entry_of-per_day range_start range_end sessions d).1,
)
