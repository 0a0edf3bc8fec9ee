-- ===== src/StatusHistory/Merging.antt =====
-- packages/web/src/lib/status-history.ts, `mergeLiveStatus`: what a live frame changes.
use telephone_booth_operator.Common.{
  ◌⊎◌, ◌-◌, All, is_some, is_none, ℕ, zero, suc, ◌≤◌, ◌≡◌, refl, ◌<◌, true, false, Option, none,
  some, List, [], ◌∷◌, ◌++◌, if◌then◌else◌, length, take, drop, Option-cases, inl, inr, arith,
}
use telephone_booth_operator.StatusHistory.{
  BoothStatus, is_stale_frame, is_run_at, is_same_run, cached_at, replace_at, merge_live_status,
}

length-take-le : (n : ℕ) (xs : List BoothStatus) → length (take n xs) ≤ n
length-take-le zero xs = omega arith
length-take-le (suc n) [] = omega arith
length-take-le (suc n) (x ∷ xs) = omega (arith, length-take-le n xs)

length-replace_at :
    (s : BoothStatus) (history : List BoothStatus) (n : ℕ)
    → length (replace_at s history n) ≡ length history
unfolding replace_at
length-replace_at s [] n = refl
length-replace_at s (x ∷ xs) zero = ground arith
length-replace_at s (x ∷ xs) (suc n) = ground (arith, length-replace_at s xs n)

-- The cached copy of the run is at a position: it is replaced, but not rewound.
pub record IsReplaced (s : BoothStatus) (history merged : List BoothStatus) : Type 0 where
  pub before : List BoothStatus
  pub after : List BoothStatus
  pub copy : BoothStatus
  pub split : history ≡ before ++ copy ∷ after
  pub run : is_same_run copy s ≡ true
  pub result : merged ≡ before ++ (if is_stale_frame copy s then copy else s) ∷ after

abbrev StartsNoLater : BoothStatus → List BoothStatus → Type 0
StartsNoLater s [] = Unit
StartsNoLater s (x ∷ xs) = x.updated_at ≤ s.updated_at

-- The run has no cached copy: the frame is a new entry, behind those that are newer. A frame with an
-- id has no copy anywhere, one without an id none at its place or just before it.
pub record IsInserted (s : BoothStatus) (history merged : List BoothStatus) : Type 0 where
  pub index : ℕ
  pub result : merged ≡ take index history ++ s ∷ drop index history
  pub newer : All (λ x. s.updated_at < x.updated_at) (take index history)
  pub older : StartsNoLater s (drop index history)
  pub nowhere : is_some s.id ≡ true → All (λ x. is_same_run x s ≡ false) history
  pub not_beside :
      is_none s.id ≡ true
      → (is_run_at s history index ≡ false) × (is_run_at s history (index - 1) ≡ false)

abbrev pub IsMerged : BoothStatus → List BoothStatus → List BoothStatus → Type 0
IsMerged s history merged = IsReplaced s history merged ⊎ IsInserted s history merged

-- A position that was found is of the run.
abbrev IsFound : BoothStatus → List BoothStatus → Option ℕ → Type 0
IsFound s history none = Unit
IsFound s history (some n) = is_run_at s history n ≡ true

-- However many frames arrive, the cached history holds no more than its limit.
length-merge_live_status-le :
    (history : List BoothStatus) (s : BoothStatus) (limit : ℕ)
    → length history ≤ limit
    → length (merge_live_status history s limit) ≤ limit
unfolding merge_live_status
length-merge_live_status-le history s limit h = elim (Option-cases (cached_at s history s.id)) [
  | inl e ↦ rw (merge_live_status, e) (length-take-le limit _)
  | inr (n, e) ↦ rw (merge_live_status, e) (ground (arith, h, length-replace_at s history n))
]
