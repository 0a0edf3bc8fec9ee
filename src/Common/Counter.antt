-- ===== src/Common/Counter.antt =====
-- A `Record<string, number>` that counts: an association list in insertion order.
use Prim.Native.Nat.{ℕ, ◌+◌}
use mathlib.Core.Path.{◌≡◌, refl}
use mathlib.Core.Bool.{Bool, true}
use mathlib.Core.Logic.{◌↔◌}
use mathlib.Core.List.{List, [], ◌∷◌}
use native.Mathlib.Omega.{arith}
use telephone_booth_operator.Common.Tests.{if◌then◌else◌}
use telephone_booth_operator.Common.Lists.{sum_by}

module _ {ℓ} {K : Type ℓ} (same : K → K → Bool) where
  -- `record[key] = (record[key] ?? 0) + 1`
  unfoldable pub inc_record : List (K × ℕ) → K → List (K × ℕ)
  inc_record [] k = (k, 1) ∷ []
  inc_record ((j, n) ∷ r) k = if same j k then (j, n + 1) ∷ r else (j, n) ∷ inc_record r k

  -- `record[key] ?? 0`
  unfoldable pub tally : List (K × ℕ) → K → ℕ
  tally [] k = 0
  tally ((j, n) ∷ r) k = if same j k then n else tally r k

-- The sum of all counts.
abbrev pub total_of {ℓ} : {K : Type ℓ} → List (K × ℕ) → ℕ
total_of r = sum_by (λ e. e.1) r

module _ {ℓ} {K : Type ℓ} (same : K → K → Bool)
    (same_iff : (a b : K) → (same a b ≡ true) ↔ (a ≡ b)) where
  pub tally-inc_record :
      (r : List (K × ℕ)) (k j : K)
      → tally same (inc_record same r k) j ≡ tally same r j + (if same k j then 1 else 0)
  unfolding inc_record tally
  tally-inc_record [] k j = ground arith
  tally-inc_record ((i, n) ∷ r) k j =
      ground (arith, same_iff i k, same_iff i j, same_iff k j, tally-inc_record r k j)

pub total_of-inc_record {ℓ} :
    {K : Type ℓ} (same : K → K → Bool) (r : List (K × ℕ)) (k : K)
    → total_of (inc_record same r k) ≡ total_of r + 1
unfolding inc_record
total_of-inc_record same [] k = refl
total_of-inc_record same ((i, n) ∷ r) k = ground (arith, total_of-inc_record same r k)
