-- ===== src/Tests/Eras.antt =====
-- The bookkeeping of eras, run on the sample.
use telephone_booth_operator.Common.{ℕ, ◌≡◌, refl, String, none, some, [], ◌∷◌, arith}
use telephone_booth_operator.Store.{Db, draft, active}
use telephone_booth_operator.Store.Summary.{compute_installation_summary}
use telephone_booth_operator.Era.{find_active_installation}
use telephone_booth_operator.Installations.{end_era, Started, start_installation}
use telephone_booth_operator.Installations.Carry.{NoClash}
use telephone_booth_operator.Installations.Settled.{IsConsistent}
use telephone_booth_operator.Installations.Start.{start_installation-IsStarted, IsStarted}
use telephone_booth_operator.Tests.Data.{sample, next_era, prompt}

pub sample-IsConsistent : IsConsistent sample
unfolding compute_installation_summary
sample-IsConsistent = record {
  distinct = (refl, (refl, tt));
  fresh = (omega arith, (omega arith, tt));
  one_open = omega arith;
  settled = (
    record { frozen = refl; no_open_session = refl; no_awaiting = refl; no_live_question = refl },
    (tt, tt),
  );
}

names : ℕ → String
names n = "Installation"

start_installation-IsStarted_example :
    ((r : Started)
      → start_installation names sample sample next_era none 300 300 ≡ some r
      → IsStarted r)
    × (find_active_installation sample ≡ find_active_installation sample
        → (r : Started) × (start_installation names sample sample next_era none 300 300 ≡ some r))
start_installation-IsStarted_example =
    start_installation-IsStarted names sample sample next_era none 300 300 sample-IsConsistent

abbrev pub ended_sample : Db
ended_sample = elim (end_era sample 2 300 none none none) [ none ↦ sample | some db ↦ db ]

two_prompts :
    NoClash (prompt 21 "Where are you?" active 2 2 none ∷ prompt 22 "Why?" draft 1 2 none ∷ [])
two_prompts = ((refl, tt), (tt, tt))
