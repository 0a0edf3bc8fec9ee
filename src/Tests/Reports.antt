-- ===== src/Tests/Reports.antt =====
-- Status reports, run on one idle run in the open era of the sample.
use telephone_booth_operator.Common.{ℕ, ◌≡◌, refl, none, some, List, [], ◌∷◌}
use telephone_booth_operator.Store.{Db}
use telephone_booth_operator.Era.{lock_open_installation}
use telephone_booth_operator.Status.{StatusSnapshot, StatusUpdate, is_repeat_of, report, put_status}
use telephone_booth_operator.Tests.Data.{sample}

abbrev idle_run : StatusSnapshot
idle_run = record {
  id = 1;
  state = "idle";
  current_question_id = none;
  current_message_id = none;
  last_error = none;
  runtime_mode = none;
  first_seen_at = 100;
  updated_at = 200;
  repeat_count = 4;
  installation_id = some 2;
}

abbrev idle : StatusUpdate
idle = record {
  state = "idle";
  current_question_id = none;
  current_message_id = none;
  last_error = none;
  runtime_mode = none;
  updated_at = some 2000;
}

-- The run as it was read, before another request counted a report.
abbrev stale_run : StatusSnapshot
stale_run = record idle_run { repeat_count = 3 }

abbrev folded : List StatusSnapshot × ℕ
folded = elim (report 2 2 2000 idle (stale_run ∷ []) (idle_run ∷ [])) [
  | none ↦ ([], 0)
  | some r ↦ r
]

abbrev reported : Db × List StatusSnapshot
reported = elim (put_status sample (idle_run ∷ []) (idle_run ∷ []) 2 idle 2000) [
  | none ↦ (sample, [])
  | some r ↦ r
]

was_reported : put_status sample (idle_run ∷ []) (idle_run ∷ []) 2 idle 2000 ≡ some reported
unfolding put_status lock_open_installation report is_repeat_of
was_reported = refl
