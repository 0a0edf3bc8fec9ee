-- ===== src/Tests/Work.antt =====
-- Leases, run on two recordings in the open era of the sample.
use text.Mathlib.Text.{◌==◌ as str_eq}
use telephone_booth_operator.Common.{
  ℕ, ◌≡◌, ◌≢◌, refl, true, false, none, some, List, [], ◌∷◌, All, all, any, arith,
}
use telephone_booth_operator.Store.{received, Processing, Review}
use telephone_booth_operator.Era.{lock_installation, open_era, find_active_installation}
use telephone_booth_operator.Leases.{
  ClaimRequest, claim, is_candidate, active_lease, release, fail, lease_lost, failed, holds_lease,
  find_work,
}
use telephone_booth_operator.Leases.Needs.{
  Runtime, WorkMessage, transcription, moderation, processing_needs, step_eq,
  processing_snapshot_hash,
}
use telephone_booth_operator.Leases.Exclusion.{LeasedTo, claim-grants}
use telephone_booth_operator.Leases.Holding.{claim-takes_over}
use telephone_booth_operator.Leases.Steps.{no_step, and_then, releases}
use telephone_booth_operator.Leases.Lasting.{claim-exclusive, fail-terminal, complete-not_claimed}
use telephone_booth_operator.Leases.Completing.{refused, completed, complete}
use telephone_booth_operator.Leases.Submitting.{CompletionRequest, Rejection, hydrated}
use telephone_booth_operator.Leases.Completed.{complete-spent, complete-current}
use telephone_booth_operator.Results
use telephone_booth_operator.Results.{Analysis}
use telephone_booth_operator.Results.Transcribing.{record_transcription_result}
use telephone_booth_operator.Results.Moderating.{record_moderation_result}
use telephone_booth_operator.Tests.Data.{sample, no_work}

abbrev runtime : Runtime
runtime = record {
  is_blank = λ s. str_eq s "";
  trim_lower = λ s. s;
  snapshot_digest = λ s. 0;
  token_digest = λ t. t;
}

abbrev unreviewed : Review
unreviewed = record {
  classification = none;
  recommendation = none;
  classified_at = none;
  classified_by = none;
}

abbrev work : ℕ → Processing → WorkMessage
work id p = record {
  id = id;
  created_at = id;
  status = received;
  installation_id = some 2;
  review = unreviewed;
  processing = p;
  transcriptions = [];
  moderations = [];
}

abbrev queue : List WorkMessage
queue = work 1 no_work ∷ work 2 no_work ∷ []

abbrev request : ClaimRequest
request = record {
  capabilities = transcription ∷ moderation ∷ [];
  lease_seconds = 60;
  token = 5;
  user = 7;
  now = 1000;
}

abbrev later : ClaimRequest
later = record {
  capabilities = transcription ∷ [];
  lease_seconds = 60;
  token = 6;
  user = 8;
  now = 2000;
}

picked_first : (claim runtime sample sample queue queue request).1 ≡ some (work 1 no_work)
unfolding claim open_era find_active_installation lock_installation processing_needs
picked_first = refl

-- The candidates, read in another order.
abbrev swapped : List WorkMessage
swapped = work 2 no_work ∷ work 1 no_work ∷ []

picked_second :
    (claim runtime sample sample queue (claim runtime sample sample queue queue request).0 later).1
    ≡ some (work 2 no_work)
unfolding claim open_era find_active_installation lock_installation processing_needs
picked_second = refl

claim-grants_example :
    (e : ℕ) × (open_era sample ≡ some e)
    × (lock_installation sample e ≡ true)
    × (is_candidate e (work 1 no_work) ≡ true)
    × (active_lease 1000 (work 1 no_work) ≡ false)
    × (processing_needs runtime (work 1 no_work) ≢ [])
    × (all
          (λ need. any (step_eq need) request.capabilities)
          (processing_needs runtime (work 1 no_work))
        ≡ true)
    × All (LeasedTo runtime request 1) (claim runtime sample sample queue queue request).0
claim-grants_example =
    claim-grants runtime sample sample queue queue request (work 1 no_work) (omega arith)
      picked_first

picked_second_then :
    let after = (claim runtime sample sample queue queue request).0 in
    (claim runtime sample sample queue (release runtime after 1 4 7 1500).0 later).1
    ≡ some (work 2 no_work)
unfolding claim release holds_lease open_era find_active_installation lock_installation
    processing_needs
picked_second_then = refl

-- Another worker tries to give the message back, which is refused.
claim-exclusive_example : (work 2 no_work).id ≢ (work 1 no_work).id
claim-exclusive_example =
    let after = (claim runtime sample sample queue queue request).0 in
    claim-exclusive runtime sample sample sample sample queue queue queue
      (release runtime after 1 4 7 1500).0 request later (work 1 no_work) (work 2 no_work)
      (omega arith) picked_first
      (and_then no_step (releases 1 4 7 1500 ((λ h. omega (arith, h)), omega arith))) (omega arith)
      picked_second_then

claim-takes_over_example :
    let after = (claim runtime sample sample queue queue request).0 in
    release runtime after 1 4 7 1500 ≡ (after, lease_lost)
claim-takes_over_example =
    claim-takes_over runtime sample sample queue queue request (work 1 no_work) 4 7 1500
      (omega arith) picked_first (λ h. omega (arith, h))

abbrev tired : Processing
tired =
    let p = no_work in
    record p {
      lease_token_hash = some 5;
      lease_expires_at = some 9000;
      leased_by = some 7;
      attempt_count = 3;
    }

abbrev last_try : List WorkMessage
last_try = work 1 tired ∷ work 2 no_work ∷ []

gave_up : (fail runtime last_try 1 5 "no_model" 7 1000).1 ≡ failed true
unfolding fail holds_lease
gave_up = refl

other_picked :
    (claim runtime sample sample last_try (fail runtime last_try 1 5 "no_model" 7 1000).0 later).1
    ≡ some (work 2 no_work)
unfolding claim open_era find_active_installation lock_installation processing_needs fail
    holds_lease
other_picked = refl

fail-terminal_example : (work 2 no_work).id ≢ (work 1 no_work).id
unfolding fail holds_lease
fail-terminal_example =
    let after = (fail runtime last_try 1 5 "no_model" 7 1000).0 in
    fail-terminal runtime 1 5 7 1000 "no_model" last_try last_try after sample sample later
      (work 2 no_work) (omega arith) gave_up no_step (omega arith) other_picked

-- A completion with a transcript and a verdict.
abbrev results : Results.Runtime
results = record { trim = λ s. s; digest = λ s. 0; parse = λ s. none; code_fence = λ s. none }

abbrev at_work : Processing
at_work =
    let p = no_work in
    record p {
      lease_token_hash = some 5;
      lease_expires_at = some 9000;
      leased_by = some 7;
      snapshot_hash = some 0;
      attempt_count = 1;
    }

abbrev busy : List WorkMessage
busy = work 1 at_work ∷ work 2 no_work ∷ []

abbrev blank : Analysis
blank = record { transcriptions = []; moderations = []; duration_ms = none; next_id = 1 }

abbrev handed_in : CompletionRequest
handed_in = record {
  token = 5;
  user = 7;
  now = 1000;
  transcription = some (record {
    expected_latest_id = some none;
    expected_latest_digest = none;
    text = "hello";
    language = some "en";
    model = none;
  });
  translation = none;
  moderation = some (record {
    input_digest = none;
    flagged = false;
    recommendation = "approve";
    max_score = 0;
    categories = [];
    reason_summary = none;
    model = none;
  });
  review = none;
}

all_done : (complete runtime results sample busy blank 1 handed_in).2 ≡ completed []
unfolding complete find_work lock_installation holds_lease processing_snapshot_hash hydrated
    processing_needs record_transcription_result record_moderation_result
all_done = refl

next_picked :
    (claim runtime sample sample busy
      (complete runtime results sample busy blank 1 handed_in).0
      later).1
    ≡ some (work 2 no_work)
unfolding claim open_era find_active_installation complete find_work lock_installation holds_lease
    processing_snapshot_hash hydrated processing_needs record_transcription_result
    record_moderation_result
next_picked = refl

complete-not_claimed_example : (work 2 no_work).id ≢ 1
complete-not_claimed_example =
    complete-not_claimed runtime results sample busy blank 1 handed_in sample sample busy
      (complete runtime results sample busy blank 1 handed_in).0 later (work 2 no_work) all_done
      no_step next_picked

complete-spent_example :
    let after = complete runtime results sample busy blank 1 handed_in in
    (why : Rejection) × (complete runtime results sample after.0 after.1 1 handed_in
      ≡ (after.0, after.1, refused why))
complete-spent_example =
    complete-spent runtime results sample sample busy blank 1 handed_in handed_in [] all_done

complete-current_example :
    ((hydrated (work 1 at_work) blank).transcriptions ≡ [])
    × ((hydrated (work 1 at_work) blank).moderations ≡ [])
    × ((work 1 at_work).review.classification ≡ none)
unfolding find_work processing_snapshot_hash hydrated
complete-current_example =
    complete-current runtime results sample busy blank 1 handed_in (work 1 at_work) (work 1 at_work)
      [] (λ _. refl) refl refl all_done
