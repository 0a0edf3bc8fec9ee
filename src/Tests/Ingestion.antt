-- ===== src/Tests/Ingestion.antt =====
-- Booth events, run on the sample database: a session of the era that has ended hangs up late.
use telephone_booth_operator.Common.{
  ℕ, ◌+◌, ◌≡◌, ◌⊎◌, refl, none, some, List, [], ◌∷◌, String, filter,
}
use telephone_booth_operator.Common.Json.{obj, end}
use telephone_booth_operator.Analytics.{call_ended}
use telephone_booth_operator.Store.Summary.{session_in, compute_installation_summary}
use telephone_booth_operator.Era.{lock_installation, open_era, lock_open_installation}
use telephone_booth_operator.Events.{Incoming, is_frozen}
use telephone_booth_operator.Events.Ingest.{ingest, ingested, installation_inactive}
use telephone_booth_operator.Events.Frozen.{ingest-keeps_ended}
use telephone_booth_operator.Events.Retry.{ingest-retry}
use telephone_booth_operator.Events.Late.{ingest-late_event}
use telephone_booth_operator.Tests.Data.{sample}

abbrev hang_up : Incoming
hang_up = record {
  event_id = 1;
  booth_id = "booth";
  boot_id = "boot";
  occurred_at = 300;
  session_id = some 30;
  recording_id = none;
  version = none;
  event = record { kind = call_ended; payload = obj end };
}

abbrev codes : String → List ℕ
codes s = []

ingest-keeps_ended_example :
    filter (session_in 1) (ingest sample sample (hang_up ∷ []) codes 400).0.sessions
    ≡ filter (session_in 1) sample.sessions
unfolding lock_installation
ingest-keeps_ended_example =
    ingest-keeps_ended sample sample (hang_up ∷ []) codes 400 1 refl (λ id h. h)

ingest-retry_example :
    ((ingest sample
        (ingest sample sample (hang_up ∷ []) codes 400).0
        (hang_up ∷ [])
        codes
        500).0.events
      ≡ (ingest sample sample (hang_up ∷ []) codes 400).0.events)
    × (((ingest sample (ingest sample sample (hang_up ∷ []) codes 400).0 (hang_up ∷ []) codes 500).1
          ≡ ingested 0 1)
        ⊎ ((ingest sample
              (ingest sample sample (hang_up ∷ []) codes 400).0
              (hang_up ∷ [])
              codes
              500).1
            ≡ installation_inactive))
unfolding ingest open_era lock_open_installation is_frozen
ingest-retry_example =
    ingest-retry sample sample (hang_up ∷ []) codes 400 1 0 sample
      (ingest sample sample (hang_up ∷ []) codes 400).0 500 [] refl refl

ingest-late_event_example :
    ((compute_installation_summary (ingest sample sample (hang_up ∷ []) codes 400).0 1).events
      ≡ (compute_installation_summary sample 1).events + 1)
    × ((ingest sample sample (hang_up ∷ []) codes 400).0.installations ≡ sample.installations)
unfolding open_era lock_open_installation ingest is_frozen
ingest-late_event_example =
    ingest-late_event sample sample hang_up codes 400 30 1 2 2 1 0 _ refl refl refl refl refl refl
      refl
