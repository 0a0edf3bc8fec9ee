-- ===== src/Tests/Analyses.antt =====
-- The recording of results, the history in the console and a purge, run on small data.
use telephone_booth_operator.Common.{
  ℕ, ◌≡◌, refl, String, true, false, none, some, List, [], ◌∷◌, sum_by, arith, filter,
}
use telephone_booth_operator.Results.{Runtime, Analysis}
use telephone_booth_operator.Results.Transcribing.{TranscriptionResult, record_transcription_result}
use telephone_booth_operator.Results.Moderating.{ModerationResult, record_moderation_result}
use telephone_booth_operator.Results.Fresh.{IsFresh}
use telephone_booth_operator.Results.Arriving.{AnalysisHistory, AnalysisHistory-IsFresh}
use telephone_booth_operator.StatusHistory.{BoothStatus, collapse_status_history, repeat_count_of}
use telephone_booth_operator.StatusHistory.Collapsing.{
  AreDifferent, IsCollapsed, collapse_status_history_lem,
}
use telephone_booth_operator.Store.{Db}
use telephone_booth_operator.Era.{find_active_installation, find_installation}
use telephone_booth_operator.Installations.Purging.{PurgedRows, BlobCounts, purge}
use telephone_booth_operator.Installations.Purged.{HasAudio}
use telephone_booth_operator.Installations.Cleared.{IsCleared, purge-IsCleared}
use telephone_booth_operator.Tests.Data.{sample}

abbrev runtime : Runtime
runtime = record { trim = λ s. s; digest = λ s. 0; parse = λ s. none; code_fence = λ s. none }

abbrev analysis : Analysis
analysis = record { transcriptions = []; moderations = []; duration_ms = none; next_id = 1 }

abbrev transcript : TranscriptionResult
transcript = record {
  transcription_id = none;
  expected_latest_id = none;
  expected_latest_digest = none;
  text = "hello";
  language = some "en";
  model = none;
  provider = none;
  requested_by = none;
}

abbrev verdict : ModerationResult
verdict = record {
  transcription_id = some 1;
  flagged = false;
  recommendation = some "approve";
  max_score = none;
  categories = [];
  reason_summary = none;
  model = none;
  input_digest = none;
  provider = none;
  requested_by = none;
  create_when_missing = true;
}

abbrev transcribed : Analysis
transcribed = (record_transcription_result runtime transcript 10 analysis).0

AnalysisHistory-IsFresh_example :
    IsFresh (record_moderation_result runtime verdict 20 transcribed).0
AnalysisHistory-IsFresh_example = AnalysisHistory-IsFresh runtime {a = analysis} tt (
    AnalysisHistory.and_moderation verdict 20 transcribed
      (AnalysisHistory.and_transcription transcript 10 analysis AnalysisHistory.nothing))

abbrev status : ℕ → String → ℕ → BoothStatus
status id state t = record {
  id = some id;
  state = state;
  current_question_id = none;
  current_message_id = none;
  last_error = none;
  runtime_mode = none;
  updated_at = t;
  first_seen_at = none;
  repeat_count = none;
}

abbrev history : List BoothStatus
history = status 3 "idle" 30 ∷ status 2 "idle" 20 ∷ status 1 "recording" 10 ∷ []

collapse_status_history_lem_example :
    IsCollapsed history (collapse_status_history history)
    × (sum_by repeat_count_of (collapse_status_history history) ≡ sum_by repeat_count_of history)
    × AreDifferent (collapse_status_history history)
    × (collapse_status_history (collapse_status_history history) ≡ collapse_status_history history)
collapse_status_history_lem_example = collapse_status_history_lem history

abbrev library : Db
library = record sample { questions = []; messages = filter (λ m. true) sample.messages }

library-HasAudio : HasAudio library
library-HasAudio = record {
  questions = tt;
  messages = (refl, (refl, (refl, tt)));
  instructions = tt;
}

abbrev rows : PurgedRows
rows = record { events = 0; messages = 1; call_sessions = 1; questions = 1; snapshots = 0 }

abbrev blobs : BlobCounts
blobs = record { deleted = 0; resurrected = 0; failures = [] }

purge-IsCleared_example :
    IsCleared sample 1 (purge sample sample (λ d. d) (λ key. some true) 1 "Installation").0
unfolding purge find_active_installation find_installation
purge-IsCleared_example =
    purge-IsCleared sample sample (λ key. some true) 1 "Installation" rows blobs 1
      (λ row h. ground (arith, h)) refl
