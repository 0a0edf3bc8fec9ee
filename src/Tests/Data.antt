-- ===== src/Tests/Data.antt =====
-- A database with an era that has ended and one that is open.
use telephone_booth_operator.Common.{ℕ, ◌+◌, true, String, Option, none, some, List, [], ◌∷◌}
use telephone_booth_operator.Analytics.{InteractionSession}
use telephone_booth_operator.Store.{
  MessageStatus, uploading, pending, approved, QuestionStatus, active, archived, Question, Message,
  Processing, Review, Installation, Db, InstallationSummary,
}
use telephone_booth_operator.Store.Summary.{compute_installation_summary}
use telephone_booth_operator.Installations.{InstallationCreate}
use telephone_booth_operator.Messages.{Blob}

abbrev pub no_review : Review
no_review = record {
  classification = none;
  recommendation = none;
  classified_at = none;
  classified_by = none;
}

abbrev pub no_work : Processing
no_work = record {
  lease_token_hash = none;
  lease_expires_at = none;
  leased_at = none;
  leased_by = none;
  snapshot_hash = none;
  attempt_count = 0;
  error = none;
  failed_at = none;
  completed_at = none;
}

abbrev pub recording : ℕ → MessageStatus → ℕ → Message
recording id status era = record {
  id = id;
  status = status;
  notes = none;
  question_id = none;
  audio_id = 40;
  audio_duration_ms = some 1500;
  installation_id = some era;
  received_at = none;
  decided_at = none;
  decided_by = none;
  review = no_review;
  processing = no_work;
}

abbrev pub prompt : ℕ → String → QuestionStatus → ℕ → ℕ → Option ℕ → Question
prompt id text status weight era retired_at = record {
  id = id;
  prompt = text;
  audio_id = id;
  status = status;
  weight = weight;
  installation_id = some era;
  retired_at = retired_at;
  last_selected_cycle = none;
  selections_in_cycle = 0;
}

abbrev pub call : Option ℕ → Option String → InteractionSession
call ended_at outcome = record {
  started_at = 1000;
  ended_at = ended_at;
  outcome = outcome;
  duration_ms = some 5000;
  digits_dialed = none;
}

abbrev pub two_calls : List InteractionSession
two_calls = call (some 6000) (some "recording_completed") ∷ call none none ∷ []

abbrev pub rows : Db
rows = record {
  installations = [];
  messages = recording 10 approved 1 ∷ recording 11 uploading 2 ∷ recording 12 pending 2 ∷ [];
  questions =
      prompt 20 "Who are you?" archived 1 1 (some 200)
      ∷ prompt 21 "Where are you?" active 2 2 none
      ∷ prompt 22 "Why are you here?" active 1 2 none
      ∷ [];
  sessions =
      record {
        id = 30;
        booth_id = "booth";
        boot_id = "boot";
        recording_id = none;
        version = none;
        installation_id = some 1;
        call = call (some 150) (some "recording_completed");
      }
      ∷ record {
        id = 31;
        booth_id = "booth";
        boot_id = "boot";
        recording_id = none;
        version = none;
        installation_id = some 2;
        call = call none none;
      }
      ∷ [];
  events = [];
  snapshots = [];
  files =
      record {
        id = 40;
        blob_key = "messages/40.wav";
        sha256 = "abc";
        size_bytes = 0;
        duration_ms = none;
        content_type = "audio/wav";
      }
      ∷ [];
  instructions = [];
  next_id = 50;
}

abbrev pub era_row : ℕ → Option ℕ → Option InstallationSummary → Installation
era_row id ended_at summary = record {
  id = id;
  name = "Installation";
  notes = none;
  location = none;
  default_transcription_language = none;
  started_at = 100 + id;
  ended_at = ended_at;
  ended_by = none;
  summary = summary;
  question_selection_cycle = 0;
  last_selected_question_id = none;
  recent_question_draws = [];
}

abbrev pub past_era : Installation
past_era = era_row 1 (some 200) (some (compute_installation_summary rows 1))

abbrev pub present_era : Installation
present_era = era_row 2 none none

abbrev pub sample : Db
sample = record rows { installations = past_era ∷ present_era ∷ [] }

abbrev pub next_era : InstallationCreate
next_era = record {
  name = "";
  notes = none;
  location = none;
  default_transcription_language = none;
  copy_questions = true;
}

abbrev pub blob : Blob
blob = record { exists = true; sha256 = some "abc"; size_bytes = 9; content_type = none }
