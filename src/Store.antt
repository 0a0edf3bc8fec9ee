-- ===== src/Store.antt =====
-- The rows of packages/api/prisma/schema.prisma that the routes share. An id (a uuid) and a digest
-- are numbers, of which the code uses the equality and the order; a time is in milliseconds.
pub mod Summary
use telephone_booth_operator.Common.{
  ℕ, String, Bool, true, false, ◌||◌, Option, none, some, List, is_none, holds, ◌==◌,
}
use telephone_booth_operator.Analytics.{InteractionSession, InteractionEvent, InteractionBreakdown}

pub data MessageStatus : Type 0 where
  uploading received pending approved rejected : MessageStatus

abbrev pub status_eq : MessageStatus → MessageStatus → Bool
status_eq uploading uploading = true
status_eq received received = true
status_eq pending pending = true
status_eq approved approved = true
status_eq rejected rejected = true
status_eq _ _ = false

-- `status in ["received", "pending"]`: the statuses awaiting moderation.
abbrev pub is_awaiting : MessageStatus → Bool
is_awaiting received = true
is_awaiting pending = true
is_awaiting _ = false

-- `status: { not: "uploading" }`
abbrev pub is_landed : MessageStatus → Bool
is_landed uploading = false
is_landed _ = true

pub data QuestionStatus : Type 0 where
  draft active archived : QuestionStatus

abbrev pub question_status_eq : QuestionStatus → QuestionStatus → Bool
question_status_eq draft draft = true
question_status_eq active active = true
question_status_eq archived archived = true
question_status_eq _ _ = false

-- The lease columns of a message, all prefixed `processing`.
pub record Processing : Type 0 where
  pub lease_token_hash : Option ℕ
  pub lease_expires_at : Option ℕ
  pub leased_at : Option ℕ
  pub leased_by : Option ℕ
  pub snapshot_hash : Option ℕ
  pub attempt_count : ℕ
  pub error : Option String
  pub failed_at : Option ℕ
  pub completed_at : Option ℕ

-- The review columns of a message; a classification and a recommendation are kept by name.
pub record Review : Type 0 where
  pub classification : Option String
  pub recommendation : Option String
  pub classified_at : Option ℕ
  pub classified_by : Option ℕ

-- `audio_duration_ms` is the `durationMs` of the message's file, which no route changes.
pub record Message : Type 0 where
  pub id : ℕ
  pub status : MessageStatus
  pub notes : Option String
  pub question_id : Option ℕ
  pub audio_id : ℕ
  pub audio_duration_ms : Option ℕ
  pub installation_id : Option ℕ
  pub received_at : Option ℕ
  pub decided_at : Option ℕ
  pub decided_by : Option ℕ
  pub review : Review
  pub processing : Processing

pub record Question : Type 0 where
  pub id : ℕ
  pub prompt : String
  pub audio_id : ℕ
  pub status : QuestionStatus
  pub weight : ℕ
  pub installation_id : Option ℕ
  pub retired_at : Option ℕ
  pub last_selected_cycle : Option ℕ
  pub selections_in_cycle : ℕ

pub record CallSession : Type 0 where
  pub id : ℕ
  pub booth_id : String
  pub boot_id : String
  pub recording_id : Option String
  pub version : Option String
  pub installation_id : Option ℕ
  pub call : InteractionSession

pub record BoothEvent : Type 0 where
  pub id : ℕ
  pub event_id : ℕ
  pub booth_id : String
  pub boot_id : String
  pub recording_id : Option String
  pub version : Option String
  pub session_id : Option ℕ
  pub occurred_at : ℕ
  pub installation_id : Option ℕ
  pub event : InteractionEvent

-- Any other table with an `installationId`: status snapshots.
pub record Snapshot : Type 0 where
  pub id : ℕ
  pub installation_id : Option ℕ

pub record File : Type 0 where
  pub id : ℕ
  pub blob_key : String
  pub sha256 : String
  pub size_bytes : ℕ
  pub duration_ms : Option ℕ
  pub content_type : String

-- The counters frozen when an installation ends.
pub record InstallationSummary : Type 0 where
  pub calls : ℕ
  pub interactions : ℕ
  pub interaction_breakdown : InteractionBreakdown
  pub messages : ℕ
  pub all_recordings : ℕ
  pub by_status : List (MessageStatus × ℕ)
  pub messages_approved : ℕ
  pub messages_rejected : ℕ
  pub questions : ℕ
  pub events : ℕ
  pub recorded_ms : ℕ
  pub first_activity_at : Option ℕ
  pub last_activity_at : Option ℕ

-- An entry of `recentQuestionDraws`.
pub record Draw : Type 0 where
  pub draw_id : ℕ
  pub question_id : ℕ

pub record Installation : Type 0 where
  pub id : ℕ
  pub name : String
  pub notes : Option String
  pub location : Option String
  pub default_transcription_language : Option String
  pub started_at : ℕ
  pub ended_at : Option ℕ
  pub ended_by : Option ℕ
  pub summary : Option InstallationSummary
  pub question_selection_cycle : ℕ
  pub last_selected_question_id : Option ℕ
  pub recent_question_draws : List Draw

-- `next_id` stands for the database's source of fresh ids.
pub record Db : Type 0 where
  pub installations : List Installation
  pub messages : List Message
  pub questions : List Question
  pub sessions : List CallSession
  pub events : List BoothEvent
  pub snapshots : List Snapshot
  pub files : List File
  pub instructions : List ℕ
  pub next_id : ℕ

-- `where: { installationId }` on a nullable column.
abbrev pub is_in : ℕ → Option ℕ → Bool
is_in e = holds (λ i. i == e)

-- `where: { id }` and `where: { endedAt: null }` on installations.
abbrev pub is_open : Installation → Bool
is_open row = is_none row.ended_at

abbrev pub has_id : ℕ → Installation → Bool
has_id e row = row.id == e
