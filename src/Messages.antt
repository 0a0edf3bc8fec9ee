-- ===== src/Messages.antt =====
-- packages/api/src/routes/messages.ts: a recording from its upload slot to an operator's decision. A
-- handler returns the database that it leaves and its answer; `before` is the database at its first
-- read, and `db` the one at its transaction.
pub mod Settled
pub mod Complete
pub mod Landing
pub mod Deciding
pub mod Uploading
pub mod Slots
pub mod Resuming
pub mod Begun
use text.Mathlib.Text.{◌==◌ as str_eq}
use telephone_booth_operator.Common.{
  ℕ, ◌+◌, String, Bool, true, false, ◌&&◌, ◌||◌, not, Option, none, some, List, [], ◌∷◌, ◌++◌,
  if◌then◌else◌, ◌==◌, ◌==?◌, ltb, count, find_first, update_many, delete_many, or_else, holds,
}
use telephone_booth_operator.Store.{
  MessageStatus, uploading, received, pending, approved, rejected, status_eq, is_awaiting,
  QuestionStatus, draft, active, archived, Question, Message, File, Db, has_id, is_in,
}
use telephone_booth_operator.Era.{
  find_installation, era_is_writable, lock_open_installation, find_active_installation,
}

abbrev pub is_message : ℕ → Message → Bool
is_message id m = m.id == id

unfoldable pub find_message : Db → ℕ → Option Message
find_message db id = find_first (is_message id) db.messages

pub find_file : Db → ℕ → Option File
find_file db id = find_first (λ f. f.id == id) db.files

-- `questionIsAnswerable`: live, or archived by the end of its era (and not by hand).
retired_with_era : Option ℕ → Option ℕ → Bool
retired_with_era (some u) (some t) = t == u
retired_with_era _ _ = false

answerable_status : Db → Question → QuestionStatus → Bool
unfolding retired_with_era find_installation
answerable_status db q active = true
answerable_status db q draft = false
answerable_status db q archived = elim q.installation_id [
  | none ↦ false
  | some e ↦ elim (find_installation db e) [
    | none ↦ false
    | some era ↦ retired_with_era q.retired_at era.ended_at
  ]
]

unfoldable pub question_is_answerable : Db → Question → Bool
unfolding answerable_status
question_is_answerable db q = answerable_status db q q.status

pub data Decision : Type 0 where
  approve reject : Decision

-- `answered` says whether the moderation queue is observed afterwards.
pub data Answer : Type 0 where
  not_found message_not_decidable installation_ended : Answer
  answered : Bool → Answer

pub decided_status : Decision → MessageStatus
decided_status approve = approved
decided_status reject = rejected

decide_message : Decision → Option String → Option ℕ → ℕ → Message → Message
unfolding decided_status
decide_message decision notes user now m = record m {
  status = decided_status decision;
  decided_at = some now;
  decided_by = user;
  notes = or_else notes m.notes;
}

-- `POST /:id/decision`
unfoldable pub decide : Db → Db → ℕ → Decision → Option String → Option ℕ → ℕ → Db × Answer
unfolding decide_message find_message
decide before db id decision notes user now = elim (find_message before id) [
  | none ↦ (db, not_found)
  | some existing ↦
      if status_eq existing.status uploading
      then (db, message_not_decidable)
      else if not (era_is_writable db existing.installation_id)
      then (db, installation_ended)
      else if count (is_message id) db.messages == 0
      then (db, not_found)
      else (
        record db {
          messages =
              update_many (is_message id) (decide_message decision notes user now) db.messages;
        },
        answered (is_awaiting existing.status),
      )
]

-- `DELETE /:id`
unfoldable pub delete_message : Db → Db → ℕ → Db × Answer
unfolding find_message
delete_message before db id = elim (find_message before id) [
  | none ↦ (db, not_found)
  | some existing ↦
      if not (era_is_writable db existing.installation_id) then (db, installation_ended) else (
        record db { messages = delete_many (is_message id) db.messages },
        answered (is_awaiting existing.status),
      )
]

-- What the blob store says of an uploaded recording.
pub record Blob : Type 0 where
  pub exists : Bool
  pub sha256 : Option String
  pub size_bytes : ℕ
  pub content_type : Option String

pub data CompleteAnswer : Type 0 where
  message_not_found blob_not_found sha256_metadata_missing sha256_mismatch : CompleteAnswer
  audio_too_large installation_inactive : CompleteAnswer
  current : Option Message → CompleteAnswer
  completed : CompleteAnswer

-- `db.file.update`
landed_file : Blob → File → File
landed_file blob f = record f {
  size_bytes = blob.size_bytes;
  content_type = elim blob.content_type [ none ↦ f.content_type | some t ↦ t ];
}

pub update_file : Db → ℕ → Blob → Db
unfolding landed_file
update_file db audio_id blob = record db {
  files = update_many (λ f. f.id == audio_id) (landed_file blob) db.files;
}

-- `where: { id, status: "uploading" }`
abbrev pub in_upload : ℕ → Message → Bool
in_upload id m = is_message id m && status_eq m.status uploading

pub promote_message : ℕ → ℕ → Option ℕ → Message → Message
promote_message received_at era home m = record m {
  status = pending;
  received_at = some received_at;
  installation_id = if some era ==? home then m.installation_id else some era;
}

-- The transaction of `POST /:id/complete`, for a message that was still uploading.
promote : Db → ℕ → Message → ℕ → Db × CompleteAnswer
unfolding promote_message find_message
promote db id message received_at = elim (lock_open_installation db message.installation_id) [
  | none ↦ (db, installation_inactive)
  | some era ↦
      if count (in_upload id) db.messages == 0 then (db, current (find_message db id)) else (
        record db {
          messages =
              update_many (in_upload id) (promote_message received_at era message.installation_id)
                db.messages;
        },
        completed,
      )
]

-- The checks of the uploaded blob, in order.
blob_problem : Blob → File → ℕ → Option CompleteAnswer
blob_problem blob file max_bytes =
    if not blob.exists then some blob_not_found else elim blob.sha256 [
      | none ↦ some sha256_metadata_missing
      | some sha ↦
          if not (str_eq sha file.sha256)
          then some sha256_mismatch
          else if ltb max_bytes blob.size_bytes
          then some audio_too_large
          else none
    ]

-- `POST /:id/complete`
complete_landed : Db → ℕ → Message → ℕ → Blob → Db × CompleteAnswer
unfolding promote update_file find_message
complete_landed db id message received_at blob =
    let filed = update_file db message.audio_id blob in
    if status_eq message.status uploading
    then promote filed id message received_at
    else (filed, current (find_message filed id))

unfoldable pub complete : Db → Db → ℕ → Blob → ℕ → ℕ → Db × CompleteAnswer
unfolding complete_landed blob_problem find_message find_file
complete before db id blob max_bytes received_at = elim (find_message before id) [
  | none ↦ (db, message_not_found)
  | some message ↦ elim (find_file before message.audio_id) [
    | none ↦ (db, message_not_found)
    | some file ↦ elim (blob_problem blob file max_bytes) [
      | some problem ↦ (db, problem)
      | none ↦ complete_landed db id message received_at blob
    ]
  ]
]

-- packages/api/src/lib/ai/pipeline.ts, `advanceMessageAfterModeration`: AI results surface a message
-- for review and never decide it.
surface : Message → Message
surface m = record m { status = pending }

abbrev pub in_receipt : ℕ → Message → Bool
in_receipt id m = is_message id m && status_eq m.status received

unfoldable pub advance_message_after_moderation : Db → ℕ → Db
unfolding surface
advance_message_after_moderation db id = record db {
  messages = update_many (in_receipt id) surface db.messages;
}
