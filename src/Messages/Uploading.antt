-- ===== src/Messages/Uploading.antt =====
-- packages/api/src/routes/messages.ts, `POST /`: the booth asks for an upload slot. The route is a
-- sequence of statements, and `others n` is what other requests do before its n-th.
use text.Mathlib.Text.{◌==◌ as str_eq}
use Prim.Native.String.{◌++◌ as string_append}
use telephone_booth_operator.Common.{
  ℕ, zero, suc, ◌+◌, String, Bool, true, ◌&&◌, not, Option, none, some, [], ◌∷◌, ◌++◌, any,
  if◌then◌else◌, ◌==◌, ◌==?◌, find_first, is_none, holds,
}
use telephone_booth_operator.Store.{uploading, status_eq, Message, File, Db}
use telephone_booth_operator.Era.{open_era, lock_open_installation}
use telephone_booth_operator.Questions.{is_question}
use telephone_booth_operator.Messages.{find_message, question_is_answerable}

pub record Upload : Type 0 where
  pub question_id : Option ℕ
  pub duration_ms : ℕ
  pub sha256 : String

-- `failed` is an error of the database that the route passes on.
pub data UploadAnswer : Type 0 where
  no_open_era message_already_exists question_not_found failed : UploadAnswer
  slot : ℕ → UploadAnswer

-- `matchesReplayRequest`
unfoldable pub matches_replay : Upload → Message → Bool
matches_replay u m = status_eq m.status uploading && m.question_id ==? u.question_id

-- `uploadSlot`, less the signed URL.
unfoldable pub upload_slot : Db → Upload → ℕ → Db × UploadAnswer
unfolding matches_replay
upload_slot db u id =
    if is_none (lock_open_installation db none)
    then (db, no_open_era)
    else if holds (matches_replay u) (find_message db id)
    then (db, slot id)
    else (db, message_already_exists)

unfoldable pub has_audio : ℕ → Message → Bool
has_audio file m = m.audio_id == file

unfoldable pub message_of : Db → ℕ → Option Message
unfolding has_audio
message_of db file = find_first (has_audio file) db.messages

has_sha : String → File → Bool
has_sha sha f = str_eq f.sha256 sha

unfoldable pub file_of : Db → String → Option File
unfolding has_sha
file_of db sha = find_first (has_sha sha) db.files

-- `slice(0, n)`
first_chars : ℕ → String → String
first_chars zero s = ""
first_chars (suc n) String.[] = ""
first_chars (suc n) (String.◌∷◌ c s) = String.◌∷◌ c (first_chars n s)

-- `messageBlobName`
unfoldable pub message_blob_name : String → String
unfolding first_chars
message_blob_name sha =
    string_append "messages/"
      (string_append (first_chars 2 sha) (string_append "/" (string_append sha ".flac")))

-- `resume` is the answer for a recording that has a message.
unfoldable pub resume : (ℕ → Db → Db) → ℕ → Db → Upload → Message → Db × UploadAnswer
unfolding matches_replay
resume others n db u m =
    if matches_replay u m then upload_slot (others n db) u m.id else (db, message_already_exists)

unfoldable pub new_file : Db → Upload → File
unfolding message_blob_name
new_file db u = record {
  id = db.next_id;
  blob_key = message_blob_name u.sha256;
  sha256 = u.sha256;
  size_bytes = 0;
  duration_ms = some u.duration_ms;
  content_type = "audio/flac";
}

-- `db.file.upsert`, with the row that it leaves.
unfoldable pub upsert_file : Db → Upload → Db × File
unfolding new_file
upsert_file db u = elim (file_of db u.sha256) [
  | some f ↦ (db, f)
  | none ↦ (
    record db { files = db.files ++ new_file db u ∷ []; next_id = db.next_id + 1 },
    new_file db u,
  )
]

unfoldable pub new_message : Db → Upload → File → ℕ → Message
new_message db u f era = record {
  id = db.next_id;
  status = uploading;
  notes = none;
  question_id = u.question_id;
  audio_id = f.id;
  audio_duration_ms = f.duration_ms;
  installation_id = some era;
  received_at = none;
  decided_at = none;
  decided_by = none;
  review = record {
    classification = none;
    recommendation = none;
    classified_at = none;
    classified_by = none;
  };
  processing = record {
    lease_token_hash = none;
    lease_expires_at = none;
    leased_at = none;
    leased_by = none;
    snapshot_hash = none;
    attempt_count = 0;
    error = none;
    failed_at = none;
    completed_at = none;
  };
}

-- `taken` is the unique index on the recording (P2002), `orphaned` a foreign key (P2003).
pub data Creation : Type 0 where
  no_era taken orphaned : Creation
  created : Message → Creation

-- The rows that a new message refers to.
pub refers : Db → Upload → File → Bool
refers db u f =
    any (λ g. g.id == f.id) db.files
    && elim u.question_id [ none ↦ true | some q ↦ any (is_question q) db.questions ]

unfoldable pub insert_message : Db → Message → Db
insert_message db m = record db { messages = db.messages ++ m ∷ []; next_id = db.next_id + 1 }

-- `tx.message.create` in the open era.
unfoldable pub create_message : Db → Upload → File → Db × Creation
unfolding refers insert_message new_message has_audio
create_message db u f = elim (lock_open_installation db none) [
  | none ↦ (db, no_era)
  | some era ↦
      if any (has_audio f.id) db.messages
      then (db, taken)
      else if not (refers db u f)
      then (db, orphaned)
      else (insert_message db (new_message db u f era), created (new_message db u f era))
]

-- The second attempt, after a purge took the file.
unfoldable pub after_second : (ℕ → Db → Db) → Upload → Db × Creation → Db × UploadAnswer
after_second others u (db, created m) = upload_slot (others 8 db) u m.id
after_second others u (db, no_era) = (db, no_open_era)
after_second others u (db, taken) = (db, failed)
after_second others u (db, orphaned) = (db, failed)

-- The loser of a race resumes the winner's upload.
unfoldable pub raced : (ℕ → Db → Db) → Upload → Db → Option Message → Db × UploadAnswer
unfolding resume
raced others u db none = (db, message_already_exists)
raced others u db (some m) = resume others 7 db u m

unfoldable pub after_first : (ℕ → Db → Db) → Upload → File → Db × Creation → Db × UploadAnswer
unfolding after_second raced
after_first others u f (db, no_era) = (db, no_open_era)
after_first others u f (db, created m) = upload_slot (others 6 db) u m.id
after_first others u f (db, taken) =
    let now = others 6 db in raced others u now (message_of now f.id)
after_first others u f (db, orphaned) =
    let (filed, g) = upsert_file (others 6 db) u in
    after_second others u (create_message (others 7 filed) u g)

unfoldable pub for_file : (ℕ → Db → Db) → Upload → File → Db → Option Message → Db × UploadAnswer
unfolding resume after_first
for_file others u f db (some m) = resume others 5 db u m
for_file others u f db none = after_first others u f (create_message (others 5 db) u f)

unfoldable pub begin_new : (ℕ → Db → Db) → Upload → Db → Db × UploadAnswer
unfolding for_file
begin_new others u db =
    let (filed, f) = upsert_file db u in
    let now = others 4 filed in for_file others u f now (message_of now f.id)

-- The question that the recording answers, if it names one.
pub is_answerable : Db → Upload → Bool
is_answerable db u = elim u.question_id [
  | none ↦ true
  | some q ↦ holds (question_is_answerable db) (find_first (is_question q) db.questions)
]

unfoldable pub begin_checked :
    (ℕ → Db → Db) → Upload → Db → Option File → Option Message → Db × UploadAnswer
unfolding resume begin_new is_answerable
begin_checked others u db file (some m) = resume others 2 db u m
begin_checked others u db file none =
    let now = others 2 db in
    if not (is_answerable now u)
    then (now, question_not_found)
    else if holds (λ f. not (str_eq f.blob_key (message_blob_name u.sha256))) file
    then (now, message_already_exists)
    else begin_new others u (others 3 now)

unfoldable pub message_of_file : Db → Option File → Option Message
message_of_file db none = none
message_of_file db (some f) = message_of db f.id

-- `POST /`
unfoldable pub begin_upload : (ℕ → Db → Db) → Db → Upload → Db × UploadAnswer
unfolding begin_checked message_of_file
begin_upload others db u =
    let now = others 1 db in
    let file = file_of now u.sha256 in
    if is_none (open_era db)
    then (db, no_open_era)
    else begin_checked others u now file (message_of_file now file)
