-- ===== src/Installations/Purging.antt =====
-- packages/api/src/routes/installations.ts: editing an era, `PATCH /:id`, and purging one, `DELETE
-- /:id`. `before` is the database at the first read, `db` the one from the search for uploads in
-- flight to the search for references, and `meanwhile` is what other requests do between that and
-- the deletion of files.
use text.Mathlib.Text.{◌==◌ as str_eq}
use telephone_booth_operator.Common.{
  ℕ, ◌+◌, ◌-◌, String, Bool, true, false, ◌&&◌, ◌||◌, not, Option, none, some, List, [], ◌∷◌,
  if◌then◌else◌, ◌==◌, ltb, any, all, filter, length, count, update_many, delete_many, with_default,
  is_none,
}
use telephone_booth_operator.Store.{
  uploading, status_eq, Message, File, Snapshot, Installation, Db, has_id, is_in, is_open,
}
use telephone_booth_operator.Store.Summary.{session_in, question_in, event_in}
use telephone_booth_operator.Era.{find_installation, find_active_installation}

-- An absent field is none; a field that is null is `some none`.
pub record InstallationUpdate : Type 0 where
  pub name : Option String
  pub notes : Option (Option String)
  pub location : Option (Option String)
  pub default_transcription_language : Option (Option String)

edited : InstallationUpdate → Installation → Installation
edited body row = record row {
  name = with_default body.name row.name;
  notes = with_default body.notes row.notes;
  location = with_default body.location row.location;
  default_transcription_language =
      with_default body.default_transcription_language row.default_transcription_language;
}

-- `PATCH /:id`, and whether the era was found.
unfoldable pub update_installation : Db → Db → ℕ → InstallationUpdate → Db × Bool
unfolding edited find_installation
update_installation before db id body =
    if is_none (find_installation before id) then (db, false) else (
      record db { installations = update_many (has_id id) (edited body) db.installations },
      true,
    )

abbrev pub message_in : ℕ → Message → Bool
message_in e m = is_in e m.installation_id

abbrev pub snapshot_in : ℕ → Snapshot → Bool
snapshot_in e s = is_in e s.installation_id

-- `status: "uploading"` in an era.
abbrev pub in_flight : ℕ → Message → Bool
in_flight e m = is_in e m.installation_id && status_eq m.status uploading

abbrev pub moved_to : ℕ → Message → Message
moved_to e m = record m { installation_id = some e }

-- Uploads in flight move to the open era; without one the purge waits.
unfoldable pub rehome : Db → ℕ → Option Db
rehome db e =
    if ltb 0 (count (in_flight e) db.messages)
    then (elim (find_active_installation db) [
      | none ↦ none
      | some era ↦
          some (record db { messages = update_many (in_flight e) (moved_to era.id) db.messages })
    ])
    else some db

-- `filesOwnedByInstallation`
unfoldable pub files_owned_by : Db → ℕ → List File
files_owned_by db e =
    filter
      (λ f.
        any (λ q. question_in e q && q.audio_id == f.id) db.questions
        || any (λ m. message_in e m && m.audio_id == f.id) db.messages)
      db.files

pub record PurgedRows : Type 0 where
  pub events : ℕ
  pub messages : ℕ
  pub call_sessions : ℕ
  pub questions : ℕ
  pub snapshots : ℕ

abbrev purged_rows : Db → ℕ → PurgedRows
purged_rows db e = record {
  events = count (event_in e) db.events;
  messages = count (message_in e) db.messages;
  call_sessions = count (session_in e) db.sessions;
  questions = count (question_in e) db.questions;
  snapshots = count (snapshot_in e) db.snapshots;
}

unfoldable pub delete_rows : Db → ℕ → Db
delete_rows db e = record db {
  events = delete_many (event_in e) db.events;
  messages = delete_many (message_in e) db.messages;
  sessions = delete_many (session_in e) db.sessions;
  questions = delete_many (question_in e) db.questions;
  snapshots = delete_many (snapshot_in e) db.snapshots;
  installations = delete_many (has_id e) db.installations;
}

-- A question, a message or an instruction has the audio of that file id.
unfoldable pub is_referenced : Db → ℕ → Bool
is_referenced db file =
    any (λ q. q.audio_id == file) db.questions
    || any (λ m. m.audio_id == file) db.messages
    || any (λ audio. audio == file) db.instructions

-- The deletion of files, which the foreign keys refuse for one that is referenced: all at once, or
-- else one by one.
unfoldable pub deletable : Db → List File → List File
unfolding is_referenced
deletable db orphans =
    if all (λ f. not (is_referenced db f.id)) orphans
    then orphans
    else filter (λ f. not (is_referenced db f.id)) orphans

unfoldable pub delete_files : Db → List File → Db
delete_files db deleted = record db {
  files = delete_many (λ f. any (λ d. d.id == f.id) deleted) db.files;
}

-- The outcome for the blobs, and for the files of them that are kept.
pub record BlobCounts : Type 0 where
  pub deleted : ℕ
  pub resurrected : ℕ
  pub failures : List String

-- The workers over the queue; the pool fixes no order of the failures. `delete_blob` is false where
-- the blob was gone, none where it throws.
unfoldable pub delete_blobs : (String → Option Bool) → Db → List File → BlobCounts
delete_blobs delete_blob db [] = record { deleted = 0; resurrected = 0; failures = [] }
delete_blobs delete_blob db (f ∷ queue) =
    let rest = delete_blobs delete_blob db queue in
    if any (λ g. str_eq g.blob_key f.blob_key) db.files
    then record rest { resurrected = rest.resurrected + 1 }
    else elim (delete_blob f.blob_key) [
      | none ↦ record rest { failures = f.blob_key ∷ rest.failures }
      | some true ↦ record rest { deleted = rest.deleted + 1 }
      | some false ↦ rest
    ]

pub data PurgeAnswer : Type 0 where
  installation_not_found installation_active name_mismatch uploads_in_flight : PurgeAnswer
  purged : PurgedRows → BlobCounts → ℕ → PurgeAnswer

-- The transaction and what follows; the last number is `blobsRetained`.
unfoldable pub purge_rows : Db → (Db → Db) → (String → Option Bool) → ℕ → Db × PurgeAnswer
unfolding files_owned_by delete_rows is_referenced deletable delete_files delete_blobs
purge_rows db meanwhile delete_blob e =
    let owned = files_owned_by db e in
    let after = delete_rows db e in
    let orphans = filter (λ f. not (is_referenced after f.id)) owned in
    let deleted = deletable (meanwhile after) orphans in
    let left = delete_files (meanwhile after) deleted in
    let blobs = delete_blobs delete_blob left deleted in
    (left, purged (purged_rows db e) blobs ((length owned - length deleted) + blobs.resurrected))

unfoldable pub purge_moved :
    Db → (Db → Db) → (String → Option Bool) → ℕ → Option Db → Db × PurgeAnswer
unfolding purge_rows
purge_moved db meanwhile delete_blob e none = (db, uploads_in_flight)
purge_moved db meanwhile delete_blob e (some moved) = purge_rows moved meanwhile delete_blob e

unfoldable pub purge_existing :
    Db → (Db → Db) → (String → Option Bool) → ℕ → String → Option Installation → Db × PurgeAnswer
unfolding purge_moved rehome
purge_existing db meanwhile delete_blob e confirm_name none = (db, installation_not_found)
purge_existing db meanwhile delete_blob e confirm_name (some existing) =
    if is_open existing
    then (db, installation_active)
    else if not (str_eq confirm_name existing.name)
    then (db, name_mismatch)
    else purge_moved db meanwhile delete_blob e (rehome db e)

-- `DELETE /:id`
unfoldable pub purge : Db → Db → (Db → Db) → (String → Option Bool) → ℕ → String → Db × PurgeAnswer
unfolding purge_existing find_installation
purge before db meanwhile delete_blob e confirm_name =
    purge_existing db meanwhile delete_blob e confirm_name (find_installation before e)
