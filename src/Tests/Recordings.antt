-- ===== src/Tests/Recordings.antt =====
-- Recordings, run on the sample.
use telephone_booth_operator.Common.{ℕ, ◌≡◌, ◌≢◌, refl, true, some, arith}
use telephone_booth_operator.Store.{Message, pending}
use telephone_booth_operator.Era.{
  open_era, find_active_installation, lock_installation, lock_open_installation,
}
use telephone_booth_operator.Messages.{find_message, complete, completed, question_is_answerable}
use telephone_booth_operator.Messages.Settled.{KeepsEra}
use telephone_booth_operator.Messages.Landing.{complete-lands, complete-once}
use telephone_booth_operator.Messages.Uploading.{
  Upload, slot, begin_upload, file_of, message_of, upsert_file, create_message, upload_slot,
  matches_replay,
}
use telephone_booth_operator.Messages.Slots.{IsSlot, begin_upload-GivesSlot}
use telephone_booth_operator.Messages.Resuming.{quiet, begin_upload-resumes}
use telephone_booth_operator.Tests.Data.{sample, blob}

sample-KeepsEra : KeepsEra sample sample 11
unfolding find_message
sample-KeepsEra m h =
    ((λ k. ground (arith, k)), ((λ k. ground (arith, h)), ((λ k. ground (arith, k)), tt)))

sample-KeepsEra_12 : KeepsEra sample sample 12
unfolding find_message
sample-KeepsEra_12 m h =
    ((λ k. ground (arith, k)), ((λ k. ground (arith, k)), ((λ k. ground (arith, h)), tt)))

sample-completed : (complete sample sample 11 blob 100 300).1 ≡ completed
unfolding complete lock_open_installation
sample-completed = refl

complete-lands_example :
    let after = (complete sample sample 11 blob 100 300).0 in
    (m : Message) × (era : ℕ) × (find_message after 11 ≡ some m)
    × (m.status ≡ pending)
    × (m.received_at ≡ some 300)
    × (m.installation_id ≡ some era)
    × (lock_installation after era ≡ true)
complete-lands_example =
    complete-lands sample sample 11 blob 100 300 sample-KeepsEra (omega arith) sample-completed

complete-once_example :
    let after = (complete sample sample 11 blob 100 300).0 in
    let retry = complete sample after 11 blob 100 400 in
    (retry.0.messages ≡ after.messages) × (retry.1 ≢ completed)
complete-once_example =
    complete-once sample sample 11 blob 100 300 sample blob 100 400 sample-completed

abbrev new_upload : Upload
new_upload = record { question_id = some 21; duration_ms = 900; sha256 = "abcd" }

slot_given : (begin_upload quiet sample new_upload).1 ≡ slot 51
unfolding begin_upload open_era find_active_installation lock_open_installation file_of message_of
    question_is_answerable upsert_file create_message upload_slot matches_replay find_message
slot_given = refl

begin_upload-GivesSlot_example : IsSlot new_upload (begin_upload quiet sample new_upload).0 51
begin_upload-GivesSlot_example = begin_upload-GivesSlot quiet new_upload sample 51 slot_given

begin_upload-resumes_example :
    let after = (begin_upload quiet sample new_upload).0 in
    begin_upload quiet after new_upload ≡ (after, slot 51)
begin_upload-resumes_example = begin_upload-resumes sample new_upload 51 slot_given
