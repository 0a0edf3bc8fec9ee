-- ===== src/Messages/Slots.antt =====
-- packages/api/src/routes/messages.ts, `POST /`: what a slot that is handed out is for.
use text.Mathlib.Text.{◌==◌ as str_eq}
use telephone_booth_operator.Common.{
  either, ℕ, ◌≡◌, subst, true, not, Option, none, some, ==?_iff, is_none, holds, arith, Bool-cases,
  Option-cases, inl, inr,
}
use telephone_booth_operator.Store.{MessageStatus, uploading, status_eq, Message, File, Db}
use telephone_booth_operator.Era.{open_era, lock_installation, lock_open_installation}
use telephone_booth_operator.Era.Lock.{lock_open_installation-locked}
use telephone_booth_operator.Messages.{find_message}
use telephone_booth_operator.Messages.Uploading.{
  Upload, UploadAnswer, slot, matches_replay, upload_slot, resume, Creation, no_era, taken,
  orphaned, created, create_message, after_second, raced, after_first, for_file, begin_new,
  begin_checked, begin_upload, message_of, message_of_file, file_of, upsert_file, is_answerable,
  message_blob_name,
}

-- The slot is for a message that waits for its recording, of the question that was asked for, while
-- an era is open.
pub record IsSlot (u : Upload) (db : Db) (id : ℕ) : Type 0 where
  pub message : Message
  pub found : find_message db id ≡ some message
  pub status : message.status ≡ uploading
  pub question : message.question_id ≡ u.question_id
  pub era : ℕ
  pub locked : lock_installation db era ≡ true

abbrev GivesSlot : Upload → Db × UploadAnswer → Type 0
GivesSlot u (db, answer) = (id : ℕ) → answer ≡ slot id → IsSlot u db id

uploading_of : (s : MessageStatus) → status_eq s uploading ≡ true → s ≡ uploading
uploading_of s h = ground (arith, h)

matches_replay_lem :
    (u : Upload) (m : Message)
    → matches_replay u m ≡ true
    → (m.status ≡ uploading) × (m.question_id ≡ u.question_id)
unfolding matches_replay
matches_replay_lem u m h = (
  uploading_of m.status (ground (arith, h)),
  (==?_iff m.question_id u.question_id).0 (ground (arith, h)),
)

upload_slot-GivesSlot : (db : Db) (u : Upload) (id : ℕ) → GivesSlot u (upload_slot db u id)
unfolding upload_slot
upload_slot-GivesSlot db u id j h = elim (Option-cases (lock_open_installation db none)) [
  | inl l ↦ absurd (ground (arith, l, h))
  | inr (e, l) ↦ elim (Option-cases (find_message db id)) [
    | inl f ↦ absurd (ground (arith, l, f, h))
    | inr (m, f) ↦ elim (Bool-cases (matches_replay u m)) [
      | inr k ↦ absurd (ground (arith, l, f, k, h))
      | inl k ↦
          let same : id ≡ j = ground (arith, l, f, k, h) in
          rw (upload_slot, l, f, k) (subst (IsSlot u db) same (slot_of m e l f k))
    ]
  ]
]
  where
    slot_of :
        (m : Message) (e : ℕ)
        → lock_open_installation db none ≡ some e
        → find_message db id ≡ some m
        → matches_replay u m ≡ true
        → IsSlot u db id
    slot_of m e l f k = record {
      message = m;
      found = f;
      status = (matches_replay_lem u m k).0;
      question = (matches_replay_lem u m k).1;
      era = e;
      locked = lock_open_installation-locked db none e l;
    }

module _ (others : ℕ → Db → Db) (u : Upload) where
  resume-GivesSlot : (n : ℕ) (db : Db) (m : Message) → GivesSlot u (resume others n db u m)
  unfolding resume
  resume-GivesSlot n db m =
      either (GivesSlot u) (matches_replay u m) _ _ (upload_slot-GivesSlot (others n db) u m.id)
        (λ id h. absurd (ground (arith, h)))

  after_second-GivesSlot : (x : Db × Creation) → GivesSlot u (after_second others u x)
  unfolding after_second
  after_second-GivesSlot (db, created m) = upload_slot-GivesSlot (others 8 db) u m.id
  after_second-GivesSlot (db, no_era) = λ id h. ground (arith, h)
  after_second-GivesSlot (db, taken) = λ id h. ground (arith, h)
  after_second-GivesSlot (db, orphaned) = λ id h. ground (arith, h)

  raced-GivesSlot : (db : Db) (m : Option Message) → GivesSlot u (raced others u db m)
  unfolding raced
  raced-GivesSlot db none = λ id h. ground (arith, h)
  raced-GivesSlot db (some m) = resume-GivesSlot 7 db m

  after_first-GivesSlot : (f : File) (x : Db × Creation) → GivesSlot u (after_first others u f x)
  unfolding after_first
  after_first-GivesSlot f (db, no_era) = λ id h. ground (arith, h)
  after_first-GivesSlot f (db, created m) = upload_slot-GivesSlot (others 6 db) u m.id
  after_first-GivesSlot f (db, taken) =
      raced-GivesSlot (others 6 db) (message_of (others 6 db) f.id)
  after_first-GivesSlot f (db, orphaned) =
      let (filed, g) = upsert_file (others 6 db) u in
      after_second-GivesSlot (create_message (others 7 filed) u g)

  for_file-GivesSlot :
      (f : File) (db : Db) (m : Option Message) → GivesSlot u (for_file others u f db m)
  unfolding for_file
  for_file-GivesSlot f db (some m) = resume-GivesSlot 5 db m
  for_file-GivesSlot f db none = after_first-GivesSlot f (create_message (others 5 db) u f)

  begin_new-GivesSlot : (db : Db) → GivesSlot u (begin_new others u db)
  unfolding begin_new
  begin_new-GivesSlot db =
      let (filed, f) = upsert_file db u in
      for_file-GivesSlot f (others 4 filed) (message_of (others 4 filed) f.id)

  begin_checked-GivesSlot :
      (db : Db) (file : Option File) (m : Option Message)
      → GivesSlot u (begin_checked others u db file m)
  unfolding begin_checked
  begin_checked-GivesSlot db file (some m) = resume-GivesSlot 2 db m
  begin_checked-GivesSlot db file none =
      either (GivesSlot u) (not (is_answerable (others 2 db) u)) _ _ (λ id h. ground (arith, h))
        (either (GivesSlot u)
          (holds (λ f. not (str_eq f.blob_key (message_blob_name u.sha256))) file) _ _
          (λ id h. ground (arith, h)) (begin_new-GivesSlot (others 3 (others 2 db))))

  -- Whatever other requests do between the statements of the route, a slot that it hands out is for a
  -- message that exists then, still waits for its recording and is of the question asked for, and an
  -- era is open.
  pub begin_upload-GivesSlot :
      (db : Db) (id : ℕ)
      → (begin_upload others db u).1 ≡ slot id
      → IsSlot u (begin_upload others db u).0 id
  unfolding begin_upload
  begin_upload-GivesSlot db =
      let now = others 1 db in
      let file = file_of now u.sha256 in
      either (GivesSlot u) (is_none (open_era db)) _ _ (λ id h. ground (arith, h))
        (begin_checked-GivesSlot now file (message_of_file now file))
