-- ===== src/Messages/Begun.antt =====
-- packages/api/src/routes/messages.ts, `POST /`: an upload slot leaves the bookkeeping of eras alone.
use text.Mathlib.Text.{◌==◌ as str_eq}
use telephone_booth_operator.Common.{
  either, ℕ, ◌+◌, ◌≡◌, refl, ap, Bool, false, not, Option, none, some, List, [], ◌∷◌, ◌++◌, any,
  holds, filter, count, is_none, arith, Bool-cases, Option-cases, inl, inr,
}
use telephone_booth_operator.Store.{Message, File, Db}
use telephone_booth_operator.Store.Summary.{landed_in, slice_of}
use telephone_booth_operator.Era.{open_era, lock_open_installation}
use telephone_booth_operator.Era.CloseOut.{awaiting_in}
use telephone_booth_operator.Installations.Settled.{IsConsistent, SameEra, IsConsistent-written}
use telephone_booth_operator.Messages.{find_message}
use telephone_booth_operator.Messages.Uploading.{
  Upload, UploadAnswer, matches_replay, upload_slot, resume, Creation, no_era, taken, orphaned,
  created, create_message, new_message, insert_message, after_second, raced, after_first, for_file,
  begin_new, begin_checked, begin_upload, message_of, message_of_file, file_of, upsert_file,
  is_answerable, message_blob_name, new_file, has_audio, refers,
}

filter-snoc_false :
    (p : Message → Bool) (ms : List Message) (m : Message)
    → p m ≡ false
    → filter p (ms ++ m ∷ []) ≡ filter p ms
filter-snoc_false p [] m h = ground (arith, h)
filter-snoc_false p (x ∷ xs) m h = ground (arith, filter-snoc_false p xs m h)

count-snoc_false :
    (p : Message → Bool) (ms : List Message) (m : Message)
    → p m ≡ false
    → count p (ms ++ m ∷ []) ≡ count p ms
count-snoc_false p [] m h = ground (arith, h)
count-snoc_false p (x ∷ xs) m h = ground (arith, count-snoc_false p xs m h)

-- A message that waits for its recording counts for no era.
insert_message-SameEra :
    (db : Db) (u : Upload) (f : File) (era e : ℕ)
    → SameEra db (insert_message db (new_message db u f era)) e
unfolding insert_message new_message
insert_message-SameEra db u f era e =
    let m = new_message db u f era in
    let away : landed_in e m ≡ false = ground arith in
    record {
      slice =
          ap
            (λ ms. record {
              sessions = (slice_of db e).sessions;
              landed = ms;
              questions = (slice_of db e).questions;
              events = (slice_of db e).events;
            })
            (filter-snoc_false (landed_in e) db.messages m away);
      sessions = refl;
      awaiting = count-snoc_false (awaiting_in e) db.messages m (ground arith);
      questions = refl;
    }

create_message-IsConsistent :
    (db : Db) (u : Upload) (f : File) → IsConsistent db → IsConsistent (create_message db u f).0
unfolding create_message insert_message
create_message-IsConsistent db u f c = elim (Option-cases (lock_open_installation db none)) [
  | inl l ↦ rw (create_message, l) c
  | inr (era, l) ↦ elim (Bool-cases (any (has_audio f.id) db.messages)) [
    | inl t ↦ rw (create_message, l, t) c
    | inr t ↦ elim (Bool-cases (refers db u f)) [
      | inr r ↦ rw (create_message, l, t, r) c
      | inl r ↦
          rw (create_message, l, t, r)
            (IsConsistent-written db (insert_message db (new_message db u f era)) none c refl
              (omega arith) refl (λ e _. insert_message-SameEra db u f era e))
    ]
  ]
]

upsert_file-IsConsistent :
    (db : Db) (u : Upload) → IsConsistent db → IsConsistent (upsert_file db u).0
unfolding upsert_file
upsert_file-IsConsistent db u c = elim (Option-cases (file_of db u.sha256)) [
  | inr (f, k) ↦ rw (upsert_file, k) c
  | inl k ↦
      rw (upsert_file, k)
        (IsConsistent-written db
          (record db { files = db.files ++ new_file db u ∷ []; next_id = db.next_id + 1 }) none c
          refl (omega arith) refl
          (λ e _. record { slice = refl; sessions = refl; awaiting = refl; questions = refl }))
]

abbrev IsConsistentAfter : Db × UploadAnswer → Type 0
IsConsistentAfter (db, answer) = IsConsistent db

abbrev IsConsistentCreation : Db × Creation → Type 0
IsConsistentCreation (db, creation) = IsConsistent db

upload_slot-IsConsistent :
    (db : Db) (u : Upload) (id : ℕ) → IsConsistent db → IsConsistentAfter (upload_slot db u id)
unfolding upload_slot
upload_slot-IsConsistent db u id c =
    either IsConsistentAfter (is_none (lock_open_installation db none)) _ _ c
      (either IsConsistentAfter (holds (matches_replay u) (find_message db id)) _ _ c c)

module _ (others : ℕ → Db → Db) (u : Upload)
    (keeps : (n : ℕ) (db : Db) → IsConsistent db → IsConsistent (others n db)) where
  resume-IsConsistent :
      (n : ℕ) (db : Db) (m : Message) → IsConsistent db → IsConsistentAfter (resume others n db u m)
  unfolding resume
  resume-IsConsistent n db m c =
      either IsConsistentAfter (matches_replay u m) _ _
        (upload_slot-IsConsistent (others n db) u m.id (keeps n db c)) c

  after_second-IsConsistent :
      (x : Db × Creation) → IsConsistentCreation x → IsConsistentAfter (after_second others u x)
  unfolding after_second
  after_second-IsConsistent (db, created m) c =
      upload_slot-IsConsistent (others 8 db) u m.id (keeps 8 db c)
  after_second-IsConsistent (db, no_era) c = c
  after_second-IsConsistent (db, taken) c = c
  after_second-IsConsistent (db, orphaned) c = c

  raced-IsConsistent :
      (db : Db) (m : Option Message) → IsConsistent db → IsConsistentAfter (raced others u db m)
  unfolding raced
  raced-IsConsistent db none c = c
  raced-IsConsistent db (some m) c = resume-IsConsistent 7 db m c

  after_first-IsConsistent :
      (f : File) (x : Db × Creation)
      → IsConsistentCreation x
      → IsConsistentAfter (after_first others u f x)
  unfolding after_first
  after_first-IsConsistent f (db, no_era) c = c
  after_first-IsConsistent f (db, created m) c =
      upload_slot-IsConsistent (others 6 db) u m.id (keeps 6 db c)
  after_first-IsConsistent f (db, taken) c =
      raced-IsConsistent (others 6 db) (message_of (others 6 db) f.id) (keeps 6 db c)
  after_first-IsConsistent f (db, orphaned) c =
      let (filed, g) = upsert_file (others 6 db) u in
      after_second-IsConsistent (create_message (others 7 filed) u g) (
        create_message-IsConsistent (others 7 filed) u g
          (keeps 7 filed (upsert_file-IsConsistent (others 6 db) u (keeps 6 db c))))

  for_file-IsConsistent :
      (f : File) (db : Db) (m : Option Message)
      → IsConsistent db
      → IsConsistentAfter (for_file others u f db m)
  unfolding for_file
  for_file-IsConsistent f db (some m) c = resume-IsConsistent 5 db m c
  for_file-IsConsistent f db none c =
      after_first-IsConsistent f (create_message (others 5 db) u f)
        (create_message-IsConsistent (others 5 db) u f (keeps 5 db c))

  begin_new-IsConsistent : (db : Db) → IsConsistent db → IsConsistentAfter (begin_new others u db)
  unfolding begin_new
  begin_new-IsConsistent db c =
      let (filed, f) = upsert_file db u in
      for_file-IsConsistent f (others 4 filed) (message_of (others 4 filed) f.id)
        (keeps 4 filed (upsert_file-IsConsistent db u c))

  begin_checked-IsConsistent :
      (db : Db) (file : Option File) (m : Option Message)
      → IsConsistent db
      → IsConsistentAfter (begin_checked others u db file m)
  unfolding begin_checked
  begin_checked-IsConsistent db file (some m) c = resume-IsConsistent 2 db m c
  begin_checked-IsConsistent db file none c =
      let now = others 2 db in
      either IsConsistentAfter (not (is_answerable now u)) _ _ (keeps 2 db c) (
        either IsConsistentAfter
          (holds (λ f. not (str_eq f.blob_key (message_blob_name u.sha256))) file) _ _
          (keeps 2 db c) (begin_new-IsConsistent (others 3 now) (keeps 3 now (keeps 2 db c))))

  -- Asking for an upload slot keeps the bookkeeping of eras, if what others do meanwhile keeps it.
  pub begin_upload-IsConsistent :
      (db : Db) → IsConsistent db → IsConsistent (begin_upload others db u).0
  unfolding begin_upload
  begin_upload-IsConsistent db c =
      let now = others 1 db in
      let file = file_of now u.sha256 in
      either IsConsistentAfter (is_none (open_era db)) _ _ c
        (begin_checked-IsConsistent now file (message_of_file now file) (keeps 1 db c))
