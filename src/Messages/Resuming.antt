-- ===== src/Messages/Resuming.antt =====
-- packages/api/src/routes/messages.ts, `POST /`: a booth that asks again for its slot.
use text.Mathlib.Text.{◌==◌ as str_eq}
use text.Mathlib.TextEquality.{eq_iff}
use telephone_booth_operator.Common.{
  either, ℕ, ◌≡◌, ◌≢◌, refl, ap, ◌∙◌, Bool, true, not, Option, none, some, List, [], ◌∷◌, ◌++◌, any,
  ◌==◌, ==_refl, ==?_iff, find_first, arith, Bool-cases, Option-cases, inl, inr,
}
use telephone_booth_operator.Store.{Message, File, Db}
use telephone_booth_operator.Era.{open_era, lock_open_installation}
use telephone_booth_operator.Messages.Uploading.{
  Upload, UploadAnswer, slot, matches_replay, upload_slot, resume, orphaned, create_message,
  new_message, insert_message, after_second, raced, after_first, for_file, begin_new, begin_checked,
  begin_upload, message_of, message_of_file, file_of, upsert_file, is_answerable, message_blob_name,
  new_file, has_audio, refers, failed, no_open_era, question_not_found, message_already_exists,
}

abbrev pub quiet : ℕ → Db → Db
quiet n db = db

-- Asked again, the route hands out the same slot and changes nothing.
abbrev Resumes : Upload → Db × UploadAnswer → Type 0
Resumes u (db, answer) = (id : ℕ) → answer ≡ slot id → begin_upload quiet db u ≡ (db, slot id)

find_first-snoc {ℓ} :
    {A : Type ℓ} (p : A → Bool) (xs : List A) (x : A)
    → find_first p xs ≡ none
    → p x ≡ true
    → find_first p (xs ++ x ∷ []) ≡ some x
find_first-snoc p [] x h k = rw k refl
find_first-snoc p (y ∷ ys) x h k = elim (Bool-cases (p y)) [
  | inl e ↦ ground (arith, e, h)
  | inr e ↦ rw e (find_first-snoc p ys x (ground (arith, e, h)) k)
]

upload_slot_stays : (db : Db) (u : Upload) (id : ℕ) → (upload_slot db u id).0 ≡ db
unfolding upload_slot
upload_slot_stays db u id = ground arith

resume_stays : (n : ℕ) (db : Db) (u : Upload) (m : Message) → (resume quiet n db u m).0 ≡ db
unfolding resume
resume_stays n db u m = elim (Bool-cases (matches_replay u m)) [
  | inl k ↦ rw k (upload_slot_stays db u m.id)
  | inr k ↦ rw k refl
]

upsert_file-file_of :
    (db : Db) (u : Upload) → file_of (upsert_file db u).0 u.sha256 ≡ some (upsert_file db u).1
unfolding upsert_file file_of new_file
upsert_file-file_of db u = elim (Option-cases (file_of db u.sha256)) [
  | inr (f, k) ↦ rw (upsert_file, k) k
  | inl k ↦
      rw (upsert_file, k)
        (find_first-snoc (λ f. str_eq f.sha256 u.sha256) db.files (new_file db u) k
          ((eq_iff u.sha256 u.sha256).1 refl))
]

upsert_file-known :
    (db : Db) (u : Upload) (f : File) → file_of db u.sha256 ≡ some f → upsert_file db u ≡ (db, f)
unfolding upsert_file
upsert_file-known db u f k = rw (upsert_file, k) refl

upsert_file-open_era : (db : Db) (u : Upload) → open_era (upsert_file db u).0 ≡ open_era db
unfolding upsert_file open_era
upsert_file-open_era db u = elim (Option-cases (file_of db u.sha256)) [
  | inr (f, k) ↦ rw (upsert_file, k) refl
  | inl k ↦ rw (upsert_file, k) refl
]

-- A recording that has a message.
begin_upload-known :
    (db : Db) (u : Upload) (e : ℕ) (f : File) (m : Message)
    → open_era db ≡ some e
    → file_of db u.sha256 ≡ some f
    → message_of db f.id ≡ some m
    → begin_upload quiet db u ≡ resume quiet 2 db u m
unfolding begin_upload
begin_upload-known db u e f m o k l = rw (begin_upload, o, k, l) refl

new_message-matches :
    (db : Db) (u : Upload) (f : File) (era : ℕ) → matches_replay u (new_message db u f era) ≡ true
unfolding matches_replay new_message
new_message-matches db u f era = (==?_iff u.question_id u.question_id).1 refl

settled :
    (u : Upload) (db : Db) (r : Db × UploadAnswer)
    → r.0 ≡ db
    → begin_upload quiet db u ≡ r
    → Resumes u r
settled u db (d, answer) here same id h =
    ap (λ x. begin_upload quiet x u) here ∙ same ∙ ap (λ a. (d, a)) h

resume-matching :
    (n : ℕ) (db : Db) (u : Upload) (m : Message)
    → matches_replay u m ≡ true
    → resume quiet n db u m ≡ upload_slot db u m.id
unfolding resume
resume-matching n db u m k = rw (resume, k) refl

-- An answer that is no slot.
no_slot : (u : Upload) (r : Db × UploadAnswer) → ((id : ℕ) → r.1 ≢ slot id) → Resumes u r
no_slot u (db, answer) ne id h = absurd (ne id h)

module _ (u : Upload) where
  resume-Resumes :
      (n : ℕ) (db : Db) (e : ℕ) (f : File) (m : Message)
      → open_era db ≡ some e
      → file_of db u.sha256 ≡ some f
      → message_of db f.id ≡ some m
      → Resumes u (resume quiet n db u m)
  unfolding resume
  resume-Resumes n db e f m o k l =
      settled u db (resume quiet n db u m) (resume_stays n db u m)
        (begin_upload-known db u e f m o k l)

  created-Resumes :
      (db : Db) (e era : ℕ) (f : File)
      → open_era db ≡ some e
      → file_of db u.sha256 ≡ some f
      → message_of db f.id ≡ none
      → let m = new_message db u f era in Resumes u (upload_slot (insert_message db m) u m.id)
  unfolding insert_message open_era file_of message_of new_message
  created-Resumes db e era f o k l =
      let m = new_message db u f era in
      let after = insert_message db m in
      let found : message_of after f.id ≡ some m =
        find_first-snoc (λ x. x.audio_id == f.id) db.messages m l (==_refl f.id) in
      settled u after (upload_slot after u m.id) (upload_slot_stays after u m.id) (
        begin_upload-known after u e f m o k found
        ∙ resume-matching 2 after u m (new_message-matches db u f era))

  second-Resumes :
      (db : Db) (f : File)
      → create_message db u f ≡ (db, orphaned)
      → file_of db u.sha256 ≡ some f
      → Resumes u (after_first quiet u f (db, orphaned))
  unfolding after_first after_second
  second-Resumes db f again k =
      rw (after_first, upsert_file-known db u f k, again) (no_slot u (db, failed) (λ id. cc))

  first-Resumes :
      (db : Db) (e : ℕ) (f : File)
      → open_era db ≡ some e
      → file_of db u.sha256 ≡ some f
      → message_of db f.id ≡ none
      → Resumes u (after_first quiet u f (create_message db u f))
  unfolding after_first create_message raced
  first-Resumes db e f o k l = elim (Option-cases (lock_open_installation db none)) [
    | inl x ↦ rw (create_message, x) (no_slot u (db, no_open_era) (λ id. cc))
    | inr (era, x) ↦ elim (Bool-cases (any (has_audio f.id) db.messages)) [
      | inl t ↦ rw (create_message, x, t, l) (no_slot u (db, message_already_exists) (λ id. cc))
      | inr t ↦ elim (Bool-cases (refers db u f)) [
        | inl r ↦ rw (create_message, x, t, r) (created-Resumes db e era f o k l)
        | inr r ↦
            let again : create_message db u f ≡ (db, orphaned) =
              rw (create_message, x, t, r) refl in
            rw again (second-Resumes db f again k)
      ]
    ]
  ]

  for_file-Resumes :
      (db : Db) (e : ℕ) (f : File)
      → open_era db ≡ some e
      → file_of db u.sha256 ≡ some f
      → Resumes u (for_file quiet u f db (message_of db f.id))
  unfolding for_file
  for_file-Resumes db e f o k = elim (Option-cases (message_of db f.id)) [
    | inl l ↦ rw l (first-Resumes db e f o k l)
    | inr (m, l) ↦ rw l (resume-Resumes 5 db e f m o k l)
  ]

  begin_new-Resumes : (db : Db) (e : ℕ) → open_era db ≡ some e → Resumes u (begin_new quiet u db)
  unfolding begin_new
  begin_new-Resumes db e o =
      for_file-Resumes (upsert_file db u).0 e (upsert_file db u).1 (upsert_file-open_era db u ∙ o)
        (upsert_file-file_of db u)

  begin_checked-Resumes :
      (db : Db) (e : ℕ) (file : Option File)
      → open_era db ≡ some e
      → file_of db u.sha256 ≡ file
      → Resumes u (begin_checked quiet u db file (message_of_file db file))
  unfolding begin_checked message_of_file
  begin_checked-Resumes db e none o k =
      either (Resumes u) (not (is_answerable db u)) _ _
        (no_slot u (db, question_not_found) (λ id. cc)) (begin_new-Resumes db e o)
  begin_checked-Resumes db e (some f) o k = elim (Option-cases (message_of db f.id)) [
    | inr (m, l) ↦ rw l (resume-Resumes 2 db e f m o k l)
    | inl l ↦ rw l (
        either (Resumes u) (not (is_answerable db u)) _ _
          (no_slot u (db, question_not_found) (λ id. cc))
          (either (Resumes u) (not (str_eq f.blob_key (message_blob_name u.sha256))) _ _
            (no_slot u (db, message_already_exists) (λ id. cc)) (begin_new-Resumes db e o)))
  ]

-- A booth that was handed a slot and asks again for the same recording and question, because it
-- crashed or lost the answer, is handed the same slot, and nothing changes. Nobody else is at work in
-- between.
pub begin_upload-resumes :
    (db : Db) (u : Upload) (id : ℕ)
    → (begin_upload quiet db u).1 ≡ slot id
    → let after = (begin_upload quiet db u).0 in begin_upload quiet after u ≡ (after, slot id)
unfolding begin_upload
begin_upload-resumes db u = elim (Option-cases (open_era db)) [
  | inl o ↦ rw (begin_upload, o) (no_slot u (db, no_open_era) (λ id. cc))
  | inr (e, o) ↦ rw (begin_upload, o) (begin_checked-Resumes u db e (file_of db u.sha256) o refl)
]
