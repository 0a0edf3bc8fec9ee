-- ===== src/Installations/Cleared.antt =====
-- packages/api/src/routes/installations.ts, `DELETE /:id`: which rows a purge takes.
use text.Mathlib.Text.{◌==◌ as str_eq}
use telephone_booth_operator.Common.{
  either, ℕ, ◌≡◌, ◌≢◌, refl, ◌∙◌, String, Bool, true, false, not, Option, none, some, List, [], ◌∷◌,
  ◌==◌, ltb, filter, count, update_many, delete_many, Bool-cases, Option-cases, inl, inr, arith,
  filter-delete_many, count-update_many,
}
use telephone_booth_operator.Store.{
  uploading, status_eq, Message, File, Installation, Db, has_id, is_in, is_open,
}
use telephone_booth_operator.Store.Summary.{session_in, question_in, event_in}
use telephone_booth_operator.Era.{find_installation, find_active_installation}
use telephone_booth_operator.Installations.Purging.{
  message_in, snapshot_in, in_flight, moved_to, rehome, delete_rows, delete_files, PurgedRows,
  BlobCounts, PurgeAnswer, purged, purge_rows, purge_moved, purge_existing, purge,
  installation_not_found, installation_active, name_mismatch, uploads_in_flight,
}

abbrev pub is_uploading : Message → Bool
is_uploading m = status_eq m.status uploading

filter-deleted : {A : Type 0} (p : A → Bool) (xs : List A) → filter p (delete_many p xs) ≡ []
filter-deleted p [] = refl
filter-deleted p (x ∷ xs) = ground (arith, filter-deleted p xs)

-- What a purge of the era `e` makes of the rows of `db`.
pub record IsCleared (db : Db) (e : ℕ) (after : Db) : Type 0 where
  pub installation : filter (has_id e) after.installations ≡ []
  pub sessions : filter (session_in e) after.sessions ≡ []
  pub events : filter (event_in e) after.events ≡ []
  pub questions : filter (question_in e) after.questions ≡ []
  pub messages : filter (message_in e) after.messages ≡ []
  pub snapshots : filter (snapshot_in e) after.snapshots ≡ []
  pub uploads : count is_uploading after.messages ≡ count is_uploading db.messages
  pub other_sessions :
      (o : ℕ) → o ≢ e → filter (session_in o) after.sessions ≡ filter (session_in o) db.sessions
  pub other_events :
      (o : ℕ) → o ≢ e → filter (event_in o) after.events ≡ filter (event_in o) db.events
  pub other_questions :
      (o : ℕ) → o ≢ e → filter (question_in o) after.questions ≡ filter (question_in o) db.questions

is_in-other : (o e : ℕ) (i : Option ℕ) → o ≢ e → is_in e i ≡ true → is_in o i ≡ false
is_in-other o e none n h = refl
is_in-other o e (some i) n h = ground (arith, n, h)

count-delete_many :
    (e : ℕ) (ms : List Message)
    → count (in_flight e) ms ≡ 0
    → count is_uploading (delete_many (message_in e) ms) ≡ count is_uploading ms
count-delete_many e [] h = refl
count-delete_many e (m ∷ ms) h = elim (Bool-cases (is_in e m.installation_id)) [
  | inl i ↦ elim (Bool-cases (status_eq m.status uploading)) [
    | inl u ↦ ground (arith, h, i, u)
    | inr u ↦ ground (arith, h, i, u, count-delete_many e ms)
  ]
  | inr i ↦ ground (arith, h, i, count-delete_many e ms)
]

count-rehomed :
    (e o : ℕ) (ms : List Message)
    → (o == e) ≡ false
    → count (in_flight e) (update_many (in_flight e) (moved_to o) ms) ≡ 0
count-rehomed e o [] n = refl
count-rehomed e o (m ∷ ms) n = elim (Bool-cases (in_flight e m)) [
  | inl i ↦ rw i (ground (arith, n, count-rehomed e o ms n))
  | inr i ↦ rw i (ground (arith, i, count-rehomed e o ms n))
]

delete_rows-IsCleared :
    (db : Db) (e : ℕ) → count (in_flight e) db.messages ≡ 0 → IsCleared db e (delete_rows db e)
unfolding delete_rows
delete_rows-IsCleared db e h = record {
  installation = filter-deleted (has_id e) db.installations;
  sessions = filter-deleted (session_in e) db.sessions;
  events = filter-deleted (event_in e) db.events;
  questions = filter-deleted (question_in e) db.questions;
  messages = filter-deleted (message_in e) db.messages;
  snapshots = filter-deleted (snapshot_in e) db.snapshots;
  uploads = count-delete_many e db.messages h;
  other_sessions = λ o n.
      filter-delete_many (session_in o) (session_in e) db.sessions
        (λ s. is_in-other o e s.installation_id n);
  other_events = λ o n.
      filter-delete_many (event_in o) (event_in e) db.events
        (λ v. is_in-other o e v.installation_id n);
  other_questions = λ o n.
      filter-delete_many (question_in o) (question_in e) db.questions
        (λ q. is_in-other o e q.installation_id n);
}

moved-IsCleared :
    (db : Db) (e o : ℕ)
    → (o == e) ≡ false
    → let ms = update_many (in_flight e) (moved_to o) db.messages in
      IsCleared db e (delete_rows (record db { messages = ms }) e)
unfolding delete_rows
moved-IsCleared db e o n =
    let ms = update_many (in_flight e) (moved_to o) db.messages in
    let cleared =
      delete_rows-IsCleared (record db { messages = ms }) e (count-rehomed e o db.messages n) in
    record {
      installation = cleared.installation;
      sessions = cleared.sessions;
      events = cleared.events;
      questions = cleared.questions;
      messages = cleared.messages;
      snapshots = cleared.snapshots;
      uploads =
          cleared.uploads
          ∙ count-update_many is_uploading (in_flight e) (moved_to o) db.messages (λ m h. refl);
      other_sessions = cleared.other_sessions;
      other_events = cleared.other_events;
      other_questions = cleared.other_questions;
    }

-- A result that is the answer of a purge has cleared the era.
abbrev Clears : Db → ℕ → Db × PurgeAnswer → Type 0
Clears db e (after, purged rows blobs retained) = IsCleared db e after
Clears db e (after, answer) = Unit

files-IsCleared :
    (db after : Db) (e : ℕ) (files : List File)
    → IsCleared db e after
    → IsCleared db e (delete_files after files)
unfolding delete_files
files-IsCleared db after e files c = record {
  installation = c.installation;
  sessions = c.sessions;
  events = c.events;
  questions = c.questions;
  messages = c.messages;
  snapshots = c.snapshots;
  uploads = c.uploads;
  other_sessions = c.other_sessions;
  other_events = c.other_events;
  other_questions = c.other_questions;
}

-- The database that `rehome` gives, if any, is ready for the transaction.
abbrev IsReady : Db → ℕ → Option Db → Type 0
IsReady db e none = Unit
IsReady db e (some moved) = IsCleared db e (delete_rows moved e)

module _ (db : Db) (delete_blob : String → Option Bool) (e : ℕ)
    (closed : (row : Installation)
      → find_active_installation db ≡ some row
      → (row.id == e) ≡ false) where
  rehome-IsReady : IsReady db e (rehome db e)
  unfolding rehome
  rehome-IsReady = elim (Bool-cases (ltb 0 (count (in_flight e) db.messages))) [
    | inr z ↦ rw (IsReady, rehome, z) (delete_rows-IsCleared db e (ground (arith, z)))
    | inl z ↦ elim (Option-cases (find_active_installation db)) [
      | inl o ↦ rw (IsReady, rehome, z, o) tt
      | inr (era, o) ↦ rw (IsReady, rehome, z, o) (moved-IsCleared db e era.id (closed era o))
    ]
  ]

  purge_moved-Clears :
      (o : Option Db) → IsReady db e o → Clears db e (purge_moved db (λ d. d) delete_blob e o)
  unfolding purge_moved purge_rows
  purge_moved-Clears none r = tt
  purge_moved-Clears (some moved) r = files-IsCleared db (delete_rows moved e) e _ r

  purge_existing-Clears :
      (name : String) (o : Option Installation)
      → Clears db e (purge_existing db (λ d. d) delete_blob e name o)
  unfolding purge_existing
  purge_existing-Clears name none = tt
  purge_existing-Clears name (some existing) = either (Clears db e) (is_open existing) _ _ tt (
      either (Clears db e) (not (str_eq name existing.name)) _ _ tt
        (purge_moved-Clears (rehome db e) rehome-IsReady))

Clears-IsCleared :
    (db : Db) (e : ℕ) (o : Db × PurgeAnswer) (rows : PurgedRows) (blobs : BlobCounts) (retained : ℕ)
    → Clears db e o
    → o.1 ≡ purged rows blobs retained
    → IsCleared db e o.0
Clears-IsCleared db e (after, purged a b c) rows blobs retained k h = k
Clears-IsCleared db e (after, installation_not_found) rows blobs retained k h = ground (arith, h)
Clears-IsCleared db e (after, installation_active) rows blobs retained k h = ground (arith, h)
Clears-IsCleared db e (after, name_mismatch) rows blobs retained k h = ground (arith, h)
Clears-IsCleared db e (after, uploads_in_flight) rows blobs retained k h = ground (arith, h)

-- A purge that is answered as done leaves no row of the era, its snapshots and messages included, and
-- the sessions, events and questions of every other era as they were; as many uploads are in flight
-- as before, none of them in that era. No other request comes in between, and the era that is purged
-- is not the open one.
pub purge-IsCleared :
    (before db : Db) (delete_blob : String → Option Bool) (e : ℕ) (name : String)
    (rows : PurgedRows) (blobs : BlobCounts) (retained : ℕ)
    → ((row : Installation) → find_active_installation db ≡ some row → (row.id == e) ≡ false)
    → (purge before db (λ d. d) delete_blob e name).1 ≡ purged rows blobs retained
    → IsCleared db e (purge before db (λ d. d) delete_blob e name).0
unfolding purge
purge-IsCleared before db delete_blob e name rows blobs retained closed h =
    Clears-IsCleared db e (purge before db (λ d. d) delete_blob e name) rows blobs retained
      (purge_existing-Clears db delete_blob e closed name (find_installation before e)) h
