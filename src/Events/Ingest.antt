-- ===== src/Events/Ingest.antt =====
-- packages/api/src/routes/events.ts, `POST /`: its transaction.
use telephone_booth_operator.Common.{
  ℕ, ◌+◌, ◌-◌, String, Bool, true, all, drop, ◌&&◌, none, some, List, [], ◌∷◌, ◌++◌, if◌then◌else◌,
  ◌==◌, ltb, any, length, count, update_many,
}
use text.Mathlib.Text.{◌==◌ as str_eq}
use telephone_booth_operator.Store.{CallSession, BoothEvent, Db}
use telephone_booth_operator.Era.{open_era, lock_open_installation}
use telephone_booth_operator.Events.{
  Incoming, SessionInit, session_inits, is_frozen, era_for, is_writable_session, is_session,
  patch_session, new_session, booth_event_batch_max,
}

-- The parts of the transaction that stay the same over its loops.
pub record Ingestion : Type 0 where
  pub before : Db
  pub db : Db
  pub batch : List Incoming
  pub codes : String → List ℕ
  pub locked : ℕ
  pub now : ℕ

unfoldable pub upsert_session : Ingestion → SessionInit → List CallSession → List CallSession
upsert_session g i sessions =
    if any (is_session i.id) sessions
    then sessions
    else sessions ++ new_session g.codes i (era_for g.before g.db g.locked (some i.id)) g.now ∷ []

unfoldable pub ingest_session : Ingestion → SessionInit → List CallSession → List CallSession
unfolding upsert_session
ingest_session g i sessions =
    if is_frozen g.before g.db g.batch i.id
    then sessions
    else if ltb 0 (count (is_writable_session g.db i.id) sessions)
    then update_many (is_writable_session g.db i.id) (patch_session g.codes i) sessions
    else upsert_session g i sessions

unfoldable pub ingest_sessions : Ingestion → List SessionInit → List CallSession → List CallSession
unfolding ingest_session
ingest_sessions g [] sessions = sessions
ingest_sessions g (i ∷ is) sessions = ingest_sessions g is (ingest_session g i sessions)

-- `@@unique([boothId, eventId])`
abbrev pub same_event : Incoming → BoothEvent → Bool
same_event v row = str_eq row.booth_id v.booth_id && row.event_id == v.event_id

unfoldable pub event_row : Ingestion → ℕ → Incoming → BoothEvent
event_row g id v = record {
  id = id;
  event_id = v.event_id;
  booth_id = v.booth_id;
  boot_id = v.boot_id;
  recording_id = v.recording_id;
  version = v.version;
  session_id = v.session_id;
  occurred_at = v.occurred_at;
  installation_id = some (era_for g.before g.db g.locked v.session_id);
  event = v.event;
}

-- `createMany({ skipDuplicates: true })`
unfoldable pub insert_events : Ingestion → ℕ → List Incoming → List BoothEvent → List BoothEvent
unfolding event_row
insert_events g id [] rows = rows
insert_events g id (v ∷ vs) rows =
    let added = insert_events g (id + 1) vs (rows ++ event_row g id v ∷ []) in
    let skipped = insert_events g id vs rows in if any (same_event v) rows then skipped else added

-- The foreign key of `BoothEvent.sessionId`, for an added row.
unfoldable pub has_its_session : List CallSession → BoothEvent → Bool
has_its_session sessions row = elim row.session_id [
  | none ↦ true
  | some id ↦ any (is_session id) sessions
]

-- `not_stored` is the failure that rolls the whole batch back.
pub data IngestAnswer : Type 0 where
  batch_too_large installation_inactive not_stored : IngestAnswer
  ingested : ℕ → ℕ → IngestAnswer

-- Every row that is added has its session.
abbrev pub is_stored : Ingestion → Bool
is_stored g =
    all (has_its_session (ingest_sessions g (session_inits g.batch []) g.db.sessions))
      (drop (length g.db.events) (insert_events g g.db.next_id g.batch g.db.events))

unfoldable pub ingest_in : Ingestion → Db × IngestAnswer
unfolding ingest_sessions insert_events session_inits has_its_session
ingest_in g =
    let rows = insert_events g g.db.next_id g.batch g.db.events in
    let accepted = length rows - length g.db.events in
    let after : Db = record (g.db) {
      sessions = ingest_sessions g (session_inits g.batch []) g.db.sessions;
      events = rows;
      next_id = g.db.next_id + accepted;
    } in
    if is_stored g
    then (after, ingested accepted (length g.batch - accepted))
    else (g.db, not_stored)

-- `POST /`: the number of events accepted, and that of duplicates.
unfoldable pub ingest : Db → Db → List Incoming → (String → List ℕ) → ℕ → Db × IngestAnswer
unfolding ingest_in
ingest before db batch codes now =
    if length batch == 0
    then (db, ingested 0 0)
    else if ltb booth_event_batch_max (length batch)
    then (db, batch_too_large)
    else elim (open_era before) [
      | none ↦ (db, installation_inactive)
      | some preferred ↦ elim (lock_open_installation db (some preferred)) [
        | none ↦ (db, installation_inactive)
        | some locked ↦ ingest_in (record {
          before = before;
          db = db;
          batch = batch;
          codes = codes;
          locked = locked;
          now = now;
        })
      ]
    ]
