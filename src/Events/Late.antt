-- ===== src/Events/Late.antt =====
-- packages/api/src/routes/events.ts, `eraFor`: a late event is filed in the era of its session.
use telephone_booth_operator.Common.{
  refl, sym, ap, ◌∙◌, ℕ, ◌+◌, ◌≡◌, String, Bool, true, false, some, List, [], ◌∷◌, ◌++◌, any,
  Bool-cases, inl, inr, filter, length, find_first, arith, ==_refl,
}
use telephone_booth_operator.Store.{CallSession, BoothEvent, Db}
use telephone_booth_operator.Store.Summary.{event_in, compute_installation_summary}
use telephone_booth_operator.Era.{open_era, lock_open_installation}
use telephone_booth_operator.Events.{Incoming, era_for, session_era, is_session}
use telephone_booth_operator.Events.Ingest.{
  Ingestion, ingested, is_stored, not_stored, insert_events, event_row, same_event, ingest_in,
  ingest,
}

length-filter-snoc :
    (p : BoothEvent → Bool) (rows : List BoothEvent) (row : BoothEvent)
    → p row ≡ true
    → length (filter p (rows ++ row ∷ [])) ≡ length (filter p rows) + 1
length-filter-snoc p [] row h = ground arith
length-filter-snoc p (x ∷ rows) row h = ground (arith, length-filter-snoc p rows row h)

ingest_in-stored :
    (g : Ingestion)
    → is_stored g ≡ true
    → ((ingest_in g).0.events ≡ insert_events g g.db.next_id g.batch g.db.events)
      × ((ingest_in g).0.installations ≡ g.db.installations)
unfolding ingest_in
ingest_in-stored g k = rw (ingest_in, k) (refl, refl)

ingest_in-refused : (g : Ingestion) → is_stored g ≡ false → (ingest_in g).1 ≡ not_stored
unfolding ingest_in
ingest_in-refused g k = rw (ingest_in, k) refl

-- A new event of a session that the route knew at first counts in the era of that session, if it is
-- stored, whether that era is open or has ended: the number of its events that its rows give is one
-- more than before, and the eras themselves, with the counters that were frozen, stay as they are.
pub ingest-late_event :
    (before db : Db) (v : Incoming) (codes : String → List ℕ)
    (now id e preferred locked accepted skipped : ℕ) (s : CallSession)
    → v.session_id ≡ some id
    → find_first (is_session id) before.sessions ≡ some s
    → s.installation_id ≡ some e
    → open_era before ≡ some preferred
    → lock_open_installation db (some preferred) ≡ some locked
    → any (same_event v) db.events ≡ false
    → (ingest before db (v ∷ []) codes now).1 ≡ ingested accepted skipped
    → let after = (ingest before db (v ∷ []) codes now).0 in
      ((compute_installation_summary after e).events
        ≡ (compute_installation_summary db e).events + 1)
      × (after.installations ≡ db.installations)
unfolding ingest insert_events event_row era_for session_era compute_installation_summary
ingest-late_event before db v codes now id e preferred locked accepted skipped s k f i o l a h =
    let g : Ingestion = record {
      before = before;
      db = db;
      batch = v ∷ [];
      codes = codes;
      locked = locked;
      now = now;
    } in
    elim (Bool-cases (is_stored g)) [
      | inl stored ↦
          let (rows, eras) = ingest_in-stored g stored in
          rw (o, l)
            (
              ap (λ events. length (filter (event_in e) events)) rows
                  ∙ rw a (
                      length-filter-snoc (event_in e) db.events _
                        (rw (k, era_for, session_era, f, i) (==_refl e))),
              eras,
            )
      | inr stored ↦ ground (arith, sym (ingest_in-refused g stored) ∙ (rw (o, l) at h))
    ]
