-- ===== src/Events/Retry.antt =====
-- packages/api/src/routes/events.ts, `POST /`: a batch that the booth posts again.
use telephone_booth_operator.Common.{
  any-snoc_true, ℕ, ◌+◌, ◌≡◌, refl, sym, subst, ◌⊎◌, String, Bool, true, false, some, List, [], ◌∷◌,
  ◌++◌, drop, any, All, length, arith, ◌==◌, ==_refl, ltb, Bool-cases, Option-cases, inl, inr,
}
use text.Mathlib.TextEquality.{eq_iff}
use telephone_booth_operator.Store.{BoothEvent, Db}
use telephone_booth_operator.Era.{open_era, lock_open_installation}
use telephone_booth_operator.Events.{Incoming, booth_event_batch_max}
use telephone_booth_operator.Events.Ingest.{
  Ingestion, insert_events, event_row, same_event, ingested, installation_inactive, ingest_in,
  ingest, is_stored,
}

abbrev IsKnown : List BoothEvent → Incoming → Type 0
IsKnown rows v = any (same_event v) rows ≡ true

any-append_true :
    (p : BoothEvent → Bool) (rows more : List BoothEvent)
    → any p rows ≡ true
    → any p (rows ++ more) ≡ true
any-append_true p [] more h = ground arith
any-append_true p (x ∷ rows) more h = ground (arith, any-append_true p rows more)

insert_events-grows :
    (g : Ingestion) (id : ℕ) (vs : List Incoming) (rows : List BoothEvent) (p : BoothEvent → Bool)
    → any p rows ≡ true
    → any p (insert_events g id vs rows) ≡ true
unfolding insert_events
insert_events-grows g id [] rows p h = h
insert_events-grows g id (v ∷ vs) rows p h = elim (Bool-cases (any (same_event v) rows)) [
  | inl k ↦ rw k (insert_events-grows g id vs rows p h)
  | inr k ↦ rw k (insert_events-grows g (id + 1) vs _ p (any-append_true p rows _ h))
]

insert_events-skip :
    (g : Ingestion) (id : ℕ) (v : Incoming) (vs : List Incoming) (rows : List BoothEvent)
    → any (same_event v) rows ≡ true
    → insert_events g id (v ∷ vs) rows ≡ insert_events g id vs rows
unfolding insert_events
insert_events-skip g id v vs rows h = rw h refl

insert_events-add :
    (g : Ingestion) (id : ℕ) (v : Incoming) (vs : List Incoming) (rows : List BoothEvent)
    → any (same_event v) rows ≡ false
    → insert_events g id (v ∷ vs) rows ≡ insert_events g (id + 1) vs (rows ++ event_row g id v ∷ [])
unfolding insert_events
insert_events-add g id v vs rows h = rw h refl

event_row-known : (g : Ingestion) (id : ℕ) (v : Incoming) → same_event v (event_row g id v) ≡ true
unfolding event_row
event_row-known g id v = ground (arith, (eq_iff v.booth_id v.booth_id).1 refl, ==_refl v.event_id)

insert_events-knows :
    (g : Ingestion) (id : ℕ) (vs : List Incoming) (rows : List BoothEvent)
    → All (IsKnown (insert_events g id vs rows)) vs
insert_events-knows g id [] rows = tt
insert_events-knows g id (v ∷ vs) rows = elim (Bool-cases (any (same_event v) rows)) [
  | inl k ↦
      subst (λ out. All (IsKnown out) (v ∷ vs)) (sym (insert_events-skip g id v vs rows k))
        (insert_events-grows g id vs rows (same_event v) k, insert_events-knows g id vs rows)
  | inr k ↦
      subst (λ out. All (IsKnown out) (v ∷ vs)) (sym (insert_events-add g id v vs rows k))
        (
          insert_events-grows g (id + 1) vs _ (same_event v)
              (any-snoc_true (same_event v) rows _ (event_row-known g id v)),
          insert_events-knows g (id + 1) vs _,
        )
]

insert_events-skips :
    (g : Ingestion) (id : ℕ) (vs : List Incoming) (rows : List BoothEvent)
    → All (IsKnown rows) vs
    → insert_events g id vs rows ≡ rows
unfolding insert_events
insert_events-skips g id [] rows h = refl
insert_events-skips g id (v ∷ vs) rows h = rw (h.0) (insert_events-skips g id vs rows h.1)

All-IsKnown_append :
    (rows more : List BoothEvent) (vs : List Incoming)
    → All (IsKnown rows) vs
    → All (IsKnown (rows ++ more)) vs
All-IsKnown_append rows more [] h = tt
All-IsKnown_append rows more (v ∷ vs) h =
    (any-append_true (same_event v) rows more h.0, All-IsKnown_append rows more vs h.1)

no-events :
    (batch : List Incoming) (rows : List BoothEvent)
    → (length batch == 0) ≡ true
    → All (IsKnown rows) batch
no-events [] rows z = tt
no-events (v ∷ batch) rows z = ground (arith, z)

ingest_in-knows :
    (g : Ingestion) (accepted skipped : ℕ)
    → (ingest_in g).1 ≡ ingested accepted skipped
    → All (IsKnown (ingest_in g).0.events) g.batch
unfolding ingest_in
ingest_in-knows g a d h = elim (Bool-cases (is_stored g)) [
  | inl k ↦ rw (ingest_in, k) (insert_events-knows g g.db.next_id g.batch g.db.events)
  | inr k ↦ ground (arith, rw (ingest_in, k) at h)
]

ingest-knows :
    (before db : Db) (batch : List Incoming) (codes : String → List ℕ) (now accepted skipped : ℕ)
    → (ingest before db batch codes now).1 ≡ ingested accepted skipped
    → All (IsKnown (ingest before db batch codes now).0.events) batch
      × (ltb booth_event_batch_max (length batch) ≡ false)
unfolding ingest
ingest-knows before db batch codes now a d h = elim (Bool-cases (length batch == 0)) [
  | inl z ↦ (no-events batch _ z, ground (arith, z))
  | inr z ↦ elim (Bool-cases (ltb booth_event_batch_max (length batch))) [
    | inl b ↦ ground (arith, rw (z, b) at h)
    | inr b ↦ elim (Option-cases (open_era before)) [
      | inl o ↦ ground (arith, rw (z, b, o) at h)
      | inr (preferred, o) ↦ elim (Option-cases (lock_open_installation db (some preferred))) [
        | inl l ↦ ground (arith, rw (z, b, o, l) at h)
        | inr (locked, l) ↦
            let g : Ingestion = record {
              before = before;
              db = db;
              batch = batch;
              codes = codes;
              locked = locked;
              now = now;
            } in
            rw (z, b, o, l) (ingest_in-knows g a d (rw (z, b, o, l) at h), refl)
      ]
    ]
  ]
]

drop-all : (rows : List BoothEvent) → drop (length rows) rows ≡ []
drop-all [] = refl
drop-all (x ∷ rows) = drop-all rows

ingest_in-skips :
    (g : Ingestion)
    → All (IsKnown g.db.events) g.batch
    → ((ingest_in g).0.events ≡ g.db.events) × ((ingest_in g).1 ≡ ingested 0 (length g.batch))
unfolding ingest_in
ingest_in-skips g k =
    let skips = insert_events-skips g g.db.next_id g.batch g.db.events k in
    rw (skips, drop-all g.db.events) (refl, ground arith)

ingest-skips :
    (before db : Db) (batch : List Incoming) (codes : String → List ℕ) (now : ℕ)
    → All (IsKnown db.events) batch
    → ltb booth_event_batch_max (length batch) ≡ false
    → let (after, answer) = ingest before db batch codes now in
      (after.events ≡ db.events)
      × ((answer ≡ ingested 0 (length batch)) ⊎ (answer ≡ installation_inactive))
unfolding ingest
ingest-skips before db batch codes now k b = elim (Bool-cases (length batch == 0)) [
  | inl z ↦ rw z (refl, inl (ground (arith, z)))
  | inr z ↦ elim (Option-cases (open_era before)) [
    | inl o ↦ rw (z, b, o) (refl, inr refl)
    | inr (preferred, o) ↦ elim (Option-cases (lock_open_installation db (some preferred))) [
      | inl l ↦ rw (z, b, o, l) (refl, inr refl)
      | inr (locked, l) ↦
          rw (z, b, o, l)
            (let (same, answer) =
                ingest_in-skips
                  (record {
                    before = before;
                    db = db;
                    batch = batch;
                    codes = codes;
                    locked = locked;
                    now = now;
                  })
                  k in
              (same, inl answer))
    ]
  ]
]

-- A batch whose events were taken adds none when it is posted again: later, with whatever events came
-- in since, the route answers that all of them are duplicates, or that no era is open, and the table
-- of events is as it was. Call sessions may be written again.
pub ingest-retry :
    (before db : Db) (batch : List Incoming) (codes : String → List ℕ) (now accepted skipped : ℕ)
    (before' db' : Db) (now' : ℕ) (more : List BoothEvent)
    → (ingest before db batch codes now).1 ≡ ingested accepted skipped
    → db'.events ≡ (ingest before db batch codes now).0.events ++ more
    → let (after, answer) = ingest before' db' batch codes now' in
      (after.events ≡ db'.events)
      × ((answer ≡ ingested 0 (length batch)) ⊎ (answer ≡ installation_inactive))
ingest-retry before db batch codes now accepted skipped before' db' now' more h e =
    let (known, b) = ingest-knows before db batch codes now accepted skipped h in
    ingest-skips before' db' batch codes now'
      (subst (λ rows. All (IsKnown rows) batch) (sym e) (All-IsKnown_append _ more batch known)) b
