-- ===== src/Events/Frozen.antt =====
-- packages/api/src/routes/events.ts, `POST /`: the sessions of an era that has ended are out of reach
-- of late events; the events themselves are not.
use telephone_booth_operator.Common.{
  ℕ, ◌≡◌, ◌≢◌, refl, sym, ◌∙◌, String, Bool, true, false, none, some, List, [], ◌∷◌, ◌++◌, ◌==◌,
  ltb, any, filter, filter-update_many, length, count, update_many, find_first, arith, Bool-cases,
  Option-cases, inl, inr,
}
use telephone_booth_operator.Store.{CallSession, Db}
use telephone_booth_operator.Store.Summary.{session_in}
use telephone_booth_operator.Era.{open_era, lock_installation, lock_open_installation}
use telephone_booth_operator.Era.Lock.{lock_open_installation-locked}
use telephone_booth_operator.Events.{
  Incoming, SessionInit, session_inits, is_frozen, era_for, session_era, is_writable_session,
  is_session, patch_session, new_session, booth_event_batch_max,
}
use telephone_booth_operator.Events.Ingest.{
  Ingestion, is_stored, upsert_session, ingest_session, ingest_sessions, ingest_in, ingest,
}

any-update_many :
    (j : ℕ) (p : CallSession → Bool) (f : CallSession → CallSession) (ss : List CallSession)
    → ((s : CallSession) → (f s).id ≡ s.id)
    → any (is_session j) (update_many p f ss) ≡ any (is_session j) ss
any-update_many j p f [] h = refl
any-update_many j p f (s ∷ ss) h = ground (arith, h s, any-update_many j p f ss h)

any-append_false :
    (j : ℕ) (ss ts : List CallSession)
    → any (is_session j) (ss ++ ts) ≡ false
    → any (is_session j) ss ≡ false
any-append_false j [] ts h = refl
any-append_false j (s ∷ ss) ts h = ground (arith, any-append_false j ss ts, h)

find_first-any :
    (j : ℕ) (ss : List CallSession)
    → any (is_session j) ss ≡ false
    → find_first (is_session j) ss ≡ none
find_first-any j [] h = refl
find_first-any j (s ∷ ss) h = ground (arith, find_first-any j ss)

filter-snoc_false :
    (p : CallSession → Bool) (ss : List CallSession) (s : CallSession)
    → p s ≡ false
    → filter p (ss ++ s ∷ []) ≡ filter p ss
filter-snoc_false p [] s h = ground arith
filter-snoc_false p (x ∷ ss) s h = ground (arith, filter-snoc_false p ss s h)

-- A session that the route read at first is still there in its transaction: none is ever deleted
-- but with its era.
abbrev pub SessionsStay : Db → Db → Type 0
SessionsStay before db =
    (id : ℕ) → any (is_session id) db.sessions ≡ false → any (is_session id) before.sessions ≡ false

module _ (g : Ingestion) (e : ℕ) (ended : lock_installation g.db e ≡ false)
    (elsewhere : g.locked ≢ e) (stay : SessionsStay g.before g.db) where
  ingest_session-grows :
      (i : SessionInit) (ss : List CallSession) (j : ℕ)
      → any (is_session j) (ingest_session g i ss) ≡ false
      → any (is_session j) ss ≡ false
  unfolding ingest_session upsert_session patch_session
  ingest_session-grows i ss j h = elim (Bool-cases (is_frozen g.before g.db g.batch i.id)) [
    | inl f ↦ rw f at h
    | inr f ↦ elim (Bool-cases (ltb 0 (count (is_writable_session g.db i.id) ss))) [
      | inl w ↦
          sym (
            any-update_many j (is_writable_session g.db i.id) (patch_session g.codes i) ss
              (λ s. refl))
          ∙ rw (f, w) at h
      | inr w ↦ elim (Bool-cases (any (is_session i.id) ss)) [
        | inl a ↦ rw (f, w, a) at h
        | inr a ↦ any-append_false j ss _ (rw (f, w, a) at h)
      ]
    ]
  ]

  -- An update of a session of another era, or a session created in the locked one, is not seen by `e`.
  writable-era :
      (id : ℕ) (s : CallSession) → is_writable_session g.db id s ≡ true → session_in e s ≡ false
  unfolding is_writable_session
  writable-era id s h = elim (Option-cases s.installation_id) [
    | inl n ↦ ground arith
    | inr (d, n) ↦ elim (Bool-cases (d == e)) [ inl q ↦ ground arith | inr q ↦ ground arith ]
  ]

  era_for-fresh :
      (id : ℕ)
      → any (is_session id) g.db.sessions ≡ false
      → era_for g.before g.db g.locked (some id) ≡ g.locked
  unfolding era_for session_era
  era_for-fresh id h =
      rw
        (
          era_for,
          session_era,
          find_first-any id g.before.sessions (stay id h),
          find_first-any id g.db.sessions h,
        )
        refl

  upsert_session-keeps :
      (i : SessionInit) (ss : List CallSession)
      → ((j : ℕ) → any (is_session j) ss ≡ false → any (is_session j) g.db.sessions ≡ false)
      → filter (session_in e) (upsert_session g i ss) ≡ filter (session_in e) ss
  unfolding upsert_session new_session
  upsert_session-keeps i ss grown = elim (Bool-cases (any (is_session i.id) ss)) [
    | inl a ↦ rw a refl
    | inr a ↦ rw a (
        filter-snoc_false (session_in e) ss _
          (ground (arith, elsewhere, era_for-fresh i.id (grown i.id a))))
  ]

  ingest_session-keeps :
      (i : SessionInit) (ss : List CallSession)
      → ((j : ℕ) → any (is_session j) ss ≡ false → any (is_session j) g.db.sessions ≡ false)
      → filter (session_in e) (ingest_session g i ss) ≡ filter (session_in e) ss
  unfolding ingest_session patch_session
  ingest_session-keeps i ss grown = elim (Bool-cases (is_frozen g.before g.db g.batch i.id)) [
    | inl f ↦ rw f refl
    | inr f ↦ elim (Bool-cases (ltb 0 (count (is_writable_session g.db i.id) ss))) [
      | inl w ↦
          rw (f, w)
            (filter-update_many (session_in e) (is_writable_session g.db i.id)
              (patch_session g.codes i) ss (λ s h. (writable-era i.id s h, writable-era i.id s h)))
      | inr w ↦ rw (f, w) (upsert_session-keeps i ss grown)
    ]
  ]

  ingest_sessions-keeps :
      (is : List SessionInit) (ss : List CallSession)
      → ((j : ℕ) → any (is_session j) ss ≡ false → any (is_session j) g.db.sessions ≡ false)
      → filter (session_in e) (ingest_sessions g is ss) ≡ filter (session_in e) ss
  unfolding ingest_sessions
  ingest_sessions-keeps [] ss grown = refl
  ingest_sessions-keeps (i ∷ is) ss grown =
      ingest_sessions-keeps is (ingest_session g i ss)
        (λ j h. grown j (ingest_session-grows i ss j h))
      ∙ ingest_session-keeps i ss grown

ingest_in-keeps :
    (g : Ingestion) (e : ℕ)
    → filter (session_in e) (ingest_sessions g (session_inits g.batch []) g.db.sessions)
      ≡ filter (session_in e) g.db.sessions
    → filter (session_in e) (ingest_in g).0.sessions ≡ filter (session_in e) g.db.sessions
unfolding ingest_in
ingest_in-keeps g e h = elim (Bool-cases (is_stored g)) [
  | inl k ↦ rw (ingest_in, k) h
  | inr k ↦ rw (ingest_in, k) refl
]

-- Late events leave the call sessions of an era that has ended, or does not exist, at the route's
-- transaction as they are: whatever was read before, the route neither rewrites one nor adds one.
-- What was read before may lack sessions that are there now, not the other way round.
pub ingest-keeps_ended :
    (before db : Db) (batch : List Incoming) (codes : String → List ℕ) (now e : ℕ)
    → lock_installation db e ≡ false
    → SessionsStay before db
    → filter (session_in e) (ingest before db batch codes now).0.sessions
      ≡ filter (session_in e) db.sessions
unfolding ingest
ingest-keeps_ended before db batch codes now e ended stay = elim (Bool-cases (length batch == 0)) [
  | inl z ↦ rw z refl
  | inr z ↦ elim (Bool-cases (ltb booth_event_batch_max (length batch))) [
    | inl b ↦ rw (z, b) refl
    | inr b ↦ elim (Option-cases (open_era before)) [
      | inl o ↦ rw (z, b, o) refl
      | inr (preferred, o) ↦ elim (Option-cases (lock_open_installation db (some preferred))) [
        | inl l ↦ rw (z, b, o, l) refl
        | inr (locked, l) ↦
            let g : Ingestion = record {
              before = before;
              db = db;
              batch = batch;
              codes = codes;
              locked = locked;
              now = now;
            } in
            rw (z, b, o, l)
              (ingest_in-keeps g e (
                ingest_sessions-keeps g e ended
                  (λ q.
                    ground
                      (arith, lock_open_installation-locked db (some preferred) locked l, ended, q))
                  stay (session_inits batch []) db.sessions (λ j h. h)))
      ]
    ]
  ]
]
