-- ===== src/Messages/Settled.antt =====
-- packages/api/src/routes/messages.ts and lib/ai/pipeline.ts: what happens to a message leaves the
-- frozen counters of ended eras true.
use telephone_booth_operator.Common.{
  ℕ, ◌≡◌, refl, sym, ap, subst, String, Bool, true, false, Option, none, some, List, [], ◌∷◌, ◌==◌,
  All, All-imp, count, filter, update_many, delete_many, arith, Bool-cases, Option-cases, inl, inr,
  ◌⊎◌,
}
use telephone_booth_operator.Store.{uploading, status_eq, Message, Db, is_in, InstallationSummary}
use telephone_booth_operator.Store.Summary.{landed_in, slice_of}
use telephone_booth_operator.Era.{era_is_writable}
use telephone_booth_operator.Era.CloseOut.{awaiting_in}
use telephone_booth_operator.Installations.Settled.{
  IsConsistent, SameEra, SettledIfEnded, IsSettled-same, IsConsistent-written,
}
use telephone_booth_operator.Messages.{
  is_message, find_message, Decision, decide_message, decide, delete_message,
  advance_message_after_moderation, in_receipt, surface,
}

-- A row that does not count for an era, before or after an update.
abbrev pub Uncounted : ℕ → (Message → Bool) → (Message → Message) → Message → Type 0
Uncounted e p f m = p m ≡ true → (landed_in e m ≡ false) × (landed_in e (f m) ≡ false)

awaiting-landed : (e : ℕ) (m : Message) → landed_in e m ≡ false → awaiting_in e m ≡ false
awaiting-landed e m h = ground arith

landed-update_many :
    (e : ℕ) (p : Message → Bool) (f : Message → Message) (ms : List Message)
    → All (Uncounted e p f) ms
    → filter (landed_in e) (update_many p f ms) ≡ filter (landed_in e) ms
landed-update_many e p f [] h = refl
landed-update_many e p f (m ∷ ms) h = ground (arith, h.0, landed-update_many e p f ms h.1)

awaiting-update_many :
    (e : ℕ) (p : Message → Bool) (f : Message → Message) (ms : List Message)
    → All (Uncounted e p f) ms
    → count (awaiting_in e) (update_many p f ms) ≡ count (awaiting_in e) ms
awaiting-update_many e p f [] h = refl
awaiting-update_many e p f (m ∷ ms) h =
    ground
      (arith, h.0, awaiting-landed e m, awaiting-landed e (f m), awaiting-update_many e p f ms h.1)

pub SameEra-update_many :
    (db : Db) (e : ℕ) (p : Message → Bool) (f : Message → Message)
    → All (Uncounted e p f) db.messages
    → SameEra db (record db { messages = update_many p f db.messages }) e
SameEra-update_many db e p f h = record {
  slice =
      ap
        (λ ms. record {
          sessions = (slice_of db e).sessions;
          landed = ms;
          questions = (slice_of db e).questions;
          events = (slice_of db e).events;
        })
        (landed-update_many e p f db.messages h);
  sessions = refl;
  awaiting = awaiting-update_many e p f db.messages h;
  questions = refl;
}

-- The rows of an id that stand in the era `i`: of a landed message, the era never changes.
abbrev pub InEra : ℕ → Option ℕ → Message → Type 0
InEra id i m = is_message id m ≡ true → m.installation_id ≡ i

Uncounted-of :
    (e id : ℕ) (i : Option ℕ) (f : Message → Message) (ms : List Message)
    → ((m : Message) → (f m).installation_id ≡ m.installation_id)
    → is_in e i ≡ false
    → All (InEra id i) ms
    → All (Uncounted e (is_message id) f) ms
Uncounted-of e id i f [] k out h = tt
Uncounted-of e id i f (m ∷ ms) k out h =
    ((λ same. elsewhere m (h.0 same) (k m)), Uncounted-of e id i f ms k out h.1)
  where
    elsewhere :
        (m : Message)
        → m.installation_id ≡ i
        → (f m).installation_id ≡ m.installation_id
        → (landed_in e m ≡ false) × (landed_in e (f m) ≡ false)
    elsewhere m p q = (ground (arith, p, out), ground (arith, p, q, out))

-- The hypothesis under which a transaction trusts what was read before it.
abbrev pub KeepsEra : Db → Db → ℕ → Type 0
KeepsEra before db id =
    (m : Message) → find_message before id ≡ some m → All (InEra id m.installation_id) db.messages

updated-IsConsistent :
    (db : Db) (id : ℕ) (i : Option ℕ) (f : Message → Message)
    → IsConsistent db
    → ((m : Message) → (f m).installation_id ≡ m.installation_id)
    → era_is_writable db i ≡ true
    → All (InEra id i) db.messages
    → IsConsistent (record db { messages = update_many (is_message id) f db.messages })
updated-IsConsistent db id i f c k writable h =
    IsConsistent-written db (record db { messages = update_many (is_message id) f db.messages }) i c
      refl (omega arith) writable
      (λ e out.
        SameEra-update_many db e (is_message id) f (Uncounted-of e id i f db.messages k out h))

decide-outcome :
    (before db : Db) (id : ℕ) (decision : Decision) (notes : Option String) (user : Option ℕ)
    (now : ℕ)
    → ((decide before db id decision notes user now).0 ≡ db)
      ⊎ ((m : Message) × (find_message before id ≡ some m)
          × (era_is_writable db m.installation_id ≡ true)
          × ((decide before db id decision notes user now).0 ≡ record db {
            messages =
                update_many (is_message id) (decide_message decision notes user now) db.messages;
          }))
unfolding decide
decide-outcome before db id decision notes user now = elim (Option-cases (find_message before id)) [
  | inl k ↦ inl (rw (decide, k) refl)
  | inr (m, k) ↦ elim (Bool-cases (status_eq m.status uploading)) [
    | inl u ↦ inl (rw (decide, k, u) refl)
    | inr u ↦ elim (Bool-cases (era_is_writable db m.installation_id)) [
      | inr w ↦ inl (rw (decide, k, u, w) refl)
      | inl w ↦ elim (Bool-cases (count (is_message id) db.messages == 0)) [
        | inl z ↦ inl (rw (decide, k, u, w, z) refl)
        | inr z ↦ inr (m, k, w, rw (decide, k, u, w, z) refl)
      ]
    ]
  ]
]

-- A decision on a message keeps the era bookkeeping, whatever was committed since the message was
-- read, as long as its row kept its era.
pub decide-IsConsistent :
    (before db : Db) (id : ℕ) (decision : Decision) (notes : Option String) (user : Option ℕ)
    (now : ℕ)
    → KeepsEra before db id
    → IsConsistent db
    → IsConsistent (decide before db id decision notes user now).0
unfolding decide
decide-IsConsistent before db id decision notes user now same c =
    elim (decide-outcome before db id decision notes user now) [
      | inl k ↦ subst IsConsistent (sym k) c
      | inr (m, k, w, e) ↦ subst IsConsistent (sym e) (
          updated-IsConsistent db id m.installation_id (decide_message decision notes user now) c
            (λ m. refl) w (same m k))
    ]

landed-delete_many :
    (e id : ℕ) (ms : List Message) (i : Option ℕ)
    → is_in e i ≡ false
    → All (InEra id i) ms
    → (filter (landed_in e) (delete_many (is_message id) ms) ≡ filter (landed_in e) ms)
      × (count (awaiting_in e) (delete_many (is_message id) ms) ≡ count (awaiting_in e) ms)
landed-delete_many e id [] i out h = (refl, refl)
landed-delete_many e id (m ∷ ms) i out h = elim (Bool-cases (is_message id m)) [
  | inl k ↦
      let away : is_in e m.installation_id ≡ false = rw (h.0 k) out in
      ground (arith, k, away, landed-delete_many e id ms i out h.1)
  | inr k ↦ ground (arith, k, landed-delete_many e id ms i out h.1)
]

-- Deleting a message keeps the era bookkeeping, under the same condition.
pub delete_message-IsConsistent :
    (before db : Db) (id : ℕ)
    → KeepsEra before db id
    → IsConsistent db
    → IsConsistent (delete_message before db id).0
unfolding delete_message
delete_message-IsConsistent before db id same c = elim (Option-cases (find_message before id)) [
  | inl k ↦ rw (delete_message, k) c
  | inr (m, k) ↦ elim (Bool-cases (era_is_writable db m.installation_id)) [
    | inr w ↦ rw (delete_message, k, w) c
    | inl w ↦
        rw (delete_message, k, w)
          (IsConsistent-written db
            (record db { messages = delete_many (is_message id) db.messages }) m.installation_id c
            refl (omega arith) w
            (λ e out.
              let (kept, waiting) =
                landed-delete_many e id db.messages m.installation_id out (same m k) in
              record {
                slice =
                    ap
                      (λ ms. record {
                        sessions = (slice_of db e).sessions;
                        landed = ms;
                        questions = (slice_of db e).questions;
                        events = (slice_of db e).events;
                      })
                      kept;
                sessions = refl;
                awaiting = waiting;
                questions = refl;
              }))
  ]
]

-- Nothing is surfaced in an era that has nothing awaiting moderation.
Uncounted-drained :
    (e id : ℕ) (ms : List Message)
    → count (awaiting_in e) ms ≡ 0
    → All (Uncounted e (in_receipt id) surface) ms
unfolding surface
Uncounted-drained e id [] h = tt
Uncounted-drained e id (m ∷ ms) h =
    ((λ k. away m k (first m ms h)), Uncounted-drained e id ms (ground arith))
  where
    first :
        (m : Message) (ms : List Message)
        → count (awaiting_in e) (m ∷ ms) ≡ 0
        → awaiting_in e m ≡ false
    first m ms h = ground arith

    away :
        (m : Message)
        → in_receipt id m ≡ true
        → awaiting_in e m ≡ false
        → (landed_in e m ≡ false) × (landed_in e (surface m) ≡ false)
    away m k h = ground arith

-- Surfacing a message for review keeps the era bookkeeping, with no lock held.
pub advance-IsConsistent :
    (db : Db) (id : ℕ) → IsConsistent db → IsConsistent (advance_message_after_moderation db id)
unfolding advance_message_after_moderation
advance-IsConsistent db id c = record {
  distinct = c.distinct;
  fresh = c.fresh;
  one_open = c.one_open;
  settled = All-imp db.installations (λ r h. keep r.id r.summary r.ended_at h) c.settled;
}
  where
    keep :
        (e : ℕ) (s : Option InstallationSummary) (t : Option ℕ)
        → SettledIfEnded db e s t
        → SettledIfEnded (advance_message_after_moderation db id) e s t
    keep e s none h = tt
    keep e s (some t) h =
        IsSettled-same db (advance_message_after_moderation db id) e s
          (SameEra-update_many db e (in_receipt id) surface
            (Uncounted-drained e id db.messages h.no_awaiting))
          h
