-- ===== src/Installations/Settled.antt =====
-- The invariant of the era bookkeeping: an ended era stays drained, and its frozen counters stay
-- those that its rows give.
use telephone_booth_operator.Common.{
  ℕ, ◌≤◌, ◌<◌, ◌≡◌, ◌≢◌, refl, ap, sym, subst, ◌∙◌, true, false, Option, none, some, List, [], ◌∷◌,
  ==_iff, All, count, any, arith, Bool-cases, inl, inr, ◌⊎◌, find_first, holds, is_none,
}
use telephone_booth_operator.Store.{Installation, InstallationSummary, Db, is_open, has_id, is_in}
use telephone_booth_operator.Store.Summary.{slice_of, summarize, compute_installation_summary}
use telephone_booth_operator.Era.{lock_installation, find_installation, era_is_writable}
use telephone_booth_operator.Era.Lock.{HasDistinctIds}
use telephone_booth_operator.Era.CloseOut.{open_session_in, awaiting_in, live_question_in}

-- An ended era: its summary is what its rows give now, and nothing in it is open, awaiting or live.
pub record IsSettled (db : Db) (e : ℕ) (summary : Option InstallationSummary) : Type 0 where
  pub frozen : summary ≡ some (compute_installation_summary db e)
  pub no_open_session : count (open_session_in e) db.sessions ≡ 0
  pub no_awaiting : count (awaiting_in e) db.messages ≡ 0
  pub no_live_question : count (live_question_in e) db.questions ≡ 0

abbrev pub SettledIfEnded : Db → ℕ → Option InstallationSummary → Option ℕ → Type 0
SettledIfEnded db e summary none = Unit
SettledIfEnded db e summary (some t) = IsSettled db e summary

abbrev pub RowIsSettled : Db → Installation → Type 0
RowIsSettled db row = SettledIfEnded db row.id row.summary row.ended_at

pub record IsConsistent (db : Db) : Type 0 where
  pub distinct : HasDistinctIds db.installations
  pub fresh : All (λ row. row.id < db.next_id) db.installations
  pub one_open : count is_open db.installations ≤ 1
  pub settled : All (RowIsSettled db) db.installations

-- What two databases have in common, if they agree on an era.
pub record SameEra (db db' : Db) (e : ℕ) : Type 0 where
  pub slice : slice_of db' e ≡ slice_of db e
  pub sessions : count (open_session_in e) db'.sessions ≡ count (open_session_in e) db.sessions
  pub awaiting : count (awaiting_in e) db'.messages ≡ count (awaiting_in e) db.messages
  pub questions : count (live_question_in e) db'.questions ≡ count (live_question_in e) db.questions

pub IsSettled-same :
    (db db' : Db) (e : ℕ) (s : Option InstallationSummary)
    → SameEra db db' e
    → IsSettled db e s
    → IsSettled db' e s
unfolding compute_installation_summary
IsSettled-same db db' e s same h = record {
  frozen = h.frozen ∙ ap (λ x. some (summarize x)) (sym same.slice);
  no_open_session = same.sessions ∙ h.no_open_session;
  no_awaiting = same.awaiting ∙ h.no_awaiting;
  no_live_question = same.questions ∙ h.no_live_question;
}

pub SettledIfEnded-same :
    (db db' : Db) (e : ℕ) (s : Option InstallationSummary) (ended_at : Option ℕ)
    → (is_none ended_at ≡ false → SameEra db db' e)
    → SettledIfEnded db e s ended_at
    → SettledIfEnded db' e s ended_at
SettledIfEnded-same db db' e s none same h = tt
SettledIfEnded-same db db' e s (some t) same h = IsSettled-same db db' e s (same refl) h

-- An open row found by an id has the id to itself.
any-has_id :
    (rows : List Installation) (row : Installation) (o : ℕ)
    → any (has_id o) rows ≡ false
    → All (λ r. r.id ≢ o) rows
any-has_id [] row o h = tt
any-has_id (r ∷ rows) row o h =
    (λ e. ground (arith, ==_iff r.id o), any-has_id rows row o (ground arith))

abbrev pub OpenOrOther : ℕ → Installation → Type 0
OpenOrOther o row = (is_open row ≡ true) ⊎ (row.id ≢ o)

other_of_ne :
    (o : ℕ) (rows : List Installation) → All (λ r. r.id ≢ o) rows → All (OpenOrOther o) rows
other_of_ne o [] h = tt
other_of_ne o (r ∷ rows) h = (inr h.0, other_of_ne o rows h.1)

open_or_other :
    (o : ℕ) (rows : List Installation)
    → HasDistinctIds rows
    → holds is_open (find_first (has_id o) rows) ≡ true
    → All (OpenOrOther o) rows
open_or_other o [] d h = tt
open_or_other o (r ∷ rows) d h = elim (Bool-cases (has_id o r)) [
  | inl e ↦
      let same : r.id ≡ o = ground arith in
      (inl (ground arith), other_of_ne o rows (any-has_id rows r o (subst_id r.id o same d.0)))
  | inr e ↦ (inr (ground arith), open_or_other o rows d.1 (ground arith))
]
  where
    subst_id : (i o : ℕ) → i ≡ o → any (has_id i) rows ≡ false → any (has_id o) rows ≡ false
    subst_id i o p k = rw p at k

pub locked-OpenOrOther :
    (db : Db) (o : ℕ)
    → HasDistinctIds db.installations
    → lock_installation db o ≡ true
    → All (OpenOrOther o) db.installations
unfolding lock_installation find_installation
locked-OpenOrOther db o d h = open_or_other o db.installations d h

-- A write that holds an open era, and changes no other, keeps every ended era settled.
pub settled-others :
    (db db' : Db) (o : ℕ) (rows : List Installation)
    → ((e : ℕ) → e ≢ o → SameEra db db' e)
    → All (OpenOrOther o) rows
    → All (RowIsSettled db) rows
    → All (RowIsSettled db') rows
settled-others db db' o [] same h s = tt
settled-others db db' o (r ∷ rows) same (inl is_live, h) (here, s) = (
  SettledIfEnded-same db db' r.id r.summary r.ended_at (λ ended. ground arith) here,
  settled-others db db' o rows same h s,
)
settled-others db db' o (r ∷ rows) same (inr other, h) (here, s) = (
  SettledIfEnded-same db db' r.id r.summary r.ended_at (λ ended. same r.id other) here,
  settled-others db db' o rows same h s,
)

-- So does a write that changes no era at all.
pub settled-All :
    (db db' : Db) (rows : List Installation)
    → ((e : ℕ) → SameEra db db' e)
    → All (RowIsSettled db) rows
    → All (RowIsSettled db') rows
settled-All db db' [] same s = tt
settled-All db db' (r ∷ rows) same (here, s) = (
  SettledIfEnded-same db db' r.id r.summary r.ended_at (λ ended. same r.id) here,
  settled-All db db' rows same s,
)

-- The invariant passes to a database with the same installations, by what it changes elsewhere.
pub IsConsistent-locked :
    (db db' : Db) (o : ℕ)
    → IsConsistent db
    → db'.installations ≡ db.installations
    → db.next_id ≤ db'.next_id
    → lock_installation db o ≡ true
    → ((e : ℕ) → e ≢ o → SameEra db db' e)
    → IsConsistent db'
IsConsistent-locked db db' o c rows next lock same = record {
  distinct = rw rows c.distinct;
  fresh = rw rows (raise db.installations c.fresh);
  one_open = rw rows c.one_open;
  settled = subst (All (RowIsSettled db')) (sym rows) (
      settled-others db db' o db.installations same (locked-OpenOrOther db o c.distinct lock)
        c.settled);
}
  where
    raise :
        (rows : List Installation)
        → All (λ row. row.id < db.next_id) rows
        → All (λ row. row.id < db'.next_id) rows
    raise [] h = tt
    raise (r ∷ rows) h = (omega arith, raise rows h.1)

-- The same for a write that checks the era of its row, or whose row has none.
pub IsConsistent-written :
    (db db' : Db) (i : Option ℕ)
    → IsConsistent db
    → db'.installations ≡ db.installations
    → db.next_id ≤ db'.next_id
    → era_is_writable db i ≡ true
    → ((e : ℕ) → is_in e i ≡ false → SameEra db db' e)
    → IsConsistent db'
IsConsistent-written db db' (some o) c rows next writable same =
    IsConsistent-locked db db' o c rows next writable (λ e ne. same e (ground (arith, ==_iff o e)))
IsConsistent-written db db' none c rows next writable same = record {
  distinct = rw rows c.distinct;
  fresh = rw rows (raise db.installations c.fresh);
  one_open = rw rows c.one_open;
  settled =
      subst (All (RowIsSettled db')) (sym rows)
        (settled-All db db' db.installations (λ e. same e refl) c.settled);
}
  where
    raise :
        (rows : List Installation)
        → All (λ row. row.id < db.next_id) rows
        → All (λ row. row.id < db'.next_id) rows
    raise [] h = tt
    raise (r ∷ rows) h = (omega arith, raise rows h.1)
