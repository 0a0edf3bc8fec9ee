-- ===== src/Installations/Begin.antt =====
-- packages/api/src/routes/installations.ts: what a new era and the questions copied into it change.
use telephone_booth_operator.Common.{
  ℕ, ◌+◌, ◌<◌, ◌≡◌, ◌≢◌, refl, ap, sym, subst, ◌∙◌, Bool, true, false, Option, none, some, List, [],
  ◌∷◌, ◌++◌, if◌then◌else◌, ==_iff, All, All-append, count, count-append, any, arith, filter,
}
use telephone_booth_operator.Store.{
  Installation, InstallationSummary, Db, is_open, has_id, Question, is_in,
}
use telephone_booth_operator.Store.Summary.{slice_of, question_in}
use telephone_booth_operator.Era.Lock.{HasDistinctIds}
use telephone_booth_operator.Era.CloseOut.{live_question_in}
use telephone_booth_operator.Installations.{carries, copy_of, copy_questions, carry_forward}
use telephone_booth_operator.Installations.Settled.{
  RowIsSettled, SettledIfEnded, SettledIfEnded-same, IsConsistent, SameEra,
}

-- Every copy is filed in the new era.
copies-other :
    (p : Question → Bool) (era fresh : ℕ) (done qs : List Question)
    → ((q : Question) → q.installation_id ≡ some era → p q ≡ false)
    → count p (copy_questions fresh era done qs) ≡ 0
unfolding copy_questions copy_of
copies-other p era fresh done [] h = refl
copies-other p era fresh done (q ∷ qs) h = ground (
  arith,
  copies-other p era fresh done qs h,
  copies-other p era (fresh + 1) (copy_of fresh era q ∷ done) qs h,
  h (copy_of fresh era q) refl,
)

-- The database after the new row is in place, with or without copied questions.
abbrev pub begun : Db → Installation → Db
begun db row = record db { installations = db.installations ++ row ∷ []; next_id = db.next_id + 1 }

pub carry_forward-SameEra :
    (db : Db) (era f : ℕ) (p : Installation) → f ≢ era → SameEra db (carry_forward db era p) f
unfolding carry_forward
carry_forward-SameEra db era f p h =
    let done = filter (λ q. is_in era q.installation_id) db.questions in
    let source = filter (carries p) db.questions in
    let copies = copy_questions db.next_id era done source in
    let none_in : (q : Question)
        → q.installation_id ≡ some era
        → is_in f q.installation_id ≡ false =
      λ q e. ground (arith, ==_iff era f) in
    let asked : count (question_in f) (db.questions ++ copies)
        ≡ count (question_in f) db.questions =
      omega (
        arith,
        count-append (question_in f) db.questions copies,
        copies-other (question_in f) era db.next_id done source none_in,
      ) in
    record {
      slice = λ i. record {
        sessions = (slice_of db f).sessions;
        landed = (slice_of db f).landed;
        questions = asked i;
        events = (slice_of db f).events;
      };
      sessions = refl;
      awaiting = refl;
      questions = omega (
        arith,
        count-append (live_question_in f) db.questions copies,
        copies-other (live_question_in f) era db.next_id done source
            (λ q e. ground (arith, none_in q e)),
      );
    }

settled-below :
    (db db' : Db) (n : ℕ) (rows : List Installation)
    → ((f : ℕ) → f ≢ n → SameEra db db' f)
    → All (λ r. r.id < n) rows
    → All (RowIsSettled db) rows
    → All (RowIsSettled db') rows
settled-below db db' n [] same b h = tt
settled-below db db' n (r ∷ rows) same (lt, b) (here, h) = (
  SettledIfEnded-same db db' r.id r.summary r.ended_at (λ _. same r.id (λ e. omega arith)) here,
  settled-below db db' n rows same b h,
)

HasDistinctIds-append :
    (n : ℕ) (rows : List Installation) (row : Installation)
    → row.id ≡ n
    → All (λ r. r.id < n) rows
    → HasDistinctIds rows
    → HasDistinctIds (rows ++ row ∷ [])
HasDistinctIds-append n [] row e b d = (refl, tt)
HasDistinctIds-append n (r ∷ rows) row e (lt, b) d =
    (ground (arith, any-append r.id rows row), HasDistinctIds-append n rows row e b d.1)
  where
    any-append :
        (o : ℕ) (rows : List Installation) (row : Installation)
        → any (has_id o) (rows ++ row ∷ []) ≡ (if has_id o row then true else any (has_id o) rows)
    any-append o [] row = ground arith
    any-append o (x ∷ xs) row = ground (arith, any-append o xs row)

fresh-append :
    (n m : ℕ) (rows : List Installation) (row : Installation)
    → row.id ≡ n
    → n < m
    → All (λ r. r.id < n) rows
    → All (λ r. r.id < m) (rows ++ row ∷ [])
fresh-append n m [] row e h b = (omega arith, tt)
fresh-append n m (r ∷ rows) row e h (lt, b) = (omega arith, fresh-append n m rows row e h b)

-- A database that adds an open row under the next id, and changes nothing of the other eras.
pub begun-IsConsistent :
    (db db' : Db) (row : Installation)
    → IsConsistent db
    → count is_open db.installations ≡ 0
    → row.id ≡ db.next_id
    → row.ended_at ≡ none
    → db'.installations ≡ db.installations ++ row ∷ []
    → db.next_id < db'.next_id
    → ((f : ℕ) → f ≢ db.next_id → SameEra db db' f)
    → IsConsistent db' × (count is_open db'.installations ≡ 1)
begun-IsConsistent db db' row c none_open id live rows next same =
    let one : count is_open (db.installations ++ row ∷ []) ≡ 1 =
      ground (arith, count-append is_open db.installations (row ∷ [])) in
    let opened : count is_open db'.installations ≡ 1 = ap (count is_open) rows ∙ one in
    (
      record {
        distinct =
            subst HasDistinctIds (sym rows)
              (HasDistinctIds-append db.next_id db.installations row id c.fresh c.distinct);
        fresh =
            subst (All (λ r. r.id < db'.next_id)) (sym rows)
              (fresh-append db.next_id db'.next_id db.installations row id next c.fresh);
        one_open = omega arith;
        settled = subst (All (RowIsSettled db')) (sym rows) (
            All-append (RowIsSettled db') db.installations (row ∷ [])
              (settled-below db db' db.next_id db.installations same c.fresh c.settled)
              (unended db' row.id row.summary row.ended_at live, tt));
      },
      opened,
    )
  where
    unended :
        (d : Db) (i : ℕ) (s : Option InstallationSummary) (o : Option ℕ)
        → o ≡ none
        → SettledIfEnded d i s o
    unended d i s o e = rw e tt

pub no_open-any : (rows : List Installation) → count is_open rows ≡ 0 → any is_open rows ≡ false
no_open-any [] h = refl
no_open-any (r ∷ rows) h = ground (arith, no_open-any rows)
