-- ===== src/Questions/Creating.antt =====
-- packages/api/src/routes/questions.ts, `POST /`: a new prompt goes into the open era.
use text.Mathlib.Text.{◌==◌ as str_eq}
use telephone_booth_operator.Common.{
  ℕ, ◌+◌, ◌≡◌, ◌≢◌, refl, ap, sym, subst, ◌∙◌, String, Bool, true, false, ◌&&◌, ◌||◌, not, Option,
  none, some, [], ◌∷◌, ◌++◌, any, count, if◌then◌else◌, ◌==◌, ==_iff, arith, Bool-cases,
  Option-cases, inl, inr, count-append, any-snoc_true, with_default,
}
use telephone_booth_operator.Store.{Question, QuestionStatus, draft, Db, is_in}
use telephone_booth_operator.Store.Summary.{question_in, slice_of}
use telephone_booth_operator.Era.{open_era, lock_installation, lock_open_installation}
use telephone_booth_operator.Era.Lock.{lock_open_installation-locked}
use telephone_booth_operator.Era.CloseOut.{live_question_in}
use telephone_booth_operator.Installations.Settled.{IsConsistent, IsConsistent-locked, SameEra}

pub record QuestionCreate : Type 0 where
  pub prompt : String
  pub audio_file_id : ℕ
  pub status : Option QuestionStatus
  pub weight : Option ℕ

-- `audio_file_gone` is the error of the foreign key, for a file that is deleted after it was found.
pub data CreationAnswer : Type 0 where
  audio_file_not_found no_open_era creation_conflict audio_file_gone : CreationAnswer
  question_created : ℕ → CreationAnswer

has_file : Db → ℕ → Bool
has_file db id = any (λ f. f.id == id) db.files

new_question : ℕ → ℕ → QuestionCreate → Question
new_question id era body = record {
  id = id;
  prompt = body.prompt;
  audio_id = body.audio_file_id;
  status = with_default body.status draft;
  weight = with_default body.weight 1;
  installation_id = some era;
  retired_at = none;
  last_selected_cycle = none;
  selections_in_cycle = 0;
}

-- The two unique indexes: one prompt, and one recording, in an era.
is_taken : ℕ → QuestionCreate → Question → Bool
is_taken era body q =
    is_in era q.installation_id && (str_eq q.prompt body.prompt || q.audio_id == body.audio_file_id)

insert_question : Db → Question → Db
insert_question db q = record db { questions = db.questions ++ q ∷ []; next_id = db.next_id + 1 }

-- `tx.question.create`
unfoldable pub create_in : Db → ℕ → QuestionCreate → Db × CreationAnswer
unfolding has_file new_question is_taken insert_question
create_in db era body =
    if any (is_taken era body) db.questions
    then (db, creation_conflict)
    else if not (has_file db body.audio_file_id)
    then (db, audio_file_gone)
    else (insert_question db (new_question db.next_id era body), question_created db.next_id)

-- `POST /`: `before` is the database of the first reads, `db` that of the transaction.
unfoldable pub create_question : Db → Db → QuestionCreate → Db × CreationAnswer
unfolding create_in has_file
create_question before db body =
    if not (has_file before body.audio_file_id)
    then (db, audio_file_not_found)
    else elim (open_era before) [
      | none ↦ (db, no_open_era)
      | some preferred ↦ elim (lock_open_installation db (some preferred)) [
        | none ↦ (db, no_open_era)
        | some era ↦ create_in db era body
      ]
    ]

insert_question-SameEra :
    (db : Db) (era e : ℕ) (body : QuestionCreate)
    → e ≢ era
    → SameEra db (insert_question db (new_question db.next_id era body)) e
unfolding insert_question new_question
insert_question-SameEra db era e body other =
    let q = new_question db.next_id era body in
    let away : is_in e (some era) ≡ false = ground (arith, ==_iff era e) in
    let asked : count (question_in e) (db.questions ++ q ∷ [])
        ≡ count (question_in e) db.questions =
      ground (arith, away, count-append (question_in e) db.questions (q ∷ [])) in
    record {
      slice = λ i. record {
        sessions = (slice_of db e).sessions;
        landed = (slice_of db e).landed;
        questions = asked i;
        events = (slice_of db e).events;
      };
      sessions = refl;
      awaiting = refl;
      questions = ground (arith, away, count-append (live_question_in e) db.questions (q ∷ []));
    }

create_in-IsConsistent :
    (db : Db) (era : ℕ) (body : QuestionCreate)
    → IsConsistent db
    → lock_installation db era ≡ true
    → IsConsistent (create_in db era body).0
unfolding create_in insert_question
create_in-IsConsistent db era body c lock =
    elim (Bool-cases (any (is_taken era body) db.questions)) [
      | inl k ↦ rw (create_in, k) c
      | inr k ↦ elim (Bool-cases (has_file db body.audio_file_id)) [
        | inr f ↦ rw (create_in, k, f) c
        | inl f ↦
            rw (create_in, k, f)
              (IsConsistent-locked db (insert_question db (new_question db.next_id era body)) era c
                refl (omega arith) lock (λ e other. insert_question-SameEra db era e body other))
      ]
    ]

-- Creating a question keeps the bookkeeping of eras.
pub create_question-IsConsistent :
    (before db : Db) (body : QuestionCreate)
    → IsConsistent db
    → IsConsistent (create_question before db body).0
unfolding create_question
create_question-IsConsistent before db body c =
    elim (Bool-cases (has_file before body.audio_file_id)) [
      | inr f ↦ rw (create_question, f) c
      | inl f ↦ elim (Option-cases (open_era before)) [
        | inl k ↦ rw (create_question, f, k) c
        | inr (preferred, k) ↦ elim (Option-cases (lock_open_installation db (some preferred))) [
          | inl l ↦ rw (create_question, f, k, l) c
          | inr (era, l) ↦
              rw (create_question, f, k, l)
                (create_in-IsConsistent db era body c
                  (lock_open_installation-locked db (some preferred) era l))
        ]
      ]
    ]

lock_open_installation-insert :
    (db : Db) (q : Question) (preferred : Option ℕ)
    → lock_open_installation (insert_question db q) preferred ≡ lock_open_installation db preferred
unfolding lock_open_installation insert_question
lock_open_installation-insert db q preferred = refl

new_question-taken :
    (id era : ℕ) (body : QuestionCreate) → is_taken era body (new_question id era body) ≡ true
unfolding is_taken new_question
new_question-taken id era body =
    ground (arith, ==_iff era era, ==_iff body.audio_file_id body.audio_file_id)

create_in-once :
    (db : Db) (era : ℕ) (body : QuestionCreate) (id : ℕ)
    → (create_in db era body).1 ≡ question_created id
    → (create_in db era body).0 ≡ insert_question db (new_question db.next_id era body)
      × (has_file db body.audio_file_id ≡ true)
      × (any (is_taken era body) (create_in db era body).0.questions ≡ true)
unfolding create_in insert_question
create_in-once db era body id h = elim (Bool-cases (any (is_taken era body) db.questions)) [
  | inl k ↦ ground (arith, k, h)
  | inr k ↦ elim (Bool-cases (has_file db body.audio_file_id)) [
    | inr f ↦ ground (arith, k, f, h)
    | inl f ↦
        rw (create_in, k, f)
          (
            refl,
            refl,
            any-snoc_true (is_taken era body) db.questions (new_question db.next_id era body)
                (new_question-taken db.next_id era body),
          )
  ]
]

creates_in :
    (before db : Db) (body : QuestionCreate) (preferred era : ℕ)
    → has_file before body.audio_file_id ≡ true
    → open_era before ≡ some preferred
    → lock_open_installation db (some preferred) ≡ some era
    → create_question before db body ≡ create_in db era body
unfolding create_question
creates_in before db body preferred era f k l = rw (create_question, f, k, l) refl

conflicts :
    (db : Db) (era : ℕ) (body : QuestionCreate)
    → any (is_taken era body) db.questions ≡ true
    → create_in db era body ≡ (db, creation_conflict)
unfolding create_in
conflicts db era body k = rw (create_in, k) refl

create_in-again :
    (db : Db) (body : QuestionCreate) (preferred era id : ℕ)
    → open_era db ≡ some preferred
    → lock_open_installation db (some preferred) ≡ some era
    → (create_in db era body).1 ≡ question_created id
    → let after = (create_in db era body).0 in
      create_question after after body ≡ (after, creation_conflict)
unfolding insert_question has_file open_era
create_in-again db body preferred era id k l h =
    let (grown, f, taken) = create_in-once db era body id h in
    let after = (create_in db era body).0 in
    creates_in after after body preferred era (ap (λ d. has_file d body.audio_file_id) grown ∙ f)
      (ap open_era grown ∙ k)
      (ap (λ d. lock_open_installation d (some preferred)) grown
        ∙ lock_open_installation-insert db (new_question db.next_id era body) (some preferred)
        ∙ l)
    ∙ conflicts after era body taken

-- A prompt that was created while the era of the first reads was still the open one is not created
-- again: the same request made once more is a conflict and changes nothing.
pub create_question-once :
    (before db : Db) (body : QuestionCreate) (id : ℕ)
    → open_era db ≡ open_era before
    → (create_question before db body).1 ≡ question_created id
    → let after = (create_question before db body).0 in
      create_question after after body ≡ (after, creation_conflict)
unfolding create_question
create_question-once before db body id same h =
    elim (Bool-cases (has_file before body.audio_file_id)) [
      | inr f ↦ ground (arith, f, h)
      | inl f ↦ elim (Option-cases (open_era before)) [
        | inl k ↦ ground (arith, f, k, h)
        | inr (preferred, k) ↦ elim (Option-cases (lock_open_installation db (some preferred))) [
          | inl l ↦ ground (arith, f, k, l, h)
          | inr (era, l) ↦
              let made = creates_in before db body preferred era f k l in
              subst (λ r. create_question r.0 r.0 body ≡ (r.0, creation_conflict)) (sym made)
                (create_in-again db body preferred era id (same ∙ k) l
                  (sym (ap (λ r. r.1) made) ∙ h))
        ]
      ]
    ]
