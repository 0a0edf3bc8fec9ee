-- ===== src/History.antt =====
-- The modelled routes of packages/api/src/routes together: what they can do to the database, one
-- request after the other.
use telephone_booth_operator.Common.{
  List, ℕ, String, Option, none, some, ◌≡◌, subst, Option-cases, Bool-cases, inl, inr, is_some,
  arith,
}
use telephone_booth_operator.Store.{Db}
use telephone_booth_operator.Era.{find_installation}
use telephone_booth_operator.Installations.{
  InstallationCreate, Started, start_installation, end_era, end_installation, ended,
}
use telephone_booth_operator.Installations.Settled.{IsConsistent}
use telephone_booth_operator.Installations.Lifecycle.{end_era-IsConsistent}
use telephone_booth_operator.Installations.Start.{start_installation-IsStarted}
use telephone_booth_operator.Messages.{
  Decision, decide, delete_message, Blob, complete, advance_message_after_moderation,
}
use telephone_booth_operator.Messages.Settled.{
  KeepsEra, decide-IsConsistent, delete_message-IsConsistent, advance-IsConsistent,
}
use telephone_booth_operator.Messages.Uploading.{Upload, begin_upload}
use telephone_booth_operator.Messages.Begun.{begin_upload-IsConsistent}
use telephone_booth_operator.Messages.Complete.{complete-IsConsistent}
use telephone_booth_operator.Questions.{draw_random}
use telephone_booth_operator.Questions.Bookkeeping.{draw_random-IsConsistent}
use telephone_booth_operator.Questions.Editing.{
  update_question, activate_question, deactivate_question, archive_question_by_hand,
}
use telephone_booth_operator.Questions.Creating.{
  QuestionCreate, create_question, create_question-IsConsistent,
}
use telephone_booth_operator.Questions.Editing.Settled.{QuestionKeepsEra, questions-IsConsistent}
use telephone_booth_operator.Status.{StatusSnapshot, StatusUpdate, put_status}
use telephone_booth_operator.Status.Settled.{put_status-IsConsistent}

-- One committed request. `before` is the database that a route read before its transaction; it may be
-- older than `db`, as long as the row of the id kept its era since.
pub data Request (db : Db) : Db → Type 0 where
  start :
      (name_of : ℕ → String) (before : Db) (body : InstallationCreate) (user : Option ℕ)
      (ended_at now : ℕ) (r : Started)
      → start_installation name_of before db body user ended_at now ≡ some r
      → Request db r.db
  end_by_hand :
      (before db' : Db) (e t : ℕ) (user : Option ℕ) (notes location : Option String)
      → end_installation before db e t user notes location ≡ ended db'
      → Request db db'
  begin :
      (others : ℕ → Db → Db) (body : Upload)
      → ((n : ℕ) (d : Db) → IsConsistent d → IsConsistent (others n d))
      → Request db (begin_upload others db body).0
  upload :
      (before : Db) (id : ℕ) (blob : Blob) (max_bytes received_at : ℕ)
      → KeepsEra before db id
      → Request db (complete before db id blob max_bytes received_at).0
  decision :
      (before : Db) (id : ℕ) (d : Decision) (notes : Option String) (user : Option ℕ) (now : ℕ)
      → KeepsEra before db id
      → Request db (decide before db id d notes user now).0
  deletion :
      (before : Db) (id : ℕ) → KeepsEra before db id → Request db (delete_message before db id).0
  moderation : (id : ℕ) → Request db (advance_message_after_moderation db id)
  draw : (random : ℕ → ℕ) (draw_id : Option ℕ) → Request db (draw_random random db draw_id).0
  new_prompt : (before : Db) (body : QuestionCreate) → Request db (create_question before db body).0
  edit_prompt :
      (before : Db) (id : ℕ) (prompt : Option String) (weight : Option ℕ)
      → QuestionKeepsEra before db id
      → Request db (update_question before db id prompt weight).0
  activate :
      (before : Db) (id : ℕ)
      → QuestionKeepsEra before db id
      → Request db (activate_question before db id).0
  deactivate :
      (before : Db) (id : ℕ)
      → QuestionKeepsEra before db id
      → Request db (deactivate_question before db id).0
  archive :
      (before : Db) (id now : ℕ)
      → QuestionKeepsEra before db id
      → Request db (archive_question_by_hand before db id now).0
  status_report :
      (seen ss : List StatusSnapshot) (fresh : ℕ) (u : StatusUpdate) (now : ℕ)
      (r : Db × List StatusSnapshot)
      → put_status db seen ss fresh u now ≡ some r
      → Request db r.0

pub data History (db : Db) : Db → Type 0 where
  nothing_yet : History db db
  next : {a b : Db} → History db a → Request a b → History db b

end_installation-IsConsistent :
    (before db db' : Db) (e t : ℕ) (user : Option ℕ) (notes location : Option String)
    → IsConsistent db
    → end_installation before db e t user notes location ≡ ended db'
    → IsConsistent db'
unfolding end_installation
end_installation-IsConsistent before db db' e t user notes location c h =
    elim (Option-cases (find_installation before e)) [
      | inl k ↦ ground (arith, k, h)
      | inr (row, k) ↦ elim (Bool-cases (is_some row.ended_at)) [
        | inl s ↦ ground (arith, k, s, h)
        | inr s ↦ elim (Option-cases (end_era db e t user notes location)) [
          | inl n ↦ ground (arith, k, s, n, h)
          | inr (d, n) ↦
              let same : d ≡ db' = ground (arith, k, s, n, h) in
              subst IsConsistent same (end_era-IsConsistent db e t user notes location c n).0
        ]
      ]
    ]

pub Request-IsConsistent : {db db' : Db} → IsConsistent db → Request db db' → IsConsistent db'
Request-IsConsistent {db} c (start name_of before body user ended_at now r h) =
    ((start_installation-IsStarted name_of before db body user ended_at now c).0 r h).consistent
Request-IsConsistent {db} c (end_by_hand before db' e t user notes location h) =
    end_installation-IsConsistent before db db' e t user notes location c h
Request-IsConsistent {db} c (begin others body keeps) =
    begin_upload-IsConsistent others body keeps db c
Request-IsConsistent {db} c (upload before id blob max_bytes received_at k) =
    complete-IsConsistent before db id blob max_bytes received_at k c
Request-IsConsistent {db} c (decision before id d notes user now k) =
    decide-IsConsistent before db id d notes user now k c
Request-IsConsistent {db} c (deletion before id k) = delete_message-IsConsistent before db id k c
Request-IsConsistent {db} c (moderation id) = advance-IsConsistent db id c
Request-IsConsistent {db} c (draw random draw_id) = draw_random-IsConsistent random db draw_id c
Request-IsConsistent {db} c (new_prompt before body) = create_question-IsConsistent before db body c
Request-IsConsistent {db} c (edit_prompt before id prompt weight k) =
    (questions-IsConsistent before db id prompt weight 0 k c).0
Request-IsConsistent {db} c (activate before id k) =
    (questions-IsConsistent before db id none none 0 k c).1
Request-IsConsistent {db} c (deactivate before id k) =
    (questions-IsConsistent before db id none none 0 k c).2
Request-IsConsistent {db} c (archive before id now k) =
    (questions-IsConsistent before db id none none now k c).3
Request-IsConsistent {db} c (status_report seen ss fresh u now r h) =
    put_status-IsConsistent db seen ss fresh u now r c h

-- Whatever these requests do, in any order, and however old the reads before their transactions are:
-- eras started and ended, uploads, decisions, deletions and automatic moderation of messages, draws and
-- writes of questions, and status reports. The bookkeeping stays consistent: at most one era is open, and every ended era
-- keeps, as its frozen counters, those that its rows give now, with no open session, no message
-- awaiting moderation and no live question. The row that a request works on is taken to have kept
-- its era since it was read, and what others do between the statements of a request for an upload
-- slot is taken to keep the bookkeeping too.
pub History-IsConsistent : {db db' : Db} → IsConsistent db → History db db' → IsConsistent db'
History-IsConsistent c nothing_yet = c
History-IsConsistent c (next h r) = Request-IsConsistent (History-IsConsistent c h) r
