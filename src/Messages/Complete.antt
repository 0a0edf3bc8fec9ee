-- ===== src/Messages/Complete.antt =====
-- packages/api/src/routes/messages.ts, `POST /:id/complete`: an upload that has arrived joins an era
-- that is open, once.
use telephone_booth_operator.Common.{
  ℕ, ◌≡◌, ◌≢◌, refl, sym, subst, true, false, Option, some, List, [], ◌∷◌, ◌==◌, ◌==?◌, ==_iff,
  ==?_iff, All, count, update_many, arith, Bool-cases, Option-cases, inl, inr,
}
use telephone_booth_operator.Store.{uploading, status_eq, Message, File, Db}
use telephone_booth_operator.Store.Summary.{landed_in}
use telephone_booth_operator.Era.{lock_open_installation}
use telephone_booth_operator.Era.Lock.{lock_open_installation-locked}
use telephone_booth_operator.Installations.Settled.{IsConsistent, IsConsistent-locked, settled-All}
use telephone_booth_operator.Messages.{
  in_upload, find_message, find_file, blob_problem, update_file, promote_message, promote,
  complete_landed, Blob, CompleteAnswer, complete, completed,
}
use telephone_booth_operator.Messages.Settled.{KeepsEra, InEra, Uncounted, SameEra-update_many}

module _ (before db : Db) (id : ℕ) (blob : Blob) (max_bytes received_at : ℕ) where
  abbrev pub outcome : Db × CompleteAnswer
  outcome = complete before db id blob max_bytes received_at

  abbrev pub promoted : Message → ℕ → Db
  promoted m era =
      let filed = update_file db m.audio_id blob in
      record filed {
        messages =
            update_many (in_upload id) (promote_message received_at era m.installation_id)
              db.messages;
      }

  -- What the route can leave behind.
  pub data Left : Type 0 where
    untouched : outcome.0 ≡ db → (outcome.1 ≡ completed → ⊥) → Left
    filed_only :
        (m : Message)
        → find_message before id ≡ some m
        → outcome.0 ≡ update_file db m.audio_id blob
        → (outcome.1 ≡ completed → ⊥)
        → Left
    landed :
        (m : Message) (era : ℕ)
        → find_message before id ≡ some m
        → status_eq m.status uploading ≡ true
        → lock_open_installation (update_file db m.audio_id blob) m.installation_id ≡ some era
        → (count (in_upload id) db.messages == 0) ≡ false
        → outcome.0 ≡ promoted m era
        → Left

  blob_problem-completed :
      (file : File) (a : CompleteAnswer)
      → blob_problem blob file max_bytes ≡ some a
      → a ≡ completed
      → ⊥
  unfolding blob_problem
  blob_problem-completed file a h k = ground arith

  pub left : Left
  unfolding complete complete_landed promote update_file
  left = elim (Option-cases (find_message before id)) [
    | inl k ↦ untouched (rw (complete, k) refl) (λ h. ground arith)
    | inr (m, k) ↦ elim (Option-cases (find_file before m.audio_id)) [
      | inl f ↦ untouched (rw (complete, k, f) refl) (λ h. ground arith)
      | inr (file, f) ↦ elim (Option-cases (blob_problem blob file max_bytes)) [
        | inr (a, b) ↦
            untouched (rw (complete, k, f, b) refl)
              (λ h. ground (arith, blob_problem-completed file a b))
        | inl b ↦ elim (Bool-cases (status_eq m.status uploading)) [
          | inr u ↦ filed_only m k (rw (complete, k, f, b, u) refl) (λ h. ground arith)
          | inl u ↦
              elim (Option-cases
                (lock_open_installation (update_file db m.audio_id blob) m.installation_id)) [
                  | inl o ↦
                      filed_only m k (rw (complete, k, f, b, u, promote, o) refl)
                        (λ h. ground arith)
                  | inr (era, o) ↦ elim (Bool-cases (count (in_upload id) db.messages == 0)) [
                    | inl z ↦
                        filed_only m k (rw (complete, k, f, b, u, promote, o, z) refl)
                          (λ h. ground arith)
                    | inr z ↦ landed m era k u o z (rw (complete, k, f, b, u, promote, o, z) refl)
                  ]
                ]
        ]
      ]
    ]
  ]

Uncounted-promoted :
    (e era id received_at : ℕ) (home : Option ℕ) (ms : List Message)
    → e ≢ era
    → All (InEra id home) ms
    → All (Uncounted e (in_upload id) (promote_message received_at era home)) ms
unfolding promote_message
Uncounted-promoted e era id received_at home [] ne h = tt
Uncounted-promoted e era id received_at home (m ∷ ms) ne h = (
  (λ k. (ground arith, elsewhere (h.0 (ground arith)))),
  Uncounted-promoted e era id received_at home ms ne h.1,
)
  where
    elsewhere :
        m.installation_id ≡ home → landed_in e (promote_message received_at era home m) ≡ false
    elsewhere p = elim (Bool-cases (some era ==? home)) [
      | inl s ↦ rw (s, p, sym ((==?_iff (some era) home).0 s)) (ground (arith, ==_iff era e, ne))
      | inr s ↦ rw s (ground (arith, ==_iff era e, ne))
    ]

-- What the files hold does not enter the era bookkeeping.
update_file-IsConsistent :
    (db : Db) (audio : ℕ) (blob : Blob) → IsConsistent db → IsConsistent (update_file db audio blob)
unfolding update_file
update_file-IsConsistent db audio blob c = record {
  distinct = c.distinct;
  fresh = c.fresh;
  one_open = c.one_open;
  settled =
      settled-All db (update_file db audio blob) db.installations
        (λ e. record { slice = refl; sessions = refl; awaiting = refl; questions = refl })
        c.settled;
}

-- Completing an upload keeps the era bookkeeping, so the recording counts for no era that has ended.
-- The rows of the id are taken to have kept their era since the message was read.
pub complete-IsConsistent :
    (before db : Db) (id : ℕ) (blob : Blob) (max_bytes received_at : ℕ)
    → KeepsEra before db id
    → IsConsistent db
    → IsConsistent (complete before db id blob max_bytes received_at).0
unfolding update_file
complete-IsConsistent before db id blob max_bytes received_at same c =
    elim (left before db id blob max_bytes received_at) [
      | untouched k _ ↦ subst IsConsistent (sym k) c
      | filed_only m _ k _ ↦
          subst IsConsistent (sym k) (update_file-IsConsistent db m.audio_id blob c)
      | landed m era k u o z q ↦
          let filed = update_file db m.audio_id blob in
          subst IsConsistent (sym q) (
            IsConsistent-locked filed (promoted before db id blob max_bytes received_at m era) era
              (update_file-IsConsistent db m.audio_id blob c) refl (omega arith)
              (lock_open_installation-locked filed m.installation_id era o)
              (λ e ne.
                SameEra-update_many filed e (in_upload id)
                  (promote_message received_at era m.installation_id)
                  (Uncounted-promoted e era id received_at m.installation_id db.messages ne
                    (same m k))))
    ]
