-- ===== src/Messages/Deciding.antt =====
-- packages/api/src/routes/messages.ts, `POST /:id/decision`: what an operator's decision changes, and
-- when it is refused.
use telephone_booth_operator.Common.{
  ℕ, ◌≡◌, ◌≢◌, refl, String, true, not, Option, some, List, [], ◌∷◌, ◌==◌, All, count, filter,
  update_many, arith, Bool-cases, Option-cases, inl, inr, ◌⊎◌,
}
use telephone_booth_operator.Store.{uploading, status_eq, is_awaiting, Message, Db}
use telephone_booth_operator.Era.{era_is_writable}
use telephone_booth_operator.Messages.{
  is_message, find_message, Decision, not_found, message_not_decidable, installation_ended,
  answered, decide, decided_status, decide_message,
}

abbrev pub Decided : ℕ → Decision → ℕ → Message → Type 0
Decided id decision now m =
    is_message id m ≡ true → (m.status ≡ decided_status decision) × (m.decided_at ≡ some now)

update_many-Decided :
    (id : ℕ) (decision : Decision) (notes : Option String) (user : Option ℕ) (now : ℕ)
    (ms : List Message)
    → All
        (Decided id decision now)
        (update_many (is_message id) (decide_message decision notes user now) ms)
unfolding decide_message
update_many-Decided id decision notes user now [] = tt
update_many-Decided id decision notes user now (m ∷ ms) = elim (Bool-cases (is_message id m)) [
  | inl k ↦ (rw k (λ _. (refl, refl)), update_many-Decided id decision notes user now ms)
  | inr k ↦ (rw k (λ h. ground (arith, k, h)), update_many-Decided id decision notes user now ms)
]

update_many-others :
    (id : ℕ) (decision : Decision) (notes : Option String) (user : Option ℕ) (now : ℕ)
    (ms : List Message)
    → filter
        (λ m. not (is_message id m))
        (update_many (is_message id) (decide_message decision notes user now) ms)
      ≡ filter (λ m. not (is_message id m)) ms
unfolding decide_message
update_many-others id decision notes user now [] = refl
update_many-others id decision notes user now (m ∷ ms) =
    ground (arith, update_many-others id decision notes user now ms)

abbrev pub IsDecided : Db → Db → ℕ → Decision → ℕ → Type 0
IsDecided db db' id decision now =
    All (Decided id decision now) db'.messages
    × (filter (λ m. not (is_message id m)) db'.messages
        ≡ filter (λ m. not (is_message id m)) db.messages)

-- A decision either is made, on a message that has landed and in an era that is still open: then the
-- rows of the id have the decided status and time, and no other row changes. Or it is refused with
-- an error and the database is left as it is.
pub decide-answers :
    (before db : Db) (id : ℕ) (decision : Decision) (notes : Option String) (user : Option ℕ)
    (now : ℕ)
    → let (after, answer) = decide before db id decision notes user now in
      ((m : Message) × (find_message before id ≡ some m)
        × (answer ≡ answered (is_awaiting m.status))
        × (m.status ≢ uploading)
        × (era_is_writable db m.installation_id ≡ true)
        × IsDecided db after id decision now)
      ⊎ ((after ≡ db)
          × ((answer ≡ not_found)
              ⊎ ((answer ≡ message_not_decidable) ⊎ (answer ≡ installation_ended))))
unfolding decide
decide-answers before db id decision notes user now = elim (Option-cases (find_message before id)) [
  | inl k ↦ inr (rw (decide, k) (refl, inl refl))
  | inr (m, k) ↦ elim (Bool-cases (status_eq m.status uploading)) [
    | inl u ↦ inr (rw (decide, k, u) (refl, inr (inl refl)))
    | inr u ↦ elim (Bool-cases (era_is_writable db m.installation_id)) [
      | inr w ↦ inr (rw (decide, k, u, w) (refl, inr (inr refl)))
      | inl w ↦ elim (Bool-cases (count (is_message id) db.messages == 0)) [
        | inl z ↦ inr (rw (decide, k, u, w, z) (refl, inl refl))
        | inr z ↦ inl (
          m,
          k,
          rw (decide, k, u, w, z) refl,
          (λ e. ground (arith, e, u)),
          w,
          rw (decide, k, u, w, z)
              (
                update_many-Decided id decision notes user now db.messages,
                update_many-others id decision notes user now db.messages,
              ),
        )
      ]
    ]
  ]
]
