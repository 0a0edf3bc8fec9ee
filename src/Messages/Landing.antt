-- ===== src/Messages/Landing.antt =====
-- packages/api/src/routes/messages.ts, `POST /:id/complete`: what a completed upload is, and that it
-- is completed once.
use telephone_booth_operator.Common.{
  ℕ, ◌≤◌, ◌≡◌, ◌≢◌, refl, sym, ap, subst, true, false, Option, some, List, [], ◌∷◌, if◌then◌else◌,
  ◌==◌, ◌==?◌, ==?_iff, All, count, update_many, arith, Bool-cases, inl, inr, find_first,
}
use telephone_booth_operator.Store.{pending, Message, Db}
use telephone_booth_operator.Era.{lock_installation}
use telephone_booth_operator.Era.Lock.{lock_open_installation-locked}
use telephone_booth_operator.Messages.{
  is_message, in_upload, find_message, update_file, promote_message, Blob, complete, completed,
}
use telephone_booth_operator.Messages.Settled.{KeepsEra, InEra}
use telephone_booth_operator.Messages.Complete.{left, untouched, filed_only, landed}

-- The one row of an id that is updated while it uploads is the row found afterwards.
find-update_many :
    (id : ℕ) (f : Message → Message) (home : Option ℕ) (ms : List Message)
    → ((m : Message) → (f m).id ≡ m.id)
    → All (InEra id home) ms
    → count (is_message id) ms ≤ 1
    → (count (in_upload id) ms == 0) ≡ false
    → (m : Message) × (find_first (is_message id) (update_many (in_upload id) f ms) ≡ some (f m))
      × (m.installation_id ≡ home)
find-update_many id f home [] k h one some_row = ground arith
find-update_many id f home (m ∷ ms) k h one some_row = elim (Bool-cases (in_upload id m)) [
  | inl u ↦ (m, ground (arith, k m), h.0 (ground arith))
  | inr u ↦
      let (x, found, at_home) = find-update_many id f home ms k h.1 (ground arith) (ground arith) in
      (x, ground (arith, none_uploading ms, found), at_home)
]
  where
    none_uploading :
        (ms : List Message) → count (is_message id) ms ≡ 0 → count (in_upload id) ms ≡ 0
    none_uploading [] z = refl
    none_uploading (n ∷ ms) z = ground (arith, none_uploading ms)

none-in_upload :
    (id : ℕ) (f : Message → Message) (ms : List Message)
    → ((m : Message) → (f m).status ≡ pending)
    → count (in_upload id) (update_many (in_upload id) f ms) ≡ 0
none-in_upload id f [] k = refl
none-in_upload id f (m ∷ ms) k = ground (arith, k m, none-in_upload id f ms k)

-- An upload answered as completed is found pending, received at the given time, in an era that is
-- open. It is assumed that ids are unique and that the row kept its era since it was read.
pub complete-lands :
    (before db : Db) (id : ℕ) (blob : Blob) (max_bytes received_at : ℕ)
    → KeepsEra before db id
    → count (is_message id) db.messages ≤ 1
    → (complete before db id blob max_bytes received_at).1 ≡ completed
    → let after = (complete before db id blob max_bytes received_at).0 in
      (m : Message) × (era : ℕ) × (find_message after id ≡ some m)
      × (m.status ≡ pending)
      × (m.received_at ≡ some received_at)
      × (m.installation_id ≡ some era)
      × (lock_installation after era ≡ true)
unfolding find_message update_file promote_message lock_installation
complete-lands before db id blob max_bytes received_at same one h =
    elim (left before db id blob max_bytes received_at) [
      | untouched _ n ↦ elim (n h) [ ]
      | filed_only _ _ _ n ↦ elim (n h) [ ]
      | landed m era k u o z q ↦
          let filed = update_file db m.audio_id blob in
          let f = promote_message received_at era m.installation_id in
          let (x, found, at_home) =
            find-update_many id f m.installation_id db.messages (λ m. refl) (same m k) one z in
          (
            f x,
            era,
            subst (λ d. find_first (is_message id) d.messages ≡ some (f x)) (sym q) found,
            refl,
            refl,
            settled_in x.installation_id m.installation_id era at_home,
            subst (λ d. lock_installation d era ≡ true) (sym q)
                (lock_open_installation-locked filed m.installation_id era o),
          )
    ]
  where
    settled_in :
        (i home : Option ℕ) (era : ℕ)
        → i ≡ home
        → (if some era ==? home then i else some era) ≡ some era
    settled_in i home era p = ground (arith, p, ==?_iff (some era) home)

-- Once an upload is completed, a retry, whatever it had read before, changes no message and is not
-- answered as completed again.
pub complete-once :
    (before db : Db) (id : ℕ) (blob : Blob) (max_bytes received_at : ℕ) (before' : Db)
    (blob' : Blob) (max_bytes' received_at' : ℕ)
    → (complete before db id blob max_bytes received_at).1 ≡ completed
    → let after = (complete before db id blob max_bytes received_at).0 in
      let retry = complete before' after id blob' max_bytes' received_at' in
      (retry.0.messages ≡ after.messages) × (retry.1 ≢ completed)
unfolding update_file promote_message
complete-once before db id blob max_bytes received_at before' blob' max_bytes' received_at' h =
    elim (left before db id blob max_bytes received_at) [
      | untouched _ n ↦ elim (n h) [ ]
      | filed_only _ _ _ n ↦ elim (n h) [ ]
      | landed m era k u o z q ↦
          let after = (complete before db id blob max_bytes received_at).0 in
          let drained : count (in_upload id) after.messages ≡ 0 =
            subst (λ d. count (in_upload id) d.messages ≡ 0) (sym q)
              (none-in_upload id (promote_message received_at era m.installation_id) db.messages
                (λ m. refl)) in
          elim (left before' after id blob' max_bytes' received_at') [
            | untouched e n ↦ (ap (λ d. d.messages) e, n)
            | filed_only _ _ e n ↦ (ap (λ d. d.messages) e, n)
            | landed _ _ _ _ _ some_row _ ↦ ground (arith, drained, some_row)
          ]
    ]
