-- ===== src/Leases/Completed.antt =====
-- packages/api/src/routes/message-processing.ts: what a completed recording is afterwards.
use telephone_booth_operator.Common.{
  is_empty, ℕ, ◌≡◌, refl, ap, sym, subst, ◌∙◌, true, false, none, some, List, [], ◌∷◌, ◌==◌, ◌==?◌,
  ==?_iff, All, count, update_many, holds, is_none, arith, Bool-cases, Option-cases, inl, inr,
}
use telephone_booth_operator.Store.{Db}
use telephone_booth_operator.Era.{lock_installation}
use telephone_booth_operator.Leases.{holds_lease, find_work}
use telephone_booth_operator.Leases.Needs.{
  Runtime, snapshot_of, WorkMessage, Step, processing_needs, processing_snapshot_hash,
}
use telephone_booth_operator.Leases.Exclusion.{is_work}
use telephone_booth_operator.Leases.Holding.{NotHeld, none_held}
use telephone_booth_operator.Leases.Completing.{
  refused, completed, handed_back, is_lessee, finish_completion, complete, extended_for_completion,
}
use telephone_booth_operator.Leases.Submitting.{
  CompletionRequest, Rejection, not_found, installation_ended, lease_lost, Attempt, rejected,
  so_far, hydrated, submit,
}
use telephone_booth_operator.Results
use telephone_booth_operator.Results.{Analysis}

-- What is left of the message after a completion.
pub record IsHandedBack (r : Runtime) (needs : List Step) (m : WorkMessage) : Type 0 where
  pub token : m.processing.lease_token_hash ≡ none
  pub holder : m.processing.leased_by ≡ none
  pub left : processing_needs r m ≡ needs
  pub done : is_empty needs ≡ true → is_none m.processing.completed_at ≡ false

abbrev pub HandedBackFor : Runtime → ℕ → List Step → WorkMessage → Type 0
HandedBackFor r id needs m = is_work id m ≡ true → IsHandedBack r needs m

handed_back-IsHandedBack :
    (r : Runtime) (now : ℕ) (m : WorkMessage)
    → IsHandedBack r (processing_needs r m) (handed_back (processing_needs r m) now m)
unfolding handed_back processing_needs
handed_back-IsHandedBack r now m = record {
  token = refl;
  holder = refl;
  left = refl;
  done = λ h. ground (arith, h);
}

written-HandedBackFor :
    (r : Runtime) (id : ℕ) (needs : List Step) (row : WorkMessage) (queue : List WorkMessage)
    → IsHandedBack r needs row
    → All (HandedBackFor r id needs) (update_many (λ m. m.id == id) (λ _. row) queue)
written-HandedBackFor r id needs row [] h = tt
written-HandedBackFor r id needs row (m ∷ ms) h = elim (Bool-cases (m.id == id)) [
  | inl e ↦ rw e ((λ _. h), written-HandedBackFor r id needs row ms h)
  | inr e ↦ rw e ((λ k. ground (arith, e, k)), written-HandedBackFor r id needs row ms h)
]

finish_completion-HandedBackFor :
    (r : Runtime) (queue : List WorkMessage) (a : Analysis) (q : CompletionRequest) (id : ℕ)
    (attempt : Attempt) (needs : List Step)
    → (finish_completion r queue a q id attempt).2 ≡ completed needs
    → All (HandedBackFor r id needs) (finish_completion r queue a q id attempt).0
unfolding finish_completion
finish_completion-HandedBackFor r queue a q id (rejected why) needs h = ground (arith, h)
finish_completion-HandedBackFor r queue a q id (so_far w) needs h =
    let row = hydrated w.row w.analysis in
    elim (Bool-cases (is_lessee r q row)) [
      | inr l ↦ ground (arith, rw (finish_completion, l) at h)
      | inl l ↦
          let same : processing_needs r row ≡ needs =
            ground (arith, rw (finish_completion, l) at h) in
          rw (finish_completion, l)
            (written-HandedBackFor r id needs (handed_back (processing_needs r row) q.now row) queue
              (subst (λ ns. IsHandedBack r ns (handed_back (processing_needs r row) q.now row)) same
                (handed_back-IsHandedBack r q.now row)))
    ]

module _ (r : Runtime) (t : Results.Runtime) (db : Db) (queue : List WorkMessage) (a : Analysis)
    (id : ℕ) (q : CompletionRequest) where
  -- What a completion has checked: the row it is for, its lease and its snapshot.
  pub record IsCompletable (m : WorkMessage) : Type 0 where
    pub found : find_work queue id ≡ some m
    pub writable : holds (lock_installation db) m.installation_id ≡ true
    pub held : (count (holds_lease r id q.token q.user q.now) queue == 0) ≡ false
    pub snapshot :
        (m.processing.snapshot_hash ==? some (processing_snapshot_hash r (hydrated m a))) ≡ true
    pub finished :
        complete r t db queue a id q
        ≡ finish_completion r queue a q id (
            submit t q (record {
              row = extended_for_completion q.now (hydrated m a);
              analysis = a;
              target = none;
            }))

  pub complete-IsCompletable :
      (needs : List Step)
      → (complete r t db queue a id q).2 ≡ completed needs
      → (m : WorkMessage) × IsCompletable m
  unfolding complete hydrated
  complete-IsCompletable needs h = elim (Option-cases (find_work queue id)) [
    | inl k ↦ ground (arith, rw (complete, k) at h)
    | inr (m, k) ↦ elim (Bool-cases (holds (lock_installation db) m.installation_id)) [
      | inr w ↦ ground (arith, k, w, h)
      | inl w ↦ elim (Bool-cases (count (holds_lease r id q.token q.user q.now) queue == 0)) [
        | inl l ↦ ground (arith, k, w, l, h)
        | inr l ↦
            elim (Bool-cases
              (m.processing.snapshot_hash ==? some (processing_snapshot_hash r (hydrated m a)))) [
                | inr s ↦ ground (arith, k, w, l, s, h)
                | inl s ↦ (
                  m,
                  record {
                    found = k;
                    writable = w;
                    held = l;
                    snapshot = s;
                    finished = rw (complete, k, w, l, s) refl;
                  },
                )
              ]
      ]
    ]
  ]

  pub complete-HandedBackFor :
      (needs : List Step)
      → (complete r t db queue a id q).2 ≡ completed needs
      → All (HandedBackFor r id needs) (complete r t db queue a id q).0
  complete-HandedBackFor needs h =
      let (m, c) = complete-IsCompletable needs h in
      let attempt = submit t q (record {
        row = extended_for_completion q.now (hydrated m a);
        analysis = a;
        target = none;
      }) in
      subst (λ x. All (HandedBackFor r id needs) x.0) (sym c.finished)
        (finish_completion-HandedBackFor r queue a q id attempt needs
          (sym (ap (λ x. x.2) c.finished) ∙ h))

  -- Without a running lease on the recording, by its token and its user, results are refused.
  pub NotHeld-uncompleted :
      All (NotHeld r id q.token q.user q.now) queue
      → (why : Rejection) × (complete r t db queue a id q ≡ (queue, a, refused why))
  unfolding complete
  NotHeld-uncompleted h =
      let lost = none_held (holds_lease r id q.token q.user q.now) queue h in
      elim (Option-cases (find_work queue id)) [
        | inl k ↦ (not_found, rw (complete, k) refl)
        | inr (m, k) ↦ elim (Bool-cases (holds (lock_installation db) m.installation_id)) [
          | inl w ↦ (lease_lost, rw (complete, k, w, lost) refl)
          | inr w ↦ (installation_ended, rw (complete, k, w) refl)
        ]
      ]

  -- Results are taken only for what the worker has seen: if the digest of the snapshot that the lease
  -- recorded tells it from the present one, the recording's transcripts, moderations and review are
  -- still those of that snapshot.
  pub complete-current :
      (seen m : WorkMessage) (needs : List Step)
      → (r.snapshot_digest (snapshot_of seen) ≡ r.snapshot_digest (snapshot_of (hydrated m a))
          → snapshot_of seen ≡ snapshot_of (hydrated m a))
      → find_work queue id ≡ some m
      → m.processing.snapshot_hash ≡ some (processing_snapshot_hash r seen)
      → (complete r t db queue a id q).2 ≡ completed needs
      → ((hydrated m a).transcriptions ≡ seen.transcriptions)
        × ((hydrated m a).moderations ≡ seen.moderations)
        × (m.review.classification ≡ seen.review.classification)
  unfolding processing_snapshot_hash hydrated
  complete-current seen m needs telling found recorded h =
      let (m', c) = complete-IsCompletable needs h in
      let same : m' ≡ m = ground (arith, c.found, found) in
      let current =
        subst
          (λ x.
            (x.processing.snapshot_hash ==? some (processing_snapshot_hash r (hydrated x a)))
            ≡ true)
          same c.snapshot in
      let digests : some (r.snapshot_digest (snapshot_of seen))
          ≡ some (r.snapshot_digest (snapshot_of (hydrated m a))) =
        sym recorded
        ∙ (==?_iff m.processing.snapshot_hash (some (processing_snapshot_hash r (hydrated m a)))).0
            current in
      let equal = telling (cc digests) in
      (
        sym (ap (λ s. s.transcriptions) equal),
        sym (ap (λ s. s.moderations) equal),
        sym (ap (λ s. s.review_classification) equal),
      )

-- After a completion nobody holds a lease on the recording.
handed_back-NotHeld :
    (r : Runtime) (id token user now : ℕ) (needs : List Step) (queue : List WorkMessage)
    → All (HandedBackFor r id needs) queue
    → All (NotHeld r id token user now) queue
unfolding holds_lease
handed_back-NotHeld r id token user now needs [] h = tt
handed_back-NotHeld r id token user now needs (m ∷ ms) h = elim (Bool-cases (is_work id m)) [
  | inl w ↦
      let back = h.0 w in
      (ground (arith, back.token), handed_back-NotHeld r id token user now needs ms h.1)
  | inr w ↦ (ground (arith, w), handed_back-NotHeld r id token user now needs ms h.1)
]

-- A completed recording is not completed again: whoever hands in results for it afterwards, without a
-- new lease, is refused, and nothing changes.
pub complete-spent :
    (r : Runtime) (t : Results.Runtime) (db other : Db) (queue : List WorkMessage) (a : Analysis)
    (id : ℕ) (q next : CompletionRequest) (needs : List Step)
    → (complete r t db queue a id q).2 ≡ completed needs
    → let after = complete r t db queue a id q in
      (why : Rejection) × (complete r t other after.0 after.1 id next
        ≡ (after.0, after.1, refused why))
complete-spent r t db other queue a id q next needs h =
    let after = complete r t db queue a id q in
    NotHeld-uncompleted r t other after.0 after.1 id next (
      handed_back-NotHeld r id next.token next.user next.now needs after.0
        (complete-HandedBackFor r t db queue a id q needs h))
