-- ===== src/Leases/Completing.antt =====
-- packages/api/src/routes/message-processing.ts, `POST /:id/complete`: the holder of a lease hands in
-- its results. The transaction reads the clock several times, here once; it is undone as a whole by a
-- rejection. `analysis` holds the rows of the message, which its work message shows in part.
use telephone_booth_operator.Common.{
  is_empty, ℕ, ◌+◌, ◌*◌, Bool, ◌&&◌, not, Option, none, some, List, if◌then◌else◌, ◌==◌, ◌==?◌,
  count, update_many, holds,
}
use telephone_booth_operator.Store.{Db}
use telephone_booth_operator.Era.{lock_installation}
use telephone_booth_operator.Leases.{holds_lease, find_work}
use telephone_booth_operator.Leases.Needs.{
  Runtime, WorkMessage, Step, processing_snapshot_hash, processing_needs,
}
use telephone_booth_operator.Results
use telephone_booth_operator.Results.{
  Transcription, Moderation, Analysis, Outcome, no_transcription, stale_transcription, unchanged,
  recorded, on_device, latest_succeeded, is_blank,
}
use telephone_booth_operator.Leases.Submitting.{
  completion_lease_seconds, hydrated, CompletionRequest, Rejection, Attempt, submit, not_found,
  installation_ended, lease_lost, stale_snapshot, rejected, so_far,
}

pub data CompletionAnswer : Type 0 where
  refused : Rejection → CompletionAnswer
  completed : List Step → CompletionAnswer

-- The update of the row at the end.
unfoldable pub handed_back : List Step → ℕ → WorkMessage → WorkMessage
handed_back needs now m =
    let p = m.processing in
    record m {
      processing = record p {
        lease_token_hash = none;
        lease_expires_at = none;
        leased_at = none;
        leased_by = none;
        snapshot_hash = none;
        error = none;
        completed_at = if is_empty needs then some now else p.completed_at;
      };
    }

-- `where: { id, processingLeaseTokenHash, processingLeasedById }`
pub is_lessee : Runtime → CompletionRequest → WorkMessage → Bool
is_lessee r q m =
    holds (λ h. h == r.token_digest q.token) m.processing.lease_token_hash
    && holds (λ u. u == q.user) m.processing.leased_by

-- `id` is that of the row.
unfoldable pub finish_completion :
    Runtime
    → List WorkMessage
    → Analysis
    → CompletionRequest
    → ℕ
    → Attempt
    → List WorkMessage × Analysis × CompletionAnswer
unfolding handed_back is_lessee
finish_completion r queue a q id (rejected why) = (queue, a, refused why)
finish_completion r queue a q id (so_far w) =
    let row = hydrated w.row w.analysis in
    let needs = processing_needs r row in
    if not (is_lessee r q row) then (queue, a, refused lease_lost) else (
      update_many (λ m. m.id == id) (λ _. handed_back needs q.now row) queue,
      w.analysis,
      completed needs,
    )

pub extended_for_completion : ℕ → WorkMessage → WorkMessage
extended_for_completion now m =
    let p = m.processing in
    record m {
      processing = record p { lease_expires_at = some (now + completion_lease_seconds * 1000) };
    }

unfoldable pub complete_found :
    Runtime
    → Results.Runtime
    → Db
    → List WorkMessage
    → Analysis
    → ℕ
    → CompletionRequest
    → Option WorkMessage
    → List WorkMessage × Analysis × CompletionAnswer
unfolding finish_completion extended_for_completion submit
complete_found r t db queue a id q none = (queue, a, refused not_found)
complete_found r t db queue a id q (some initial) =
    let current = hydrated initial a in
    if not (holds (lock_installation db) initial.installation_id)
    then (queue, a, refused installation_ended)
    else if count (holds_lease r id q.token q.user q.now) queue == 0
    then (queue, a, refused lease_lost)
    else if not (current.processing.snapshot_hash ==? some (processing_snapshot_hash r current))
    then (queue, a, refused stale_snapshot)
    else finish_completion r queue a q id (
        submit t q
          (record { row = extended_for_completion q.now current; analysis = a; target = none }))

-- `POST /:id/complete`
unfoldable pub complete :
    Runtime
    → Results.Runtime
    → Db
    → List WorkMessage
    → Analysis
    → ℕ
    → CompletionRequest
    → List WorkMessage × Analysis × CompletionAnswer
unfolding complete_found
complete r t db queue a id q = complete_found r t db queue a id q (find_work queue id)
