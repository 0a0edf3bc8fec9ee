-- ===== src/Leases/Lasting.antt =====
-- packages/api/src/routes/message-processing.ts: what lasts of a lease, of a failure for good and of a
-- completion, whatever other workers request.
use telephone_booth_operator.Common.{
  ℕ, ◌+◌, ◌*◌, ◌≤◌, ◌<◌, ◌≡◌, ◌≢◌, sym, subst, String, true, some, List, [], ◌∷◌, ==_iff, All,
  count, arith,
}
use telephone_booth_operator.Store.{Db}
use telephone_booth_operator.Leases.{
  ClaimRequest, claim, is_free, is_grantable, active_lease, grant, grant_lease, holds_lease, fail,
  give_back, extend, record_failure, failed,
}
use telephone_booth_operator.Leases.Needs.{Runtime, WorkMessage, processing_needs}
use telephone_booth_operator.Leases.Exclusion.{
  is_work, LeasedTo, claim-grants, claim-free, claim-unfailed, find_work-All,
}
use telephone_booth_operator.Leases.Holding.{FailedFor, fail-failing, failing-FailedFor}
use telephone_booth_operator.Leases.Completing.{complete, completed}
use telephone_booth_operator.Leases.Submitting.{CompletionRequest}
use telephone_booth_operator.Leases.Completed.{HandedBackFor, complete-HandedBackFor}
use telephone_booth_operator.Leases.Steps.{LeaseHistory, LeaseHistory-All, IsKept}
use telephone_booth_operator.Results
use telephone_booth_operator.Results.{Analysis}

abbrev pub Anyone : ℕ → ℕ → Type 0
Anyone token now = Unit

-- Requests with other tokens than the claim's, while the lease that it granted runs.
abbrev pub Others : Runtime → ClaimRequest → ℕ → ℕ → Type 0
Others r q token now =
    (r.token_digest token ≢ r.token_digest q.token) × (now < q.now + q.lease_seconds * 1000)

LeasedTo-IsKept :
    (r : Runtime) (q : ClaimRequest) (id : ℕ) → IsKept r (Others r q) (LeasedTo r q id)
unfolding grant is_grantable is_free holds_lease give_back extend record_failure
LeasedTo-IsKept r q id = record {
  granted = λ i e token expires now user m ok g h w. ground (arith, g, (h w).expires, ok.1);
  given_back = λ i token user now m ok g h w.
      ground (arith, g, (h w).token, ok.0, ==_iff (r.token_digest q.token) (r.token_digest token));
  renewed = λ i token user now t m ok g h w.
      ground (arith, g, (h w).token, ok.0, ==_iff (r.token_digest q.token) (r.token_digest token));
  failed = λ i token user now b error m ok g h w.
      ground (arith, g, (h w).token, ok.0, ==_iff (r.token_digest q.token) (r.token_digest token));
}

-- While a lease that a claim granted runs, no claim picks its message, whatever claims, heartbeats,
-- releases and failures of workers with other tokens came in between, and whatever that claim had
-- read before: the eras and the candidates may be any. Ids are unique at the first claim.
pub claim-exclusive :
    (r : Runtime) (before db before' db' : Db) (seen queue seen' queue' : List WorkMessage)
    (q q' : ClaimRequest) (m m' : WorkMessage)
    → count (is_work m.id) queue ≤ 1
    → (claim r before db seen queue q).1 ≡ some m
    → LeaseHistory r (Others r q) (claim r before db seen queue q).0 queue'
    → q'.now < q.now + q.lease_seconds * 1000
    → (claim r before' db' seen' queue' q').1 ≡ some m'
    → m'.id ≢ m.id
unfolding active_lease
claim-exclusive r before db before' db' seen queue seen' queue' q q' m m' unique h t early h' same =
    let (e, k, live, candidate, idle, needs, capable, leased) =
      claim-grants r before db seen queue q m unique h in
    let still = LeaseHistory-All (LeasedTo r q m.id) (LeasedTo-IsKept r q m.id) leased t in
    let (found, free, some_needs) = claim-free r before' db' seen' queue' q' m' h' in
    let mine = find_work-All (LeasedTo r q m.id) queue' m'.id m' still found in
    let until = (mine (ground (arith, same, ==_iff m'.id m.id))).expires in
    ground (arith, free, until, early)

FailedFor-IsKept : (r : Runtime) (id : ℕ) → IsKept r Anyone (FailedFor id)
unfolding grant grant_lease give_back extend record_failure
FailedFor-IsKept r id = record {
  granted = λ i e token expires now user m ok g h w. h w;
  given_back = λ i token user now m ok g h w. h w;
  renewed = λ i token user now t m ok g h w. h w;
  failed = λ i token user now b error m ok g h w. ground (arith, h w);
}

-- A message whose failure was answered as terminal is never claimed again: whatever claims,
-- heartbeats, releases and failures of any workers follow, no claim picks it, in any era and whatever
-- it had read before. Ids are unique, also then.
pub fail-terminal :
    (r : Runtime) (id token user now : ℕ) (error : String) (queue seen queue' : List WorkMessage)
    (before db : Db) (q : ClaimRequest) (m : WorkMessage)
    → count (is_work id) queue ≤ 1
    → (fail r queue id token error user now).1 ≡ failed true
    → LeaseHistory r Anyone (fail r queue id token error user now).0 queue'
    → count (is_work m.id) queue' ≤ 1
    → (claim r before db seen queue' q).1 ≡ some m
    → m.id ≢ id
fail-terminal r id token user now error queue seen queue' before db q m unique h t later claimed
      same =
    let (left, some_held) = fail-failing r id token user now error queue h in
    let gone =
      subst (All (FailedFor id)) (sym left)
        (failing-FailedFor r id token user now error queue unique some_held) in
    let still = LeaseHistory-All (FailedFor id) (FailedFor-IsKept r id) gone t in
    let (found, free, some_needs) = claim-free r before db seen queue' q m claimed in
    let over =
      find_work-All (FailedFor id) queue' m.id m still found
        (ground (arith, same, ==_iff m.id id)) in
    let live = claim-unfailed r before db seen queue' q m later claimed in
    ground (arith, live, over)

-- A recording that needs nothing.
abbrev pub DoneFor : Runtime → ℕ → WorkMessage → Type 0
DoneFor r id m = is_work id m ≡ true → processing_needs r m ≡ []

DoneFor-IsKept : (r : Runtime) (id : ℕ) → IsKept r Anyone (DoneFor r id)
unfolding grant give_back extend record_failure processing_needs
DoneFor-IsKept r id = record {
  granted = λ i e token expires now user m ok g h w. h w;
  given_back = λ i token user now m ok g h w. h w;
  renewed = λ i token user now t m ok g h w. h w;
  failed = λ i token user now b error m ok g h w. h w;
}

HandedBack-DoneFor :
    (r : Runtime) (id : ℕ) (queue : List WorkMessage)
    → All (HandedBackFor r id []) queue
    → All (DoneFor r id) queue
HandedBack-DoneFor r id [] h = tt
HandedBack-DoneFor r id (m ∷ ms) h = ((λ w. (h.0 w).left), HandedBack-DoneFor r id ms h.1)

-- A recording that a completion leaves with nothing to do is not claimed as long as nothing else is
-- recorded for it: whatever claims, heartbeats, releases and failures of any workers follow, no claim
-- picks it, in any era and whatever it had read before.
pub complete-not_claimed :
    (r : Runtime) (t : Results.Runtime) (db : Db) (queue : List WorkMessage) (a : Analysis) (id : ℕ)
    (q : CompletionRequest) (before other : Db) (seen queue' : List WorkMessage)
    (next : ClaimRequest) (m : WorkMessage)
    → (complete r t db queue a id q).2 ≡ completed []
    → LeaseHistory r Anyone (complete r t db queue a id q).0 queue'
    → (claim r before other seen queue' next).1 ≡ some m
    → m.id ≢ id
complete-not_claimed r t db queue a id q before other seen queue' next m h steps claimed same =
    let done =
      HandedBack-DoneFor r id (complete r t db queue a id q).0
        (complete-HandedBackFor r t db queue a id q [] h) in
    let still = LeaseHistory-All (DoneFor r id) (DoneFor-IsKept r id) done steps in
    let (found, free, some_needs) = claim-free r before other seen queue' next m claimed in
    some_needs (
      find_work-All (DoneFor r id) queue' m.id m still found (ground (arith, same, ==_iff m.id id)))
