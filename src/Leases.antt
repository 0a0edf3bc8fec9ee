-- ===== src/Leases.antt =====
-- packages/api/src/routes/message-processing.ts: a device claims a recording for processing under a
-- lease. Parameters stand for node:crypto's digests and for the text functions of the runtime. The
-- messages are a table of their own.
pub mod Needs
pub mod Claiming
pub mod Ordering
pub mod Exclusion
pub mod Steps
pub mod Lasting
pub mod Holding
pub mod Submitting
pub mod Completing
pub mod Completed
pub mod Recording
use text.Mathlib.Text.{◌==◌ as str_eq}
use telephone_booth_operator.Common.{
  is_empty, ℕ, zero, suc, ◌+◌, ◌*◌, String, Bool, true, false, ◌&&◌, ◌||◌, not, Option, none, some,
  List, [], ◌∷◌, ◌++◌, if◌then◌else◌, ◌==◌, ltb, leb, count, find_first, update_many, filter, any,
  all, length, take, drop, holds, is_none, with_default,
}
use telephone_booth_operator.Store.{MessageStatus, is_awaiting, Processing, Review, Db, is_in}
use telephone_booth_operator.Era.{lock_installation, open_era}
use telephone_booth_operator.Leases.Needs.{
  WorkMessage, Step, step_eq, Runtime, processing_snapshot_hash, processing_needs,
}

abbrev pub max_attempts : ℕ
max_attempts = 3

abbrev pub claim_candidate_limit : ℕ
claim_candidate_limit = 100

pub active_lease : ℕ → WorkMessage → Bool
active_lease now m = holds (λ t. ltb now t) m.processing.lease_expires_at

-- The `where` of the candidates, and that of the row lock and the update.
pub is_candidate : ℕ → WorkMessage → Bool
is_candidate e m =
    is_in e m.installation_id && is_awaiting m.status && is_none m.processing.failed_at

pub is_free : ℕ → WorkMessage → Bool
is_free now m = elim m.processing.lease_expires_at [ none ↦ true | some t ↦ leb t now ]

pub is_grantable : ℕ → ℕ → ℕ → WorkMessage → Bool
unfolding is_candidate is_free
is_grantable id e now m = m.id == id && is_candidate e m && is_free now m

unfoldable pub find_work : List WorkMessage → ℕ → Option WorkMessage
find_work queue id = find_first (λ m. m.id == id) queue

-- What the transaction reads again of a candidate, after its row lock.
pub can_be_given : Runtime → ℕ → List Step → WorkMessage → Bool
unfolding active_lease step_eq
can_be_given r now capable m =
    not (is_empty (processing_needs r m))
    && not (active_lease now m)
    && all (λ need. any (step_eq need) capable) (processing_needs r m)

-- The transaction for one candidate succeeds. `db` holds the eras, `queue` the messages.
pub is_claimable : Runtime → Db → List WorkMessage → ℕ → ℕ → List Step → WorkMessage → Bool
unfolding is_grantable can_be_given find_work
is_claimable r db queue e now capable candidate =
    lock_installation db e
    && count (is_grantable candidate.id e now) queue == 1
    && holds (can_be_given r now capable) (find_work queue candidate.id)

-- `orderBy: [{ createdAt: "asc" }, { id: "asc" }]`
pub is_before : WorkMessage → WorkMessage → Bool
is_before a b = ltb a.created_at b.created_at || (a.created_at == b.created_at && ltb a.id b.id)

pub insert_by_age : WorkMessage → List WorkMessage → List WorkMessage
unfolding is_before
insert_by_age m [] = m ∷ []
insert_by_age m (x ∷ xs) =
    let rest = insert_by_age m xs in if is_before x m then x ∷ rest else m ∷ x ∷ xs

pub order_by_age : List WorkMessage → List WorkMessage
unfolding insert_by_age
order_by_age [] = []
order_by_age (m ∷ ms) = insert_by_age m (order_by_age ms)

unfoldable pub candidates_of : ℕ → List WorkMessage → List WorkMessage
unfolding order_by_age is_candidate
candidates_of e queue = order_by_age (filter (is_candidate e) queue)

-- The pages of candidates. `fuel` bounds their number.
unfoldable pub claim_pages : (WorkMessage → Bool) → List WorkMessage → ℕ → ℕ → Option WorkMessage
claim_pages claimable candidates skip zero = none
claim_pages claimable candidates skip (suc fuel) =
    let page = take claim_candidate_limit (drop skip candidates) in
    let rest = claim_pages claimable candidates (skip + length page) fuel in
    if length page == 0
    then none
    else elim (find_first claimable page) [ none ↦ rest | some m ↦ some m ]

grant_lease : Runtime → ℕ → ℕ → ℕ → ℕ → ℕ → Processing → Processing
grant_lease r token expires_at now user snapshot p = record p {
  lease_token_hash = some (r.token_digest token);
  lease_expires_at = some expires_at;
  leased_at = some now;
  leased_by = some user;
  snapshot_hash = some snapshot;
  attempt_count = p.attempt_count + 1;
  error = none;
}

pub grant : Runtime → ℕ → ℕ → ℕ → ℕ → WorkMessage → WorkMessage
unfolding grant_lease processing_snapshot_hash
grant r token expires_at now user m = record m {
  processing = grant_lease r token expires_at now user (processing_snapshot_hash r m) m.processing;
}

pub record ClaimRequest : Type 0 where
  pub capabilities : List Step
  pub lease_seconds : ℕ
  pub token : ℕ
  pub user : ℕ
  pub now : ℕ

-- `POST /claim`: the queue afterwards, and the message claimed as its transaction read it. The era is
-- read in `before` and the candidates in `seen`; `db` and `queue` are those of the transactions.
unfoldable pub claim :
    Runtime
    → Db
    → Db
    → List WorkMessage
    → List WorkMessage
    → ClaimRequest
    → List WorkMessage × Option WorkMessage
unfolding is_claimable claim_pages grant is_grantable candidates_of find_work
claim r before db seen queue q = elim (open_era before) [
  | none ↦ (queue, none)
  | some e ↦
      elim (claim_pages (is_claimable r db queue e q.now q.capabilities) (candidates_of e seen) 0
        (suc (length seen))) [
          | none ↦ (queue, none)
          | some m ↦ (
            update_many (is_grantable m.id e q.now)
                (grant r q.token (q.now + q.lease_seconds * 1000) q.now q.user) queue,
            find_work queue m.id,
          )
        ]
]

-- `where: { id, processingLeaseTokenHash, processingLeaseExpiresAt: { gt: now }, processingLeasedById }`
unfoldable pub holds_lease : Runtime → ℕ → ℕ → ℕ → ℕ → WorkMessage → Bool
unfolding active_lease
holds_lease r id token user now m =
    m.id == id
    && holds (λ h. h == r.token_digest token) m.processing.lease_token_hash
    && active_lease now m
    && holds (λ u. u == user) m.processing.leased_by

pub data LeaseAnswer : Type 0 where
  lease_lost installation_ended not_found : LeaseAnswer
  extended : ℕ → LeaseAnswer
  released : LeaseAnswer
  failed : Bool → LeaseAnswer

pub extend : ℕ → WorkMessage → WorkMessage
extend t m =
    let p = m.processing in record m { processing = record p { lease_expires_at = some t } }

-- `renewLease`, of `POST /:id/heartbeat`.
unfoldable pub renew_lease :
    Runtime → Db → List WorkMessage → ℕ → ℕ → ℕ → ℕ → ℕ → List WorkMessage × LeaseAnswer
unfolding extend find_work
renew_lease r db queue id token seconds user now = elim (find_work queue id) [
  | none ↦ (queue, lease_lost)
  | some existing ↦ elim (open_era db) [
    | none ↦ (queue, installation_ended)
    | some e ↦
        let held : WorkMessage → Bool =
          λ m. holds_lease r id token user now m && is_in e m.installation_id in
        if not (is_in e existing.installation_id)
        then (queue, installation_ended)
        else if count held queue == 1
        then (
          update_many held (extend (now + seconds * 1000)) queue,
          extended (now + seconds * 1000),
        )
        else (queue, lease_lost)
  ]
]

pub give_back : WorkMessage → WorkMessage
give_back m =
    let p = m.processing in
    record m {
      processing = record p {
        lease_token_hash = none;
        lease_expires_at = none;
        leased_at = none;
        leased_by = none;
        snapshot_hash = none;
      };
    }

-- `POST /:id/release`
unfoldable pub release : Runtime → List WorkMessage → ℕ → ℕ → ℕ → ℕ → List WorkMessage × LeaseAnswer
unfolding give_back
release r queue id token user now =
    if count (holds_lease r id token user now) queue == 0
    then (queue, lease_lost)
    else (update_many (holds_lease r id token user now) give_back queue, released)

pub record_failure : Bool → String → ℕ → WorkMessage → WorkMessage
unfolding give_back
record_failure terminal error now m =
    let p = (give_back m).processing in
    record m {
      processing = record p {
        error = some error;
        failed_at = if terminal then some now else p.failed_at;
      };
    }

-- `POST /:id/fail`
unfoldable pub fail :
    Runtime → List WorkMessage → ℕ → ℕ → String → ℕ → ℕ → List WorkMessage × LeaseAnswer
unfolding record_failure find_work
fail r queue id token error user now = elim (find_work queue id) [
  | none ↦ (queue, not_found)
  | some existing ↦
      let terminal = leb max_attempts existing.processing.attempt_count in
      if count (holds_lease r id token user now) queue == 0 then (queue, lease_lost) else (
        update_many (holds_lease r id token user now) (record_failure terminal error now) queue,
        failed terminal,
      )
]
