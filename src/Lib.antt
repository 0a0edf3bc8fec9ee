-- ===== src/Lib.antt =====
-- A model of the operator's backend of a telephone booth (packages/api of the repository): a phone
-- leaves recordings and draws prompts, operators decide on the recordings, and everything belongs to
-- an era, called an installation. An era is started and ended by hand; ending it closes out what is
-- in flight and freezes its counters, which everything afterwards must leave true.
--
-- Parts and files:
--   Store        rows of packages/api/prisma/schema.prisma as records, and the tables as lists in a
--                database `Db`. Store/Summary is computeInstallationSummary, the counters of an era.
--   Analytics    packages/api/src/lib/interaction-analytics.ts: summaries of call sessions and booth
--                events (Breakdown has both together, Laws what they count), and
--                the buckets per day (PerDay).
--   Era          packages/api/src/lib/installation.ts: the open era, the lock that a write takes on it
--                (Lock), the scope of reads (Scope) and closeOutInstallation (CloseOut).
--   Installations  packages/api/src/routes/installations.ts: POST / and POST /:id/end. Settled states
--                the invariant of the bookkeeping, Lifecycle, Begin and Start keep it, Carry is the
--                copying of questions into a new era. Purging is PATCH /:id and DELETE /:id (Purged,
--                Cleared).
--   Messages     packages/api/src/routes/messages.ts: POST / (Uploading, Slots, Resuming, Begun),
--                POST /:id/complete (Complete, Landing), POST /:id/decision (Deciding) and
--                DELETE /:id (Settled), and advanceMessageAfterModeration of
--                packages/api/src/lib/ai/pipeline.ts.
--   Questions    packages/api/src/routes/questions.ts: the ticket bag of GET /random (Drawing, Share,
--                Tickets, LiveRows, Random, Bookkeeping), creating a question (Creating) and the
--                writes to one (Editing).
--   Leases       packages/api/src/routes/message-processing.ts: what a message needs (Needs), claiming
--                it page by page, the oldest first (Claiming, Ordering, Exclusion), keeping or losing the
--                lease (Holding), handing in the results (Submitting, Completing, Completed,
--                Recording), and what lasts whatever other workers request (Steps, Lasting).
--   Status       packages/api/src/routes/status.ts: PUT / (Beats, Settled).
--   Events       packages/api/src/routes/events.ts, POST /: the booth's events and the call sessions
--                derived from them (Ingest), sessions of eras that have ended (Frozen), late events
--                (Late) and batches posted twice (Retry).
--   Push         packages/api/src/lib/push-events.ts: the rows that coordinate push notifications, the
--                alert of a high queue (Crossing), the alert of new messages (Alerts), and the leases
--                on the badge (Badges) and a dispatcher's loop (Dispatching, Delivery).
--   Sessions     packages/api/src/lib/session.ts: cookies (Cookies), encrypted tokens (Secrets), how
--                long a session lasts (Lifetime), the back-off of failed refreshes (Backoff with Bound
--                and Cooling), the store (Reading), and readValidSession with its refresh and its
--                check of the account (Refresh with Tokens, Gone, Keeping, Stages, Outcome and Asking).
--   Results      packages/api/src/lib/ai/pipeline.ts: recording transcripts (Transcribing), translations
--                (Translating) and verdicts (Moderating) of one message, and their order (Fresh,
--                Arriving).
--   StatusHistory  packages/web/src/lib/status-history.ts: the history in the console (Collapsing,
--                Merging).
--   Cursors      packages/api/src/lib/cursor.ts: the cursor of a page.
--   Address      packages/api/src/lib/client-ip.ts: addresses, their bytes (Bytes), proxy rules and the
--                forwarding header (Forwarded).
--   History      the routes together, as a relation between databases.
--   Common       shared names, tests on numbers and options, lists, tables, JSON, counters.
--   Tests        runs of the theorems on a small database.
--
-- A route is a function from the database to a database and an answer. What it read before its
-- writes is an argument `before` (or `seen`) of its own, so that whatever other requests committed in
-- between is covered. The statements that follow under a row lock are one step; so are those of
-- POST /installations once it has claimed the open era, or found none, and the write of PUT /status.
-- lockOpenInstallationWith is modelled statement by statement against a sequence of databases. Its
-- three attempts are the fuel of `lock_attempts`, as in the code; the pages of a claim run on one
-- unit of fuel more than there are messages, which is enough. A query is a function on a list
-- (Common/Table); an id, a digest and a time are natural numbers; a mean is its numerator and
-- denominator. node:crypto's randomInt is a parameter with its bound as a hypothesis, and its
-- digests are parameters, as are the runtime's trim and toLowerCase.
--
-- The queue of Leases and the snapshots of Status are tables next to `Db`, with the columns that
-- those routes use. The transactions of a claim's candidates see one state of the queue, which may
-- differ from what the claim read. The request for an upload slot is a sequence of statements with
-- a function for what others do before each. Dispatchers of push notifications are steps of a
-- relation, each acting on what it read at an earlier time; a dispatch has the code's 16 rounds as
-- fuel. A request for a session has what others did to the rows by each of its statements as a
-- function of the statement, so that they may do anything in between; the eviction of back-offs
-- takes as many turns as there are entries, which is enough. There a text is the list of its codes,
-- and HMAC, AES-GCM, base64url, URI coding, trim and Number are parameters with what node documents
-- of them as hypotheses. The routes of History neither ingest events nor purge.
--
-- Not modelled: a refresh that a request joins instead of starting its own; the login itself and its
-- identity provider, the blob store, push services, the HTTP layer and its schemas, serialization,
-- audit rows, broadcasts, the user interface and statistics queries, which are I/O, library calls or
-- reads.
pub mod Common
pub mod Analytics
pub mod Store
pub mod Era
pub mod Installations
pub mod Messages
pub mod Questions
pub mod Leases
pub mod Status
pub mod History
pub mod Events
pub mod Push
pub mod Sessions
pub mod Cursors
pub mod Address
pub mod StatusHistory
pub mod Results
pub mod Tests
