-- ===== src/Lib.antt =====
-- A verification library for aizk, a memory service that keeps documents and facts for people and
-- organizations, extracts a graph of claims from them, and answers a query with a pack of evidence
-- that fits a token budget. Background work runs through a durable job queue; calls that cost money
-- are charged against monthly counters.
--
-- The parts that are modelled, and how they interact in the program:
-- - Queue models the portable queue of the CockroachDB profile: src/aizk/background/queue.py
--   (enqueue, requeue_failed, active_payloads, snapshot of `Queue`) in Queue/Client, and
--   src/aizk/background/portable.py (claim, heartbeat, finish, fail of `PortableWorker`) in
--   Queue/Worker, over the rows of src/aizk/store/models/tables/queue.py in Queue/Table. Each method
--   is one transaction: a function from the two tables to the two tables. Rows that other
--   transactions have locked are those that the argument `locked` names, since the statements skip
--   them. Queue/Loop is `execute` and the batch of `run_once`, with the handler as a parameter.
--   A transaction that one of the unique indexes refuses leaves the tables as they were, and what it
--   raises is not modelled. Queue/Invariant says what well-formed tables are, Queue/Invariant/Failing
--   that a late failure keeps them so, Queue/Invariant/Recovery what tables can be reached,
--   Queue/Exclusion what a lease means while other transactions run, Queue/Backoff when a
--   failed task comes back. Queue/Schedule is `install_schedules` and `fire_schedules` of the same
--   worker; croniter's next run, the moment that each round reads and the rows that are locked for
--   the whole call are parameters, and the loop runs on fuel: one round for each moment between the
--   cursors and the last moment of the clock is enough.
-- - Quota models src/aizk/store/quota.py and src/aizk/store/models/tables/quota.py. The counter table
--   is a function from the primary key; a transaction that is refused leaves no trace, as the
--   rollback demands. The database's answer to each attempt, and the table that each attempt sees,
--   are parameters. `consume_from` recurses on the attempts that are left, so it needs no fuel.
-- - Provenance models the two enumerations of src/aizk/provenance.py, which the other parts read.
-- - Retrieval models src/aizk/retrieval/models/candidate.py in Retrieval/Candidate and
--   src/aizk/retrieval/packing/budget.py in Retrieval/Packing, and the order in which the reranker
--   puts them, src/aizk/retrieval/rerank/rescore.py, in Retrieval/Merit, where a comparison that raises is
--   a failure of the whole order. A text is the list of its code
--   points. The ratio of characters to tokens is a fraction that is taken exactly, where the code rounds in
--   floating point. How an identifier and a date are printed is a parameter.
-- - Consolidation models src/aizk/graph/consolidation.py and the part of src/aizk/graph/writer.py that
--   turns verdicts into revisions, retractions and disputes. The matches that the database ranks and
--   the verdicts that the language model answers with are arguments. Distances are numbers on one
--   scale with the two thresholds.
-- - Grounding models `normalized_map` and `quote_interval` of src/aizk/graph/grounding.py: where the
--   quote of a proposed claim stands in its source. The normal form is the list of its characters,
--   each with its offset. The white space of Python and its case folding are parameters.
-- - Communities models the detector of src/aizk/graph/communities.py. One pass of Louvain is a
--   parameter that is assumed to return a partition of the nodes into inhabited parts
--   (Communities/Measure). The loop runs on fuel: one round for every entity and level is enough.
-- - Boilerplate models the cleaner of src/aizk/artifacts/boilerplate.py over the measured blocks of a
--   page; `hostname`, the splitting into words and case folding are parameters.
-- - Web models the half of `find` that may reach the public web: src/aizk/web/router.py in Web/Router,
--   src/aizk/web/sanitizer.py in Web/Sanitizer, the chains and the cache of src/aizk/web/service.py
--   and src/aizk/web/cache.py in Web/Egress, `run` with its switches, deadline and receipts in
--   Web/Service. A call is a list of events. For one call, `World` in Web is what everything outside
--   answers: the allowance and the providers as functions of the events so far, the planner once, the
--   detector of names by its question. The deadline, and an error that the code does not catch, such as
--   one of the counters' database, cut a call after any of its events (`Cut` in Web/Service). Web/Trace is the steps that a call takes, Web/Chains shows that
--   the code takes them, Web/Endings how `decide` can end; Web/Cleared, Web/Receipts and Web/Cache are
--   about what leaves the machine, what is told of it and what is stored. Web/Probe is the operator's
--   probe, Web/Rehearsal compares it with a call, whose `World` may be another one.
-- - Identity models the caller of src/aizk/store/identity/user.py and how it resolves a write target;
--   Web and Uploads use it.
-- - Uploads models src/aizk/artifacts/uploads.py and `receive_upload` of src/aizk/api/app.py over the
--   rows of `upload_capability`: Uploads/Rows what one mint does, Uploads/Live the tables that can be
--   reached, Uploads/Redeem what a capability is good for, Uploads/Bodies the body of a PUT. Each method
--   is one transaction; the random token, the clock, the digest and the JSON of a row are arguments.
-- - Promotion models the sharing and the moving of documents: src/aizk/graph/promote.py with the rows
--   of src/aizk/store/models/tables (Promotion), `Document.retire` and the closing of claims
--   (Promotion/Rows), `Artifact.share` (Promotion/Share), `ground` with src/aizk/graph/dedupe.py
--   (Promotion/Ground) and `Promoter`, `retire`, `transfer` (Promotion/Carry). A call is one
--   transaction from a store to a store or a refusal, which leaves the store as it was; the unique
--   indexes of `document` are refusals. Identifiers come from a counter of the store. The tables are the
--   rows that the session of the caller may both read and write: that row security passes over the update
--   of a row that is only readable is not modelled, and the locks are left out. Promotion/Standing is
--   about the rounds of a batch, Promotion/Move about a move and its repetition, Promotion/Quarantine
--   about what a share leaves alone, Promotion/Covers about the facts that come along.
-- - Watermark models the counters of src/aizk/store/models/tables/watermark.py, one function per
--   statement, and the passes refresh_dirty_profiles of src/aizk/graph/profiles.py and run_if_grown of
--   src/aizk/background/jobs/maintenance.py, with what other transactions do in between as a list of
--   statements. Watermark/Refines reads the table as a function from keys to counts, Watermark/Unique
--   is the unique constraint, Watermark/Passes what a pass leaves.
-- - Logto models src/aizk/integrations/logto/policy.py: the pages of a tenant and the changes (Logto),
--   `_plan` with one function for each of its stages (Logto/Plan), `audit` and `apply` (Logto/Apply). The
--   Management API is a parameter: what a state answers and what a request makes of it. `apply` makes
--   eight passes at most, as the code does, and says so when they do not suffice. The settings are
--   taken as validated: a name that the code looks up is there. Logto/Conforms says what the policy asks
--   of a tenant, Logto/Stages, Logto/Permissions and Logto/Audit are about an empty plan, Logto/Rightful
--   and Logto/Safety about what a plan takes away.
-- - LongText models src/aizk/serving/extract/long_text.py: LongText/Windows is about how a text is cut,
--   LongText/Strongest, LongText/Keys and LongText/Merge about which copies of a finding are kept. `range` runs on fuel;
--   one step for every word is enough, since the step is positive.
-- - Quality models src/aizk/artifacts/quality.py, the gate between a new conversion of a document and the
--   live text: its measures and rejections, and in Quality/Gate what it lets through.
-- - Base holds the names that the parts share: Boolean tests, list operations with their lemmas, a
--   stable sort and texts. Tests holds concrete runs.
--
-- Identifiers, moments and calendar months are numbers, and a set of identifiers is a list of them.
-- Numbers are unbounded; the widths of the database's integer columns are not modelled.
--
-- Not modelled: the building of web providers from settings; the PostgreSQL branch of the queue, which
-- calls PgQueuer; what a schedule's callback does; delays and cancellation inside a handler; entity
-- resolution and the SQL that stores claims; the community builder; the cutting of Markdown into blocks;
-- the registers of certainty; the ingestion of texts, and extraction but for the windows of a long text;
-- the model servers, the Logto client and the handling of tokens, the interfaces, the configuration and the operations.
pub mod Base
pub mod Provenance
pub mod Retrieval
pub mod Queue
pub mod Quota
pub mod Communities
pub mod Boilerplate
pub mod Consolidation
pub mod Tests
pub mod Grounding
pub mod Identity
pub mod Logto
pub mod LongText
pub mod Promotion
pub mod Quality
pub mod Uploads
pub mod Watermark
pub mod Web
