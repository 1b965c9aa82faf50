-- ===== src/Lib.antt =====
-- Letopis keeps the change history of the entities of other systems. A write (internal/service/
-- ingest.go) carries either the full state of an entity or a list of changes. The service asks the
-- diff engine (internal/diff) for the changes between the stored state and the new one, lets the
-- plugins (internal/plugin) add to the event, and appends it to the history with the next version.
-- A reader reconstructs a past state by replaying the events from a snapshot (internal/domain/
-- snapshot_recon.go). The rules engine (internal/rules) evaluates the stored conditions on each event.
-- A rule that holds posts a webhook (internal/delivery). An asynchronous write waits in a queue
-- (internal/queue) for the worker (internal/worker) and is followed through a ticket (internal/domain/ticket.go).
--
-- Files:
--   Prelude   shared names, Boolean tests, list lemmas, strings as byte lists, integers.
--   Json      the values of encoding/json: objects are field lists sorted by key, since Go compares
--             and prints maps without order; numbers are bit patterns of float64, and int and int64
--             are kept apart, as the type switches of the source do.
--   Diff      internal/diff/diff.go (Compute, Text, Path: Diff is `diff`, diffValue `diff_value`) and
--             internal/diff/apply.go (Apply, Path: Apply is `apply`, parsePath `parse_path`). Plain
--             says which documents the round trip is about: their keys and numbers survive a path.
--             Roundtrip proves it by the kind of value.
--   Domain    internal/domain/event.go, snapshot_recon.go (Reconstruct), collection.go (Collection),
--             ticket.go and internal/service/ticket.go (Ticket), and the text of the ids of id.go (Ulid).
--             Their child modules hold the proofs.
--   Plugin    internal/plugin/host.go and plugin.go: HasPreStore and RunPreStore. A plugin is any
--             function of the collection, the event and the view of the entity.
--   Service   internal/service/ingest.go: planEvent (Plan), commitEvent and applyOne (Ingest), with
--             AppendEvent of internal/storage/mongo/event_repo.go as `stamp` and `has_event_id`, and
--             Build of internal/service/snapshot.go. The store is a record of events, current states
--             and snapshots; `Faults` says which of its calls fail in a write. Replay and History
--             relate the writes to what Reconstruct later returns, Dedup and Repeat are about repeats.
--   Read      internal/service/read.go (StateAt with its tail), ListEvents of event_repo.go and Nearest
--             of snapshot_repo.go in internal/storage/mongo, and the page size of internal/server/read.go.
--             Paging follows the cursors of a list of events, PointInTime relates StateAt to Reconstruct.
--   Append    AppendEvent of internal/storage/mongo/event_repo.go with any number of writers at one
--             time: `Writers` has its reads and inserts as a step relation, Versions and Progress what
--             holds of every run, Alone what a writer does that meets no other one.
--   HashChain internal/plugin/hashchain/hashchain.go as a plugin of the writes (Link): Canonical is
--             `canonical`, Hash `hash`, PreStore `pre_store`. Verify recomputes the links of stored
--             events, Sealed and Writes are about the histories that the plugin seals, Tamper about changed ones.
--   Queue     internal/queue/queue.go (Shard) and internal/queue/memory/memory.go (Memory): each access
--             to the shared state is a step with a label, and Order is about the order in a shard.
--   Intake    internal/service/pipeline.go (Accept: enqueue is `enqueue`, and dispatch in Batch), the
--             keys of internal/storage/redis/idempotency_store.go (Reserve) and batch_ingest.go (Batch).
--             Kept and Once are about repeats, Errors about refusals, Settled about the worker that takes an
--             accepted write, Verdicts and Counts about the elements of a batch.
--   Worker    internal/worker/worker.go over the writes and the tickets: process is `process`, handle
--             `handle`. An attempt says which calls fail. Redelivery is about deliveries that come
--             again, Settled about their tickets. Loop is runShard with reclaim, and Once says how often
--             an event is stored in a run. Batcher is internal/worker/batch.go: runShard is
--             `run_shard` and flush `flush`; Buffer is about the batches of the loop, Groups, Tickets,
--             Outcome and Told about what a flush makes of the tenants' data and tickets.
--   Batch     internal/service/batch.go: Fold is the loop of batchCollection, Flush what follows it
--             (batch_collection, and ingest_batch for IngestBatch) with AppendEvents as an ordered
--             insert. Agrees, Tails, Step and Single compare the loop with single writes, Refresh is
--             about the current states, Collections about a flush over several collections.
--   Tenant    internal/tenant/tenant.go (Access): scopes, databases and the collection mask of a key,
--             and resolver.go (Resolver). Isolation says whose rights a raw key can get.
--   Rules     internal/rules/rules.go (Model), compile.go (Compile, Eval) and validate.go (Validate).
--             Meaning reads a condition without compiling it; Kinds, Leaves and Refinement prove that
--             the compiled form agrees, and Runnable says what validation promises. Engine is
--             internal/service/rules_engine.go: Effects has the actions (fire is `fire`), Cached the
--             cache and Evaluate (`evaluate`), Messages internal/storage/redis/rule_invalidator.go.
--             Asked and Firing are about the actions, Fresh about the age of cached rules, Signals about edits.
--             Admin is internal/service/rule_admin.go over internal/storage/mongo/rule_repo.go, and
--             Apart and Sound are about the rules that it stores.
--   Storage   internal/storage/mongo/names.go (validateLogical is `validate_logical`).
--             Injective leads from a physical name back to the logical one.
--   Delivery  internal/delivery/delivery.go (Backoff, Task: nextDelay is `next_delay`) and
--             dispatcher.go (Dispatch: process, deliver, publish, toDLQ; Loop: handle, reclaim,
--             scheduleRetry, Run). Schedule has the bounds of a delay, Settle follows a task through
--             its retries, Kept counts what becomes of the tasks of a run.
--
-- A failing call returns an error value of the model's own result type, with the source's message.
-- The data is pure: a list or a map that Go shares and mutates is copied here. Fuel occurs three
-- times: diff_value runs on one more than the depth of the old value, and each step goes one level
-- down, so it is never used up on that value; `digits` runs on one more than the number it prints; and
-- following the cursors of a list asks for at most one page more than there are selected events.
--
-- Parameters stand for code that is not in the repository: SHA-256, the text of a JSON value and of a
-- time that are hashed, the coding of a task, strconv.FormatFloat and ParseFloat, regexp.Compile,
-- strconv.Quote, strings.ToLower with TrimSpace, the comparison of floats, a POST of a webhook and the
-- plugins. The text of an error is a parameter of the worker. A lemma that needs something of them
-- names it as a hypothesis.
--
-- Not modelled: the HTTP and gRPC handlers, the drivers of MongoDB and Redis with its streams, the
-- lag metric of the workers, the signature and the body of a webhook,
-- the lengths of timers, the BSON form of a rule, configuration and metrics.
pub mod Prelude
pub mod Json
pub mod Diff
pub mod Domain
pub mod Plugin
pub mod Service
pub mod Rules
pub mod Delivery
pub mod Read
pub mod Append
pub mod HashChain
pub mod Queue
pub mod Worker
pub mod Tenant
pub mod Intake
pub mod Batch
pub mod Storage
