-- ===== src/Batch.antt =====
-- internal/service/batch.go: IngestBatch and batchCollection, with AppendEvents of
-- internal/storage/mongo/event_repo.go.
pub mod Fold
pub mod Flush
mod Order
mod Insert
mod Agrees
mod Tails
mod Refresh
mod OneByOne
mod Step
mod Single
mod Collections
mod Examples
