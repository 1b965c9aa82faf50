-- ===== src/Intake.antt =====
-- The acceptance of writes in the modes strict, durable and fast: internal/service/pipeline.go,
-- batch_ingest.go and envelope.go.
pub mod Reserve
pub mod Accept
mod Kept
mod Once
mod Errors
mod Settled
pub mod Batch
mod Verdicts
mod Counts
mod Examples
