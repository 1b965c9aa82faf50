-- ===== src/Worker.antt =====
-- The worker of the durable queue: internal/worker/worker.go.
pub mod Process
mod Redelivery
pub mod Settled
pub mod Loop
mod Batcher
mod Examples
