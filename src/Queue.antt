-- ===== src/Queue.antt =====
-- The queue of accepted writes: internal/queue/queue.go and internal/queue/memory/memory.go.
pub mod Shard
pub mod Memory
mod Order
mod Examples
