-- ===== src/Append.antt =====
-- Appending to the event store with several writers at once
-- (internal/storage/mongo/event_repo.go: AppendEvent).
pub mod Writers
pub mod Versions
pub mod Progress
mod Alone
mod Examples
