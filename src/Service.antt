-- ===== src/Service.antt =====
-- internal/service: the write use-case.
pub mod Command
pub mod Plan
pub mod Replay
pub mod Ingest
pub mod History
pub mod Dedup
pub mod Repeat
pub mod Sample
mod Examples
