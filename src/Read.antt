-- ===== src/Read.antt =====
-- Reading the history back: the queries of internal/storage/mongo/event_repo.go, their pages, and
-- the point-in-time reads of internal/service/read.go.
pub mod Query
pub mod Sorting
pub mod Paging
pub mod StateAt
mod Tail
mod Anchored
pub mod PointInTime
mod Examples
