-- ===== src/Storage.antt =====
-- internal/storage/mongo: the names of the physical collections.
pub mod Names
mod Examples
