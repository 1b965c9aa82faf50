-- ===== src/HashChain.antt =====
-- The hash chain of an entity's events: internal/plugin/hashchain/hashchain.go.
pub mod Link
mod Text
mod Verify
mod Tamper
mod Sealed
mod Writes
mod Examples
