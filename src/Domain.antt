-- ===== src/Domain.antt =====
-- internal/domain: the entities and the pure rules on them.
pub mod Event
pub mod Reconstruct
pub mod Collection
pub mod Ulid
pub mod Ticket
mod Examples
