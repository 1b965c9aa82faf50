-- ===== src/Tenant.antt =====
-- Tenants, their keys and what a key may touch: internal/tenant.
pub mod Access
pub mod Resolver
mod Isolation
mod Examples
