-- ===== src/Delivery.antt =====
-- internal/delivery: the delivery of fired webhooks, its retries and its backoff.
pub mod Backoff
pub mod Task
pub mod Dispatch
pub mod Schedule
pub mod Settle
pub mod Loop
mod Examples
