-- ===== src/Rules/Engine.antt =====
-- internal/service/rules_engine.go, with the signals of internal/storage/redis/rule_invalidator.go.
mod Effects
mod Cached
mod Messages
mod Firing
mod Asked
mod Signals
mod Fresh
mod Examples
