-- ===== src/Diff.antt =====
-- internal/diff: structural diffs over JSON values, their application, and the JSON Patch export.
-- `Model` has the data types; `Path` the dot-notation; `Compute` is diff.go, `Apply` apply.go.
pub mod Model
pub mod Text
pub mod Path
pub mod Compute
pub mod Apply
pub mod Context
pub mod Plain
pub mod Roundtrip
mod Examples
