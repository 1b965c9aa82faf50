-- ===== src/Rules.antt =====
-- internal/rules: the condition tree of a rule, its compiler, the evaluator and the validation.
pub mod Model
pub mod Compile
pub mod Eval
pub mod Validate
pub mod Meaning
mod Kinds
mod Leaves
pub mod Refinement
pub mod Runnable
pub mod Engine
pub mod Admin
mod Sample
mod Examples
