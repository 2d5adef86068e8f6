-- ===== src/RuleEval.antt =====
-- crates/openinvar-core/src/rule_eval.rs, a module for each evaluator, with its proofs below it.
pub mod Edges
pub mod Sweep
pub mod Forbid
pub mod Absence
pub mod Fan
pub mod Fields
pub mod Cycles
pub mod Evaluate
