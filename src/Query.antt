-- ===== src/Query.antt =====
-- crates/openinvar-core/src/query.rs: questions about the graph. (`kind_name` stands in RuleEval/Edges.antt.)
pub mod Mask
pub mod Rows
pub mod Traverse
pub mod Usages
pub mod Impact
