-- ===== src/Examples.antt =====
-- Concrete inputs: a petgraph over lists, a glob that accepts by prefix, small graphs, tests of the
-- definitions, and each theorem at an input that meets its hypotheses.
mod ListGraph
mod Sample
mod RuleTests
mod GraphTests
mod FieldTests
mod CycleTests
mod FileTests
mod LookupTests
mod IdTests
mod QueryTests
mod ImpactTests
mod DeltaTests
mod AuditTests
