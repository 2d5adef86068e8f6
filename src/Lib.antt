-- ===== src/Lib.antt =====
-- OpenInvar (crates/openinvar-core): a graph of the symbols of a repository, and the rules that a
-- team declares about it.
--
-- The front ends (crates/openinvar-lang) turn each file into a `FileIR` of symbols and
-- relationships. graph.rs keeps them in a petgraph with indexes by id, name and file;
-- incremental.rs replaces what one file contributed; index.rs finds a symbol by name. query.rs
-- walks outward from a symbol, and coverage.rs counts how much was resolved. delta.rs compares two
-- graphs; findings.rs, test_impact.rs and audit/mod.rs draw on the delta: what broke, which tests
-- cover the change, and what detectors raise about it. rules.rs reads the rules and rule_eval.rs
-- judges each of them on the graph and, for some, on the delta between two graphs.
--
-- Ir.antt models ir.rs; SymbolId.antt symbol_id.rs; Graph.antt graph.rs and the alias data of
-- resolver.rs; Resolver.antt the rest of resolver.rs; Index.antt index.rs and error.rs;
-- Incremental.antt incremental.rs; Query.antt and its modules query.rs: Mask the sets of kinds,
-- Rows the rows of an answer, Traverse the walk and the searches from a symbol, Usages and Impact
-- the two other queries; Coverage.antt coverage.rs; Delta.antt the data of delta.rs,
-- Delta/Edges.antt the edges that only moved, Delta/Pairing.antt whether two symbols are the same,
-- Delta/Compute.antt the comparison; Findings.antt findings.rs; TestImpact.antt test_impact.rs;
-- Audit.antt audit/mod.rs, with the ids in Audit/Ids.antt and the suppressions in
-- Audit/Suppress.antt; Audit/Detectors.antt and Audit/Callers.antt audit/detectors.rs; Rules.antt
-- the data of rules.rs with what needs a delta, Rules/Raw.antt and Rules/Build.antt the checks on
-- a rules file; RuleEval.antt and its modules rule_eval.rs: Edges the sorted rows of the graph's
-- edges, Sweep the loop that collects violations and unresolved edges, Forbid the rules on pairs
-- of scopes, Absence the rules on what is missing, Fan, Fields and Cycles the remaining ones,
-- Evaluate the verdict on a rule and on a whole file of rules. Functions keep their names; the
-- body of a loop is a function of its own beside the function that runs it (`forbid_judge` of
-- `forbid_edges`, `orphan_turn` of `no_orphans`).
--
-- A `DashMap` is an association list without order that `insert` updates in place, a `BTreeMap` or
-- `BTreeSet` an ordered list (Prelude/Assoc.antt); a string is the list of its bytes
-- (Prelude/Bytes.antt), so `<` on strings is the order of lists. Line numbers and counts are
-- numbers without bound: the code only copies, compares and adds them. A panic of string slicing
-- is a result (`panics`).
--
-- Parameters: petgraph is an interface of operations (Petgraph.antt), with what it documents of
-- removal as a record of laws where a theorem needs it; the glob crate is an interface (`Glob`),
-- with a function for its error messages; `tarjan_scc`, `toml::from_str` and
-- `char::is_alphanumeric` are functions. The functions on strings that the standard library has
-- (`trim`, `split_whitespace`, `replace`, `lines`, `chars`) are written out on UTF-8
-- (Prelude/Space.antt). Examples.antt fills them and evaluates the definitions at concrete inputs.
-- Two loops run on fuel: the walk of `cycle_path`, where each turn marks one more member, so that
-- the number of members is enough (RuleEval/Cycles/Walk.antt), and the walk of `traverse`, where
-- each node enters the queue once, so that one turn more than there are nodes is enough
-- (Query/Traverse/Ends.antt).
--
-- Not modelled: finding and reading the rules file and the legacy file of suppressions, the
-- percentage of a coverage (floating point, for display) and the context pack; the language front
-- ends, the store, the server and the command line, which walk syntax trees, talk to SQLite or
-- print.
pub mod Audit
pub mod Coverage
pub mod Delta
pub mod Examples
pub mod Findings
pub mod Graph
pub mod Incremental
pub mod Index
pub mod Ir
pub mod Petgraph
pub mod Prelude
pub mod Query
pub mod Resolver
pub mod RuleEval
pub mod Rules
pub mod SymbolId
pub mod TestImpact
