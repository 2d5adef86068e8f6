-- ===== src/RuleEval/Edges.antt =====
-- rule_eval.rs: the sorted rows that every evaluator reads, and the path a glob is matched against.
-- The glob crate is a parameter.
use open_invar.Prelude.{
  ℕ, ◌≡◌, Bool, true, false, Option, none, some, List, Text, bytes, arith, Ord, ord_by, pair_ord,
  list_ord, nat_ord, bool_ord, get, filter_map, sort,
}
use open_invar.Ir.{
  SymbolId, RelationshipKind, imports, calls, extends, implements, uses_type, accesses_property,
  re_exports, instantiates, tests, is_gate_safe,
}
use open_invar.Petgraph.{EdgeReference}
use open_invar.Graph.{Backend, InvarGraph, RelationshipMeta}
use open_invar.SymbolId.{parse_external_package_id}

-- `glob::Pattern::new` and `Pattern::matches`; `empty` is the pattern of the empty text, which the
-- crate always compiles.
pub record Glob : Type 1 where
  pub Pattern : Type 0
  pub compile? : Text → Option Pattern
  pub empty : Pattern
  pub matches : Pattern → Text → Bool

unfoldable pub compile : (G : Glob) → Text → G.Pattern
compile G pattern = elim (G.compile? pattern) [
  | some p ↦ p
  | none ↦ elim (G.compile? (bytes "[")) [ some p ↦ p | none ↦ G.empty ]
]

unfoldable pub scope_path : (P : Backend) → InvarGraph P → SymbolId → Option Text
scope_path P g id = elim (get g.symbols id) [
  | some symbol ↦ some symbol.file
  | none ↦ parse_external_package_id id
]

-- crates/openinvar-core/src/query.rs
unfoldable pub kind_name : RelationshipKind → Text
kind_name imports = bytes "imports"
kind_name calls = bytes "calls"
kind_name extends = bytes "extends"
kind_name implements = bytes "implements"
kind_name uses_type = bytes "uses-type"
kind_name accesses_property = bytes "accesses-property"
kind_name re_exports = bytes "re-exports"
kind_name instantiates = bytes "instantiates"
kind_name tests = bytes "tests"

unfoldable pub is_dependency : RelationshipKind → Bool
is_dependency imports = true
is_dependency re_exports = true
is_dependency _ = false

pub record Edge : Type 0 where
  pub from : Text
  pub to : Text
  pub file : Text
  pub line : ℕ
  pub kind_name : Text
  pub is_dependency : Bool
  pub gate_safe : Bool

abbrev pub EdgeKey : Type 0
EdgeKey = Text × (Text × (Text × (ℕ × (Text × (Bool × Bool)))))

abbrev pub edge_key : Edge → EdgeKey
edge_key e = (e.from, (e.to, (e.file, (e.line, (e.kind_name, (e.is_dependency, e.gate_safe))))))

pub edge_key_inj : (a b : Edge) → edge_key a ≡ edge_key b → a ≡ b
edge_key_inj a b h = ground arith

instance abbrev pub edge_ord : Ord Edge
edge_ord = ord_by pair_ord edge_key edge_key_inj

-- One edge of the graph as a row; an edge with an endpoint that is no node has none.
unfoldable pub edge_row :
    (P : Backend) → InvarGraph P → EdgeReference RelationshipMeta → Option Edge
edge_row P g edge = elim (P.node_weight g.graph edge.source) [
  | none ↦ none
  | some from ↦ elim (P.node_weight g.graph edge.target) [
    | none ↦ none
    | some to ↦ some record {
      from = from;
      to = to;
      file = edge.weight.file;
      line = edge.weight.line;
      kind_name = kind_name edge.weight.kind;
      is_dependency = is_dependency edge.weight.kind;
      gate_safe = is_gate_safe edge.weight.resolution;
    }
  ]
]

abbrev pub edge_rows : (P : Backend) → InvarGraph P → List Edge
edge_rows P g = filter_map (edge_row P g) (P.edge_references g.graph)

unfoldable pub edges : (P : Backend) → InvarGraph P → List Edge
edges P g = sort (edge_rows P g)
