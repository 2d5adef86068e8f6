-- ===== src/Coverage.antt =====
-- crates/openinvar-core/src/coverage.rs: how many edges were resolved, over the graph and by file.
pub mod Sums
use open_invar.Prelude.{
  ℕ, ◌+◌, List, [], ◌∷◌, foldl, Map, Text, get, tree_insert, unwrap_or, nat_ord, list_ord,
}
use open_invar.Ir.{Resolution, resolved, structural}
use open_invar.Graph.{Backend, InvarGraph, RelationshipMeta}

pub record Coverage : Type 0 where
  pub resolved : ℕ
  pub structural : ℕ

abbrev pub no_edges : Coverage
no_edges = record { resolved = 0; structural = 0 }

unfoldable pub total : Coverage → ℕ
total c = c.resolved + c.structural

-- `record`
unfoldable pub record_edge : Coverage → Resolution → Coverage
record_edge c resolved = record c { resolved = c.resolved + 1 }
record_edge c structural = record c { structural = c.structural + 1 }

-- `out.entry(file).or_default().record(&edge.resolution)`, for each edge.
unfoldable pub by_file_of : Map Text Coverage → List RelationshipMeta → Map Text Coverage
unfolding record_edge
by_file_of m [] = m
by_file_of m (e ∷ es) =
    by_file_of (tree_insert m e.file (record_edge (unwrap_or (get m e.file) no_edges) e.resolution))
      es

module _ (P : Backend) (g : InvarGraph P) where
  unfoldable pub overall : Coverage
  unfolding record_edge
  overall =
      foldl (λ c (e : RelationshipMeta). record_edge c e.resolution) no_edges
        (P.edge_weights g.graph)

  unfoldable pub by_file : Map Text Coverage
  unfolding by_file_of
  by_file = by_file_of [] (P.edge_weights g.graph)
