-- ===== src/Examples/GraphTests.antt =====
-- The graph at concrete inputs.
use open_invar.Prelude.{◌≡◌, refl, true, none, some, [], ◌∷◌, bytes, get, eqb, arith}
use open_invar.Ir.{Relationship, imports, resolved}
use open_invar.Graph.{add_relationship, remove_relationships_in_file, edge_in_file}
use open_invar.Graph.Leftovers.{remove_relationships_in_file-leaves}
use open_invar.Graph.Packages.{scope_path-add_relationship}
use open_invar.RuleEval.Edges.{scope_path}
use open_invar.Examples.ListGraph.Swap.{list_petgraph_removes}
use open_invar.Examples.Sample.{backend, sample, main_id, cli, two_edges}

-- Both edges of `two_edges` are recorded in `cli/main.rs`; the second is left at index 0.
remove_relationships_in_file-leaves_example :
    let left = (remove_relationships_in_file backend two_edges cli).0.graph in
    (backend.edge_weight left 0 ≡ backend.edge_weight two_edges.graph 1)
    × (edge_in_file backend cli left 0 ≡ true)
unfolding edge_in_file eqb
remove_relationships_in_file-leaves_example =
    remove_relationships_in_file-leaves backend list_petgraph_removes two_edges cli 0 1 (1 ∷ [])
      refl refl (omega arith) refl

abbrev pub to_openssl : Relationship
to_openssl = record {
  from = main_id;
  to = bytes "ext::openssl::package";
  kind = imports;
  alias = none;
  properties_accessed = [];
  context = [];
  file = cli;
  line = 3;
  resolution = resolved;
}

scope_path-add_relationship_example :
    scope_path backend (add_relationship backend sample to_openssl) (bytes "ext::openssl::package")
    ≡ some []
unfolding get eqb
scope_path-add_relationship_example =
    scope_path-add_relationship backend sample to_openssl 0 (bytes "openssl::package") refl refl
      refl
