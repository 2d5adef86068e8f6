-- ===== src/Delta/Edges.antt =====
-- crates/openinvar-core/src/delta.rs: the edges of a graph, and those that only moved to another line.
pub mod Groups
pub mod Cancelled
use open_invar.Prelude.{
  ℕ, min, Option, none, some, List, [], ◌∷◌, ◌++◌, length, drop, foldl, Map, Text, get, tree_insert,
  values, set_insert, sort, unwrap_or, Ord, nat_ord, list_ord, pair_ord,
}
use open_invar.Ir.{RelationshipKind, Resolution, relationship_kind_ord, resolution_ord}
use open_invar.Graph.{Backend, InvarGraph}
use open_invar.Delta.{EdgeRef, edge_ref_ord}

module _ (P : Backend) (g : InvarGraph P) where
  -- The body of the loop: an edge without ends or without their ids is passed over.
  unfoldable pub with_edge : List EdgeRef → ℕ → List EdgeRef
  with_edge out index = elim (P.edge_endpoints g.graph index) [
    | none ↦ out
    | some ends ↦ elim (P.node_weight g.graph ends.0) [
      | none ↦ out
      | some from ↦ elim (P.node_weight g.graph ends.1) [
        | none ↦ out
        | some to ↦ elim (P.edge_weight g.graph index) [
          | none ↦ out
          | some meta ↦
              set_insert
                (record {
                  from = from;
                  to = to;
                  kind = meta.kind;
                  file = meta.file;
                  line = meta.line;
                  resolution = meta.resolution;
                })
                out
        ]
      ]
    ]
  ]

  unfoldable pub edges : List EdgeRef
  unfolding with_edge
  edges = foldl with_edge [] (P.edge_indices g.graph)

abbrev pub EdgeIdentity : Type 0
EdgeIdentity = Text × (Text × (RelationshipKind × (Text × Resolution)))

abbrev pub edge_identity : EdgeRef → EdgeIdentity
edge_identity e = (e.from, (e.to, (e.kind, (e.file, e.resolution))))

-- The helpers of `cancel_moved_edges`, for elements with a key.
module _ {K E : Type 0} ⦃o : Ord K⦄ where
  unfoldable pub group : (E → K) → Map K (List E) → List E → Map K (List E)
  group key m [] = m
  group key m (e ∷ es) =
      group key (tree_insert m (key e) (unwrap_or (get m (key e)) [] ++ e ∷ [])) es

  -- The loop over the groups of added edges, which takes as many edges from both sides as the smaller has.
  unfoldable pub cancel_groups : Map K (List E) → Map K (List E) → Map K (List E) × Map K (List E)
  cancel_groups removed [] = (removed, [])
  cancel_groups removed ((identity, added_group) ∷ rest) = elim (get removed identity) [
    | none ↦
        let (removed', rest') = cancel_groups removed rest in
        (removed', (identity, added_group) ∷ rest')
    | some removed_group ↦
        let cancelled = min (length added_group) (length removed_group) in
        let (removed', rest') =
          cancel_groups (tree_insert removed identity (drop cancelled removed_group)) rest in
        (removed', (identity, drop cancelled added_group) ∷ rest')
  ]

abbrev pub flatten : {E : Type 0} → List (List E) → List E
flatten [] = []
flatten (es ∷ ess) = es ++ flatten ess

-- The edges that stay removed, and those that stay added.
unfoldable pub cancel_moved_edges : List EdgeRef → List EdgeRef → List EdgeRef × List EdgeRef
unfolding group cancel_groups
cancel_moved_edges removed added =
    let (removed_groups, added_groups) =
      cancel_groups (group edge_identity [] removed) (group edge_identity [] added) in
    (sort (flatten (values removed_groups)), sort (flatten (values added_groups)))
