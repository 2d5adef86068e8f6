-- ===== src/Query/Traverse.antt =====
-- crates/openinvar-core/src/query.rs: `traverse`, the walk outward from a symbol, breadth first.
pub mod Ends
pub mod Walks
pub mod Fits
pub mod Levels
pub mod Running
pub mod Complete
use open_invar.Prelude.{
  ℕ, zero, suc, ◌+◌, Bool, true, false, not, ◌&&◌, leb, if◌then◌else◌, Option, none, some, List, [],
  ◌∷◌, ◌++◌, Text, bytes, get, contains, set_insert, unwrap_or, ltb, nat_ord, list_ord,
}
use open_invar.Ir.{SymbolId, Resolution, meets}
use open_invar.Petgraph.{EdgeReference, Direction, incoming, outgoing}
use open_invar.Graph.{Backend, InvarGraph, RelationshipMeta}
use open_invar.Index.{
  InvarError, symbol_not_found, invalid_depth, graph_corrupt, Result, ok, err, find_symbol_id,
  ◌>>=◌,
}
use open_invar.Query.Mask.{RelationshipKindMask}
use open_invar.Query.Mask
use open_invar.Query.Rows.{QueryEdge, dedupe_edges}

-- The node at the other end, in the direction of the walk.
unfoldable pub neighbor : Direction → EdgeReference RelationshipMeta → ℕ
neighbor incoming e = e.source
neighbor outgoing e = e.target

pub record Bfs : Type 0 where
  pub queue : List (ℕ × ℕ)
  pub visited : List ℕ
  pub results : List QueryEdge

abbrev pub row : SymbolId → SymbolId → RelationshipMeta → ℕ → QueryEdge
row from to meta hop = record {
  from = from;
  to = to;
  kind = meta.kind;
  resolution = meta.resolution;
  file = meta.file;
  line = meta.line;
  alias = meta.alias;
  properties_accessed = meta.properties_accessed;
  context = meta.context;
  hop = hop;
}

module _ (P : Backend) (g : InvarGraph P) (direction : Direction) (kinds : RelationshipKindMask)
    (min_resolution : Resolution) where
  -- An edge of another kind, or below the threshold, is neither reported nor walked through.
  unfoldable pub permitted : EdgeReference RelationshipMeta → Bool
  permitted e = Mask.contains kinds e.weight.kind && meets e.weight.resolution min_resolution

  -- `node_weight(node).cloned().ok_or_else(…)?`
  unfoldable pub id_of : ℕ → Text → Result SymbolId
  id_of node missing = elim (P.node_weight g.graph node) [
    | none ↦ err (graph_corrupt missing)
    | some id ↦ ok id
  ]

  -- `if visited.insert(neighbor) { queue.push_back(…) }`
  unfoldable pub enqueue : Bfs → ℕ → ℕ → Bfs
  enqueue s node depth =
      if contains s.visited node
      then s
      else record s { queue = s.queue ++ (node, depth) ∷ []; visited = set_insert node s.visited }

  -- The body of the inner loop.
  unfoldable pub visit_edge : ℕ → Bfs → EdgeReference RelationshipMeta → Result Bfs
  unfolding permitted id_of enqueue neighbor
  visit_edge depth s e =
      if not (permitted e)
      then ok s
      else id_of e.source (bytes "Missing source node") >>= λ from.
          id_of e.target (bytes "Missing target node") >>= λ to. ok (
            enqueue (record s { results = s.results ++ row from to e.weight (depth + 1) ∷ [] })
              (neighbor direction e) (depth + 1))

  unfoldable pub visit_edges : ℕ → Bfs → List (EdgeReference RelationshipMeta) → Result Bfs
  unfolding visit_edge
  visit_edges depth s [] = ok s
  visit_edges depth s (e ∷ es) = visit_edge depth s e >>= λ s'. visit_edges depth s' es

  -- The body of the outer loop, for the entry that was taken from the queue.
  unfoldable pub visit : ℕ → Bfs → ℕ → ℕ → Result Bfs
  unfolding visit_edges
  visit max_depth s node depth =
      if leb max_depth depth
      then ok s
      else visit_edges depth s (P.edges_directed g.graph node direction)

  -- `while let Some((node, depth)) = queue.pop_front()`, for a number of turns.
  unfoldable pub walk : ℕ → ℕ → Bfs → Result Bfs
  unfolding visit
  walk zero max_depth s = ok s
  walk (suc fuel) max_depth s = elim s.queue [
    | [] ↦ ok s
    | entry ∷ queue ↦ visit max_depth (record s { queue = queue }) entry.0 entry.1 >>= λ s'.
        walk fuel max_depth s'
  ]

  abbrev pub start : ℕ → Bfs
  start root_node = record { queue = (root_node, 0) ∷ []; visited = root_node ∷ []; results = [] }

  -- Each node enters the queue once, so one turn more than there are nodes is enough.
  unfoldable pub traverse : SymbolId → ℕ → Result (List QueryEdge)
  unfolding walk
  traverse root max_depth = elim (get g.node_index root) [
    | none ↦ err (symbol_not_found root)
    | some root_node ↦ walk (suc (P.node_count g.graph)) max_depth (start root_node) >>= λ s.
        ok (dedupe_edges s.results)
  ]

abbrev pub default_depth : ℕ
default_depth = 3

abbrev pub greatest_depth : ℕ
greatest_depth = 10

-- `depth.unwrap_or(DEFAULT_DEPTH)`, which must not be above `MAX_DEPTH`.
unfoldable pub effective_depth : Option ℕ → Result ℕ
effective_depth depth =
    let d = unwrap_or depth default_depth in
    if ltb greatest_depth d then err (invalid_depth d greatest_depth) else ok d

module _ (P : Backend) (g : InvarGraph P) where
  unfoldable pub search_from :
      Direction
      → Text
      → Option Text
      → Option ℕ
      → RelationshipKindMask
      → Resolution
      → Result (List QueryEdge)
  unfolding effective_depth traverse
  search_from direction symbol file depth kinds min_resolution = effective_depth depth >>= λ d.
      find_symbol_id P g symbol file >>= λ root. traverse P g direction kinds min_resolution root d

  unfoldable pub blast_radius :
      Text → Option Text → Option ℕ → RelationshipKindMask → Resolution → Result (List QueryEdge)
  unfolding search_from
  blast_radius = search_from incoming

  unfoldable pub dependencies :
      Text → Option Text → Option ℕ → RelationshipKindMask → Resolution → Result (List QueryEdge)
  unfolding search_from
  dependencies = search_from outgoing
