-- ===== src/Query/Traverse/Ends.antt =====
-- crates/openinvar-core/src/query.rs: the walk of `traverse` comes to an end.
use open_invar.Prelude.{
  ℕ, zero, suc, ◌+◌, ◌≤◌, ◌<◌, ◌≡◌, refl, inl, inr, List, [], ◌∷◌, ◌++◌, Text, length,
  length-append, below, In-below, length-below, unseen, unseen_lt, unseen-length, contains, arith,
  Bool-cases, List-cases, Option-cases, leb, bytes, nat_ord,
}
use open_invar.Ir.{Resolution}
use open_invar.Petgraph.{EdgeReference, Direction, incoming, outgoing, IsCompact}
use open_invar.Graph.{Backend, InvarGraph, RelationshipMeta}
use open_invar.Index.{Result, ok}
use open_invar.Index.Yields.{Yields, Yields->>=, Yields-weaken, >>=-same}
use open_invar.Query.Mask.{RelationshipKindMask}
use open_invar.Query.Traverse.{
  Bfs, neighbor, enqueue, id_of, permitted, visit_edge, visit_edges, visit, walk, start, row,
}

module _ (P : Backend) (compact : IsCompact P) (g : InvarGraph P) (direction : Direction)
    (kinds : RelationshipKindMask) (min_resolution : Resolution) where
  open compact use {node_weight_below}

  -- The nodes not visited yet, and the entries of the queue.
  abbrev measure : Bfs → ℕ
  measure s = unseen s.visited (below (P.node_count g.graph)) + length s.queue

  enqueue_le :
      (s : Bfs) (node depth : ℕ)
      → node < P.node_count g.graph
      → measure (enqueue P g direction kinds min_resolution s node depth) ≤ measure s
  unfolding enqueue
  enqueue_le s node depth small = elim (Bool-cases (contains s.visited node)) [
    | inl seen ↦ rw (enqueue, seen) (omega arith)
    | inr new ↦
        rw (enqueue, new)
          (omega (
            arith,
            length-append s.queue ((node, depth) ∷ []),
            unseen_lt s.visited node (below (P.node_count g.graph)) new
                (In-below node (P.node_count g.graph) small),
          ))
  ]

  id_of_below :
      (node : ℕ) (missing : Text)
      → Yields
          (λ _. node < P.node_count g.graph)
          (id_of P g direction kinds min_resolution node missing)
  unfolding id_of
  id_of_below node missing = elim (Option-cases (P.node_weight g.graph node)) [
    | inl none_there ↦ rw (id_of, none_there) tt
    | inr (id, there) ↦ rw (id_of, there) (node_weight_below g.graph node id there)
  ]

  neighbor_below :
      (d : Direction) (e : EdgeReference RelationshipMeta)
      → e.source < P.node_count g.graph
      → e.target < P.node_count g.graph
      → neighbor d e < P.node_count g.graph
  unfolding neighbor
  neighbor_below incoming e s t = s
  neighbor_below outgoing e s t = t

  visit_edge_le :
      (depth : ℕ) (s : Bfs) (e : EdgeReference RelationshipMeta)
      → Yields
          (λ s'. measure s' ≤ measure s)
          (visit_edge P g direction kinds min_resolution depth s e)
  unfolding visit_edge
  visit_edge_le depth s e = elim (Bool-cases (permitted P g direction kinds min_resolution e)) [
    | inr other ↦ rw (visit_edge, other) (omega arith)
    | inl fits ↦
        rw (visit_edge, fits)
          (Yields->>= _ _ _ _ (id_of_below e.source (bytes "Missing source node")) (λ from source.
            Yields->>= _ _ _ _ (id_of_below e.target (bytes "Missing target node")) (λ to target.
              enqueue_le (record s { results = s.results ++ row from to e.weight (depth + 1) ∷ [] })
                (neighbor direction e) (depth + 1) (neighbor_below direction e source target))))
  ]

  visit_edges_le :
      (depth : ℕ) (s : Bfs) (es : List (EdgeReference RelationshipMeta))
      → Yields
          (λ s'. measure s' ≤ measure s)
          (visit_edges P g direction kinds min_resolution depth s es)
  unfolding visit_edges
  visit_edges_le depth s [] = omega arith
  visit_edges_le depth s (e ∷ es) =
      Yields->>= (λ s'. measure s' ≤ measure s) (λ s'. measure s' ≤ measure s)
        (visit_edge P g direction kinds min_resolution depth s e)
        (λ s'. visit_edges P g direction kinds min_resolution depth s' es) (visit_edge_le depth s e)
        (λ s' less.
          Yields-weaken (λ s''. measure s'' ≤ measure s') (λ s''. measure s'' ≤ measure s)
            (visit_edges P g direction kinds min_resolution depth s' es)
            (visit_edges_le depth s' es)
            (λ s'' still. let both : measure s'' ≤ measure s = omega (arith, less, still) in both))

  visit_le :
      (max_depth : ℕ) (s : Bfs) (node depth : ℕ)
      → Yields
          (λ s'. measure s' ≤ measure s)
          (visit P g direction kinds min_resolution max_depth s node depth)
  unfolding visit
  visit_le max_depth s node depth = elim (Bool-cases (leb max_depth depth)) [
    | inl deep ↦ rw (visit, deep) (omega arith)
    | inr within ↦
        rw (visit, within) (visit_edges_le depth s (P.edges_directed g.graph node direction))
  ]

  -- A turn takes one entry from the queue.
  turn_lt :
      (max_depth : ℕ) (s : Bfs) (node depth : ℕ) (queue : List (ℕ × ℕ))
      → s.queue ≡ (node, depth) ∷ queue
      → Yields
          (λ s'. measure s' < measure s)
          (visit P g direction kinds min_resolution max_depth
            (record s { queue = queue })
            node
            depth)
  turn_lt max_depth s node depth queue there =
      Yields-weaken (λ s'. measure s' ≤ measure (record s { queue = queue }))
        (λ s'. measure s' < measure s)
        (visit P g direction kinds min_resolution max_depth (record s { queue = queue }) node depth)
        (visit_le max_depth (record s { queue = queue }) node depth)
        (λ s' le. let fewer : measure s' < measure s = ground (arith, le, there) in fewer)

  abbrev walked : ℕ → ℕ → Bfs → Result Bfs
  walked = walk P g direction kinds min_resolution

  walk_empty : (fuel max_depth : ℕ) (s : Bfs) → s.queue ≡ [] → walked fuel max_depth s ≡ ok s
  unfolding walk
  walk_empty zero max_depth s empty = refl
  walk_empty (suc fuel) max_depth s empty = ground (arith, empty)

  -- With as many turns as the measure the queue runs empty, and further turns change nothing.
  walk_ends :
      (fuel more max_depth : ℕ) (s : Bfs)
      → measure s ≤ fuel
      → fuel ≤ more
      → (walked more max_depth s ≡ walked fuel max_depth s)
        × Yields (λ s'. s'.queue ≡ []) (walked fuel max_depth s)
  unfolding walk
  walk_ends zero more max_depth s few le = elim (List-cases s.queue) [
    | inl empty ↦ (walk_empty more max_depth s empty, empty)
    | inr (entry, queue, there) ↦ absurd (ground (arith, few, there))
  ]
  walk_ends (suc fuel) zero max_depth s few le = absurd (omega arith)
  walk_ends (suc fuel) (suc more) max_depth s few le = elim (List-cases s.queue) [
    | inl empty ↦
        rw (walk_empty (suc more) max_depth s empty, walk_empty (suc fuel) max_depth s empty)
          (refl, empty)
    | inr ((node, depth), queue, there) ↦
        rw (walk, there)
          (>>=-same (λ s'. measure s' < measure s) (λ s'. s'.queue ≡ [])
            (visit P g direction kinds min_resolution max_depth (record s { queue = queue }) node
              depth)
            (walked more max_depth) (walked fuel max_depth)
            (turn_lt max_depth s node depth queue there)
            (λ s' fewer.
              walk_ends fuel more max_depth s' (omega (arith, few, fewer)) (omega (arith, le))))
  ]

  -- The walk of `traverse` takes at most one turn more than the graph has nodes: after these its queue is
  -- empty, unless it met an error, and more turns give the same.
  pub traverse_ends :
      (root_node max_depth more : ℕ)
      → suc (P.node_count g.graph) ≤ more
      → (walk P g direction kinds min_resolution more max_depth
            (start P g direction kinds min_resolution root_node)
          ≡ walk P g direction kinds min_resolution
              (suc (P.node_count g.graph))
              max_depth
              (start P g direction kinds min_resolution root_node))
        × Yields
            (λ s. s.queue ≡ [])
            (walk P g direction kinds min_resolution
              (suc (P.node_count g.graph))
              max_depth
              (start P g direction kinds min_resolution root_node))
  traverse_ends root_node max_depth more le =
      let count = P.node_count g.graph in
      let few : measure (start P g direction kinds min_resolution root_node) ≤ suc count =
        omega (arith, unseen-length (root_node ∷ []) (below count), length-below count) in
      walk_ends (suc count) more max_depth (start P g direction kinds min_resolution root_node) few
        le
