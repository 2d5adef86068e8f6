-- ===== src/Query/Traverse/Walks.antt =====
-- crates/openinvar-core/src/query.rs: the rows of `traverse`, against walks in the graph.
use open_invar.Prelude.{
  ℕ, zero, suc, ◌+◌, ◌<◌, ◌≡◌, refl, sym, subst, inl, inr, true, Option, some, List, [], ◌∷◌, ◌++◌,
  Text, All, In, All-map, All-append, All-sort_by, contains, set_insert, arith, Bool-cases,
  Option-cases, List-cases, leb, bytes, get, nat_ord, list_ord, option_ord, pair_ord,
}
use open_invar.Ir.{SymbolId, Resolution}
use open_invar.Petgraph.{EdgeReference, Direction}
use open_invar.Graph.{Backend, InvarGraph, RelationshipMeta}
use open_invar.Index.{ok}
use open_invar.Index.Yields.{Yields, Yields->>=, Yields-ok}
use open_invar.Query.Mask.{RelationshipKindMask}
use open_invar.Query.Rows.{QueryEdge, first_of_each, dedupe_edges, row_cmp, row_key}
use open_invar.Query.Traverse.{
  Bfs, neighbor, enqueue, id_of, permitted, visit_edge, visit_edges, visit, walk, start, row,
  traverse,
}

All-first_of_each {κ} :
    (Q : QueryEdge → Type κ) (seen : List (Text × (Text × (ℕ × (Option Text × Text)))))
    (es : List QueryEdge)
    → All Q es
    → All Q (first_of_each seen es)
unfolding first_of_each
All-first_of_each Q seen [] h = tt
All-first_of_each Q seen (e ∷ es) h = elim (Bool-cases (contains seen (row_key e))) [
  | inl again ↦ rw (first_of_each, again) (All-first_of_each Q (set_insert (row_key e) seen) es h.1)
  | inr new ↦
      rw (first_of_each, new) (h.0, All-first_of_each Q (set_insert (row_key e) seen) es h.1)
]

All-dedupe_edges {κ} :
    (Q : QueryEdge → Type κ) (es : List QueryEdge) → All Q es → All Q (dedupe_edges es)
unfolding dedupe_edges
All-dedupe_edges Q es h = All-first_of_each Q [] _ ((All-sort_by Q row_cmp es).1 h)

All-In : {A : Type 0} (xs : List A) → All (λ x. In x xs) xs
All-In [] = tt
All-In (x ∷ xs) =
    (inl refl, All-map (λ y. In y xs) (λ y. In y (x ∷ xs)) xs (λ y m. inr m) (All-In xs))

module _ (P : Backend) (g : InvarGraph P) (direction : Direction) (kinds : RelationshipKindMask)
    (min_resolution : Resolution) where
  -- A node that is some number of permitted edges away from the root.
  pub data Walk (root : ℕ) : ℕ → ℕ → Type 0 where
    here : Walk root root 0
    step :
        {node depth : ℕ} (e : EdgeReference RelationshipMeta)
        → Walk root node depth
        → In e (P.edges_directed g.graph node direction)
        → permitted P g direction kinds min_resolution e ≡ true
        → Walk root (neighbor direction e) (depth + 1)

  -- A row reports a permitted edge at a node that is fewer steps from the root than the bound, and its hop
  -- is one more than the number of steps.
  pub record IsSound (root max_depth : ℕ) (r : QueryEdge) : Type 0 where
    pub node : ℕ
    pub depth : ℕ
    pub edge : EdgeReference RelationshipMeta
    pub reached : Walk root node depth
    pub within : depth < max_depth
    pub at_node : In edge (P.edges_directed g.graph node direction)
    pub allowed : permitted P g direction kinds min_resolution edge ≡ true
    pub source_id : P.node_weight g.graph edge.source ≡ some r.from
    pub target_id : P.node_weight g.graph edge.target ≡ some r.to
    pub same : r ≡ row r.from r.to edge.weight (depth + 1)

  record IsFair (root max_depth : ℕ) (s : Bfs) : Type 0 where
    entries : All (λ (entry : ℕ × ℕ). Walk root entry.0 entry.1) s.queue
    rows : All (IsSound root max_depth) s.results

  enqueue-IsFair :
      (root max_depth : ℕ) (s : Bfs) (node depth : ℕ)
      → Walk root node depth
      → IsFair root max_depth s
      → IsFair root max_depth (enqueue P g direction kinds min_resolution s node depth)
  unfolding enqueue
  enqueue-IsFair root max_depth s node depth walked fair =
      elim (Bool-cases (contains s.visited node)) [
        | inl seen ↦ rw (enqueue, seen) fair
        | inr new ↦
            rw (enqueue, new)
              (record {
                entries =
                    All-append (λ (entry : ℕ × ℕ). Walk root entry.0 entry.1) s.queue
                      ((node, depth) ∷ []) fair.entries (walked, tt);
                rows = fair.rows;
              })
      ]

  pub id_of_lem :
      (node : ℕ) (missing : Text)
      → Yields
          (λ id. P.node_weight g.graph node ≡ some id)
          (id_of P g direction kinds min_resolution node missing)
  unfolding id_of
  id_of_lem node missing = elim (Option-cases (P.node_weight g.graph node)) [
    | inl none_there ↦ rw (id_of, none_there) tt
    | inr (id, there) ↦ rw (id_of, there) refl
  ]

  module _ (root max_depth node depth : ℕ) (reached : Walk root node depth)
      (within : depth < max_depth) where
    visit_edge-IsFair :
        (s : Bfs) (e : EdgeReference RelationshipMeta)
        → In e (P.edges_directed g.graph node direction)
        → IsFair root max_depth s
        → Yields (IsFair root max_depth) (visit_edge P g direction kinds min_resolution depth s e)
    unfolding visit_edge
    visit_edge-IsFair s e m fair =
        elim (Bool-cases (permitted P g direction kinds min_resolution e)) [
          | inr other ↦ rw (visit_edge, other) fair
          | inl fits ↦
              rw (visit_edge, fits)
                (Yields->>= _ _ _ _ (id_of_lem e.source (bytes "Missing source node"))
                  (λ from source.
                    Yields->>= _ _ _ _ (id_of_lem e.target (bytes "Missing target node"))
                      (λ to target.
                        enqueue-IsFair root max_depth
                          (record s {
                            results = s.results ++ row from to e.weight (depth + 1) ∷ [];
                          })
                          (neighbor direction e) (depth + 1) (step e reached m fits)
                          (record {
                            entries = fair.entries;
                            rows =
                                All-append (IsSound root max_depth) s.results
                                  (row from to e.weight (depth + 1) ∷ []) fair.rows
                                  (
                                    record {
                                      node = node;
                                      depth = depth;
                                      edge = e;
                                      reached = reached;
                                      within = within;
                                      at_node = m;
                                      allowed = fits;
                                      source_id = source;
                                      target_id = target;
                                      same = refl;
                                    },
                                    tt,
                                  );
                          }))))
        ]

    visit_edges-IsFair :
        (s : Bfs) (es : List (EdgeReference RelationshipMeta))
        → All (λ e. In e (P.edges_directed g.graph node direction)) es
        → IsFair root max_depth s
        → Yields (IsFair root max_depth) (visit_edges P g direction kinds min_resolution depth s es)
    unfolding visit_edges
    visit_edges-IsFair s [] m fair = fair
    visit_edges-IsFair s (e ∷ es) m fair =
        Yields->>= (IsFair root max_depth) (IsFair root max_depth)
          (visit_edge P g direction kinds min_resolution depth s e)
          (λ s'. visit_edges P g direction kinds min_resolution depth s' es)
          (visit_edge-IsFair s e m.0 fair) (λ s' fair'. visit_edges-IsFair s' es m.1 fair')

  visit-IsFair :
      (root max_depth : ℕ) (s : Bfs) (node depth : ℕ)
      → Walk root node depth
      → IsFair root max_depth s
      → Yields
          (IsFair root max_depth)
          (visit P g direction kinds min_resolution max_depth s node depth)
  unfolding visit
  visit-IsFair root max_depth s node depth reached fair = elim (Bool-cases (leb max_depth depth)) [
    | inl deep ↦ rw (visit, deep) fair
    | inr within ↦
        rw (visit, within)
          (visit_edges-IsFair root max_depth node depth reached (ground (arith, within)) s
            (P.edges_directed g.graph node direction)
            (All-In (P.edges_directed g.graph node direction)) fair)
  ]

  walk-IsFair_empty :
      (root fuel max_depth : ℕ) (s : Bfs)
      → s.queue ≡ []
      → IsFair root max_depth s
      → Yields
          (IsFair root max_depth)
          (walk P g direction kinds min_resolution (suc fuel) max_depth s)
  walk-IsFair_empty root fuel max_depth s empty fair =
      let stopped : walk P g direction kinds min_resolution (suc fuel) max_depth s ≡ ok s =
        unfold walk in ground (arith, empty) in
      subst (Yields (IsFair root max_depth)) (sym stopped) fair

  walk-IsFair :
      (root fuel max_depth : ℕ) (s : Bfs)
      → IsFair root max_depth s
      → Yields (IsFair root max_depth) (walk P g direction kinds min_resolution fuel max_depth s)
  unfolding walk
  walk-IsFair root zero max_depth s fair = fair
  walk-IsFair root (suc fuel) max_depth s fair = elim (List-cases s.queue) [
    | inl empty ↦ walk-IsFair_empty root fuel max_depth s empty fair
    | inr ((node, depth), queue, there) ↦
        let entries : All (λ (entry : ℕ × ℕ). Walk root entry.0 entry.1) ((node, depth) ∷ queue) =
          subst (All (λ (entry : ℕ × ℕ). Walk root entry.0 entry.1)) there fair.entries in
        let rest : IsFair root max_depth (record s { queue = queue }) = record {
          entries = entries.1;
          rows = fair.rows;
        } in
        rw (walk, there)
          (Yields->>= (IsFair root max_depth) (IsFair root max_depth)
            (visit P g direction kinds min_resolution max_depth (record s { queue = queue }) node
              depth)
            (walk P g direction kinds min_resolution fuel max_depth)
            (visit-IsFair root max_depth (record s { queue = queue }) node depth entries.0 rest)
            (λ s' fair'. walk-IsFair root fuel max_depth s' fair'))
  ]

  pub traverse-Yields :
      (root : SymbolId) (root_node max_depth : ℕ)
      → get g.node_index root ≡ some root_node
      → Yields
          (All (IsSound root_node max_depth))
          (traverse P g direction kinds min_resolution root max_depth)
  unfolding traverse
  traverse-Yields root root_node max_depth there =
      let begun = start P g direction kinds min_resolution root_node in
      let fair : IsFair root_node max_depth begun = record { entries = (here, tt); rows = tt } in
      let fuel = suc (P.node_count g.graph) in
      let walked = walk P g direction kinds min_resolution fuel max_depth begun in
      rw (traverse, there)
        (Yields->>= (IsFair root_node max_depth) (All (IsSound root_node max_depth)) walked
          (λ s. ok (dedupe_edges s.results)) (walk-IsFair root_node fuel max_depth begun fair)
          (λ s f. All-dedupe_edges (IsSound root_node max_depth) s.results f.rows))

  -- What `traverse` answers for a root with a node: only rows that report a permitted edge at a node fewer
  -- steps away than the bound, each with the number of the step as its hop.
  pub traverse-IsSound :
      (root : SymbolId) (root_node max_depth : ℕ) (rows : List QueryEdge)
      → get g.node_index root ≡ some root_node
      → traverse P g direction kinds min_resolution root max_depth ≡ ok rows
      → All (IsSound root_node max_depth) rows
  traverse-IsSound root root_node max_depth rows there h =
      Yields-ok (All (IsSound root_node max_depth)) _ rows
        (traverse-Yields root root_node max_depth there) h
