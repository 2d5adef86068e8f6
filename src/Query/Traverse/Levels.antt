-- ===== src/Query/Traverse/Levels.antt =====
-- crates/openinvar-core/src/query.rs: the queue of `traverse`, level by level, and what one turn of the loop does.
use open_invar.Prelude.{
  ℕ, ◌+◌, ◌≤◌, ◌<◌, ◌≡◌, refl, sym, inl, inr, ◌⊎◌, ⊎_elim, true, some, List, [], ◌∷◌, ◌++◌, All,
  All-map, All-append, All-at, Any, Any-of_In, Any-member, In, In-append, contains,
  contains-set_insert, leb, Bool-cases, arith, bytes, nat_ord, list_ord, option_ord, pair_ord,
}
use open_invar.Ir.{SymbolId, Resolution}
use open_invar.Petgraph.{EdgeReference, Direction}
use open_invar.Graph.{Backend, InvarGraph, RelationshipMeta}
use open_invar.Index.Yields.{Yields, Yields->>=, Yields-weaken}
use open_invar.Query.Mask.{RelationshipKindMask}
use open_invar.Query.Rows.{QueryEdge}
use open_invar.Query.Traverse.{
  Bfs, neighbor, enqueue, id_of, permitted, visit_edge, visit_edges, visit, row,
}
use open_invar.Query.Traverse.Walks.{id_of_lem}

abbrev pub Entry : Type 0
Entry = ℕ × ℕ

-- No entry stands before one that is less deep.
abbrev pub IsLevelled : List Entry → Type 0
IsLevelled [] = Unit
IsLevelled (e ∷ es) = All (λ (f : Entry). e.1 ≤ f.1) es × IsLevelled es

append-IsLevelled :
    (es : List Entry) (f : Entry)
    → All (λ (e : Entry). e.1 ≤ f.1) es
    → IsLevelled es
    → IsLevelled (es ++ f ∷ [])
append-IsLevelled [] f h k = (tt, tt)
append-IsLevelled (e ∷ es) f h k =
    (All-append _ es (f ∷ []) k.0 (h.0, tt), append-IsLevelled es f h.1 k.1)

module _ (P : Backend) (g : InvarGraph P) (direction : Direction) (kinds : RelationshipKindMask)
    (min_resolution : Resolution) where
  -- A node that was taken up, or waits, at a depth or above it.
  abbrev pub Logged : List Entry → Bfs → ℕ → ℕ → Type 0
  Logged done s n d =
      Any (λ (e : Entry). (e.0 ≡ n) × (e.1 ≤ d)) done
      ⊎ Any (λ (e : Entry). (e.0 ≡ n) × (e.1 ≤ d)) s.queue

  -- The row of an edge.
  abbrev pub Says : EdgeReference RelationshipMeta → ℕ → QueryEdge → Type 0
  Says e depth r =
      (P.node_weight g.graph e.target ≡ some r.to) × (r ≡ row r.from r.to e.weight (depth + 1))

  abbrev pub Served : List Entry → Bfs → ℕ → EdgeReference RelationshipMeta → Type 0
  Served done s depth e =
      Logged done s (neighbor direction e) (depth + 1) × Any (Says e depth) s.results

  abbrev pub AllServed : List Entry → Bfs → ℕ → List (EdgeReference RelationshipMeta) → Type 0
  AllServed done s depth es =
      All (λ e. permitted P g direction kinds min_resolution e ≡ true → Served done s depth e) es

  -- Where the walk stands, when entries of a depth and of the next one wait.
  pub record IsLevel (k : ℕ) (done : List Entry) (s : Bfs) : Type 0 where
    pub seen :
        (n : ℕ)
        → contains s.visited n ≡ true
        → Any (λ (e : Entry). e.0 ≡ n) done ⊎ Any (λ (e : Entry). e.0 ≡ n) s.queue
    pub bound : All (λ (e : Entry). e.1 ≤ k + 1) done
    pub waiting : All (λ (e : Entry). (k ≤ e.1) × (e.1 ≤ k + 1)) s.queue
    pub levelled : IsLevelled s.queue

  -- Nothing that waits or was found is lost.
  pub record Keeps (s t : Bfs) : Type 0 where
    pub rows : (r : QueryEdge) → In r s.results → In r t.results
    pub entries : (e : Entry) → In e s.queue → In e t.queue

  pub any_kept :
      {A : Type 0} (Q : A → Type 0) (xs ys : List A)
      → ((x : A) → In x xs → In x ys)
      → Any Q xs
      → Any Q ys
  any_kept Q xs ys f h = let (x, (m, q)) = Any-member Q xs h in Any-of_In Q x ys q (f x m)

  Served-kept :
      (done : List Entry) (s t : Bfs) (depth : ℕ) (e : EdgeReference RelationshipMeta)
      → Keeps s t
      → Served done s depth e
      → Served done t depth e
  Served-kept done s t depth e k h = (
    ⊎_elim (λ d. inl d) (λ q. inr (any_kept _ s.queue t.queue k.entries q)) h.0,
    any_kept _ s.results t.results k.rows h.1,
  )

  Keeps-trans : (s t u : Bfs) → Keeps s t → Keeps t u → Keeps s u
  Keeps-trans s t u h k = record {
    rows = λ r m. k.rows r (h.rows r m);
    entries = λ e m. k.entries e (h.entries e m);
  }

  Keeps-refl : (s : Bfs) → Keeps s s
  Keeps-refl s = record { rows = λ r m. m; entries = λ e m. m }

  -- A node that was seen is logged no deeper than the next level.
  seen-Logged :
      (k n : ℕ) (done : List Entry) (s : Bfs)
      → IsLevel k done s
      → contains s.visited n ≡ true
      → Logged done s n (k + 1)
  seen-Logged k n done s h seen =
      ⊎_elim
        (λ d.
          let (e, (m, same)) = Any-member _ done d in
          inl (Any-of_In _ e done (same, All-at (λ (e : Entry). e.1 ≤ k + 1) e done h.bound m) m))
        (λ q.
          let (e, (m, same)) = Any-member _ s.queue q in
          inr (
            Any-of_In _ e s.queue
              (same, (All-at (λ (e : Entry). (k ≤ e.1) × (e.1 ≤ k + 1)) e s.queue h.waiting m).1)
              m))
        (h.seen n seen)

  abbrev pub Stepped : List Entry → ℕ → Bfs → Bfs → Type 0
  Stepped done depth s t = IsLevel depth done t × Keeps s t

  enqueue_step :
      (done : List Entry) (depth node : ℕ) (s : Bfs)
      → IsLevel depth done s
      → Stepped done depth s (enqueue P g direction kinds min_resolution s node (depth + 1))
        × Logged done
            (enqueue P g direction kinds min_resolution s node (depth + 1))
            node
            (depth + 1)
  unfolding enqueue
  enqueue_step done depth node s h =
      let last : Entry = (node, depth + 1) in
      let queue : List Entry = s.queue ++ last ∷ [] in
      let there : In last queue = (In-append last s.queue (last ∷ [])).1 (inr (inl refl)) in
      elim (Bool-cases (contains s.visited node)) [
        | inl seen ↦ rw (enqueue, seen) ((h, Keeps-refl s), seen-Logged depth node done s h seen)
        | inr new ↦
            rw (enqueue, new)
              (
                (
                  record {
                    seen = λ n m.
                        ⊎_elim
                          (λ e. inr (Any-of_In (λ (f : Entry). f.0 ≡ n) last queue (sym e) there))
                          (λ c.
                            ⊎_elim (λ d. inl d)
                              (λ q. inr (
                                any_kept (λ (f : Entry). f.0 ≡ n) s.queue queue
                                  (λ f i. (In-append f s.queue (last ∷ [])).1 (inl i)) q))
                              (h.seen n c))
                          ((contains-set_insert n node s.visited).0 m);
                    bound = h.bound;
                    waiting =
                        All-append _ s.queue ((node, depth + 1) ∷ []) h.waiting
                          ((omega arith, omega arith), tt);
                    levelled =
                        append-IsLevelled s.queue (node, depth + 1)
                          (All-map _ _ s.queue (λ e b. b.1) h.waiting) h.levelled;
                  },
                  record {
                    rows = λ r m. m;
                    entries = λ e m. (In-append e s.queue ((node, depth + 1) ∷ [])).1 (inl m);
                  },
                ),
                inr (Any-of_In _ last queue (refl, omega arith) there),
              )
      ]

  module _ (done : List Entry) (depth : ℕ) where
    abbrev EdgeDone : Bfs → EdgeReference RelationshipMeta → Bfs → Type 0
    EdgeDone s e t =
        Stepped done depth s t
        × (permitted P g direction kinds min_resolution e ≡ true → Served done t depth e)

    abbrev EdgesDone : Bfs → List (EdgeReference RelationshipMeta) → Bfs → Type 0
    EdgesDone s es t = Stepped done depth s t × AllServed done t depth es

    found_step :
        (s : Bfs) (e : EdgeReference RelationshipMeta) (from to : SymbolId)
        → P.node_weight g.graph e.target ≡ some to
        → IsLevel depth done s
        → EdgeDone s e (
            enqueue P g direction kinds min_resolution
              (record s { results = s.results ++ row from to e.weight (depth + 1) ∷ [] })
              (neighbor direction e)
              (depth + 1))
    found_step s e from to target h =
        let r : QueryEdge = row from to e.weight (depth + 1) in
        let found : Bfs = record s { results = s.results ++ r ∷ [] } in
        let level : IsLevel depth done found = record {
          seen = h.seen;
          bound = h.bound;
          waiting = h.waiting;
          levelled = h.levelled;
        } in
        let wider : Keeps s found = record {
          rows = λ q m. (In-append q s.results (r ∷ [])).1 (inl m);
          entries = λ f m. m;
        } in
        let ((level', kept), logged) = enqueue_step done depth (neighbor direction e) found level in
        let reported : Any (Says e depth) found.results =
          Any-of_In (Says e depth) r found.results (target, refl)
            ((In-append r s.results (r ∷ [])).1 (inr (inl refl))) in
        (
          (level', Keeps-trans s found _ wider kept),
          λ p. (logged, any_kept (Says e depth) found.results _ kept.rows reported),
        )

    visit_edge_step :
        (s : Bfs) (e : EdgeReference RelationshipMeta)
        → IsLevel depth done s
        → Yields (EdgeDone s e) (visit_edge P g direction kinds min_resolution depth s e)
    unfolding visit_edge
    visit_edge_step s e h = elim (Bool-cases (permitted P g direction kinds min_resolution e)) [
      | inr other ↦ rw (visit_edge, other) ((h, Keeps-refl s), λ p. ground (arith, p, other))
      | inl fits ↦
          rw (visit_edge, fits)
            (Yields->>= (λ id. P.node_weight g.graph e.source ≡ some id) (EdgeDone s e)
              (id_of P g direction kinds min_resolution e.source (bytes "Missing source node")) _
              (id_of_lem P g direction kinds min_resolution e.source (bytes "Missing source node"))
              (λ from source.
                Yields->>= (λ id. P.node_weight g.graph e.target ≡ some id) (EdgeDone s e)
                  (id_of P g direction kinds min_resolution e.target (bytes "Missing target node"))
                  _
                  (id_of_lem P g direction kinds min_resolution e.target
                    (bytes "Missing target node"))
                  (λ to target. found_step s e from to target h)))
    ]

    visit_edges_step :
        (s : Bfs) (es : List (EdgeReference RelationshipMeta))
        → IsLevel depth done s
        → Yields (EdgesDone s es) (visit_edges P g direction kinds min_resolution depth s es)
    unfolding visit_edges
    visit_edges_step s [] h = ((h, Keeps-refl s), tt)
    visit_edges_step s (e ∷ es) h =
        Yields->>= (EdgeDone s e) (EdgesDone s (e ∷ es))
          (visit_edge P g direction kinds min_resolution depth s e)
          (λ s'. visit_edges P g direction kinds min_resolution depth s' es) (visit_edge_step s e h)
          (λ s' first.
            Yields-weaken (EdgesDone s' es) (EdgesDone s (e ∷ es)) _
              (visit_edges_step s' es first.0.0)
              (λ t rest. (
                (rest.0.0, Keeps-trans s s' t first.0.1 rest.0.1),
                (λ p. Served-kept done s' t depth e rest.0.1 (first.1 p), rest.1),
              )))

  abbrev pub TurnDone : ℕ → List Entry → ℕ → ℕ → Bfs → Bfs → Type 0
  TurnDone max_depth done node depth s t =
      Stepped done depth s t
      × (depth < max_depth → AllServed done t depth (P.edges_directed g.graph node direction))

  pub visit_step :
      (max_depth : ℕ) (done : List Entry) (s : Bfs) (node depth : ℕ)
      → IsLevel depth done s
      → Yields
          (TurnDone max_depth done node depth s)
          (visit P g direction kinds min_resolution max_depth s node depth)
  unfolding visit
  visit_step max_depth done s node depth h = elim (Bool-cases (leb max_depth depth)) [
    | inl deep ↦ rw (visit, deep) ((h, Keeps-refl s), λ lt. ground (arith, deep, lt))
    | inr within ↦
        rw (visit, within)
          (Yields-weaken (EdgesDone done depth s (P.edges_directed g.graph node direction))
            (TurnDone max_depth done node depth s) _
            (visit_edges_step done depth s (P.edges_directed g.graph node direction) h)
            (λ t k. (k.0, λ lt. k.1)))
  ]
