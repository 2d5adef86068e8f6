-- ===== src/Query/Traverse/Running.antt =====
-- crates/openinvar-core/src/query.rs: the walk of `traverse` serves every entry that it takes up within the depth.
use open_invar.Prelude.{
  ℕ, zero, suc, ◌+◌, ◌≤◌, ◌<◌, ◌≡◌, sym, subst, inl, inr, ⊎_elim, true, List, [], ◌∷◌, All, All-map,
  All-of_In, All-at, Any, Any-map, Any-member, In, List-cases, arith, nat_ord, list_ord, option_ord,
  pair_ord,
}
use open_invar.Ir.{Resolution}
use open_invar.Petgraph.{EdgeReference, Direction}
use open_invar.Graph.{Backend, InvarGraph, RelationshipMeta}
use open_invar.Index.{ok}
use open_invar.Index.Yields.{Yields, Yields->>=, Yields-weaken}
use open_invar.Query.Mask.{RelationshipKindMask}
use open_invar.Query.Rows.{QueryEdge}
use open_invar.Query.Traverse.{Bfs, neighbor, permitted, visit, walk}
use open_invar.Query.Traverse.Walks.{Walk, here, step}
use open_invar.Query.Traverse.Levels.{
  Entry, IsLevelled, Logged, Says, Served, AllServed, IsLevel, Keeps, any_kept, TurnDone,
  visit_step,
}

module _ (P : Backend) (g : InvarGraph P) (direction : Direction) (kinds : RelationshipKindMask)
    (min_resolution : Resolution) where
  -- All that was taken up within the depth is served.
  abbrev pub AllTurns : ℕ → List Entry → Bfs → Type 0
  AllTurns max_depth done s =
      All
        (λ (e : Entry).
          e.1 < max_depth
          → AllServed P g direction kinds min_resolution done s e.1
              (P.edges_directed g.graph e.0 direction))
        done

  pub record IsRunning (root max_depth : ℕ) (s : Bfs) : Type 0 where
    pub level : ℕ
    pub done : List Entry
    pub at_level : IsLevel P g direction kinds min_resolution level done s
    pub served : AllTurns max_depth done s
    pub begun : Logged P g direction kinds min_resolution done s root 0

  -- The head of the queue goes to the entries that were taken up.
  popped-Logged :
      (done : List Entry) (s : Bfs) (head : Entry) (queue : List Entry) (n d : ℕ)
      → s.queue ≡ head ∷ queue
      → Logged P g direction kinds min_resolution done s n d
      → Logged P g direction kinds min_resolution (head ∷ done) (record s { queue = queue }) n d
  popped-Logged done s head queue n d there (inl h) = inl (inr h)
  popped-Logged done s head queue n d there (inr h) =
      ⊎_elim (λ p. inl (inl p)) (λ q. inr q)
        (subst (λ q. Any (λ (e : Entry). (e.0 ≡ n) × (e.1 ≤ d)) q) there h)

  Served-on :
      (done done' : List Entry) (s t : Bfs) (es : List (EdgeReference RelationshipMeta)) (depth : ℕ)
      → ((n d : ℕ)
          → Logged P g direction kinds min_resolution done s n d
          → Logged P g direction kinds min_resolution done' t n d)
      → ((r : QueryEdge) → In r s.results → In r t.results)
      → AllServed P g direction kinds min_resolution done s depth es
      → AllServed P g direction kinds min_resolution done' t depth es
  Served-on done done' s t es depth f k h =
      All-map _ _ es
        (λ e served p. (
          f (neighbor direction e) (depth + 1) (served p).0,
          any_kept P g direction kinds min_resolution
              (Says P g direction kinds min_resolution e depth) s.results t.results k (served p).1,
        ))
        h

  popped-IsLevel :
      (k : ℕ) (done : List Entry) (s : Bfs) (head : Entry) (queue : List Entry)
      → s.queue ≡ head ∷ queue
      → IsLevel P g direction kinds min_resolution k done s
      → IsLevel P g direction kinds min_resolution head.1 (head ∷ done) (record s { queue = queue })
  popped-IsLevel k done s head queue there h =
      let waiting = subst (All (λ (e : Entry). (k ≤ e.1) × (e.1 ≤ k + 1))) there h.waiting in
      let levelled = subst IsLevelled there h.levelled in
      record {
        seen = λ n c.
            ⊎_elim (λ d. inl (inr d))
              (λ q.
                ⊎_elim (λ p. inl (inl p)) (λ r. inr r)
                  (subst (Any (λ (e : Entry). e.0 ≡ n)) there q))
              (h.seen n c);
        bound = (omega arith, All-map _ _ done (λ e b. omega (arith, b, waiting.0.0)) h.bound);
        waiting = All-of_In _ queue (λ e m. (
          All-at (λ (f : Entry). head.1 ≤ f.1) e queue levelled.0 m,
          omega (
            arith,
            (All-at (λ (f : Entry). (k ≤ f.1) × (f.1 ≤ k + 1)) e queue waiting.1 m).1,
            waiting.0.0,
          ),
        ));
        levelled = levelled.1;
      }

  kept-Logged :
      (done : List Entry) (s t : Bfs) (n d : ℕ)
      → Keeps P g direction kinds min_resolution s t
      → Logged P g direction kinds min_resolution done s n d
      → Logged P g direction kinds min_resolution done t n d
  kept-Logged done s t n d k h =
      ⊎_elim (λ p. inl p)
        (λ q. inr (any_kept P g direction kinds min_resolution _ s.queue t.queue k.entries q)) h

  turn-IsRunning :
      (root max_depth : ℕ) (s : Bfs) (node depth : ℕ) (queue : List Entry)
      → s.queue ≡ (node, depth) ∷ queue
      → IsRunning root max_depth s
      → Yields (IsRunning root max_depth) (
          visit P g direction kinds min_resolution max_depth
            (record s { queue = queue })
            node
            depth)
  turn-IsRunning root max_depth s node depth queue there h =
      let s1 : Bfs = record s { queue = queue } in
      let done : List Entry = (node, depth) ∷ h.done in
      Yields-weaken (TurnDone P g direction kinds min_resolution max_depth done node depth s1)
        (IsRunning root max_depth) _
        (visit_step P g direction kinds min_resolution max_depth done s1 node depth
          (popped-IsLevel h.level h.done s (node, depth) queue there h.at_level))
        (λ t k.
          let on : (n d : ℕ)
              → Logged P g direction kinds min_resolution h.done s n d
              → Logged P g direction kinds min_resolution done t n d =
            λ n d l.
              kept-Logged done s1 t n d k.0.1
                (popped-Logged h.done s (node, depth) queue n d there l) in
          record {
            level = depth;
            done = done;
            at_level = k.0.0;
            served = (
              k.1,
              All-map _ _ h.done
                  (λ e turn lt. Served-on h.done done s t _ e.1 on k.0.1.rows (turn lt)) h.served,
            );
            begun = on root 0 h.begun;
          })

  walk-IsRunning_empty :
      (root fuel max_depth : ℕ) (s : Bfs)
      → s.queue ≡ []
      → IsRunning root max_depth s
      → Yields
          (IsRunning root max_depth)
          (walk P g direction kinds min_resolution (suc fuel) max_depth s)
  walk-IsRunning_empty root fuel max_depth s empty h =
      let stopped : walk P g direction kinds min_resolution (suc fuel) max_depth s ≡ ok s =
        unfold walk in ground (arith, empty) in
      subst (Yields (IsRunning root max_depth)) (sym stopped) h

  pub walk-IsRunning :
      (root fuel max_depth : ℕ) (s : Bfs)
      → IsRunning root max_depth s
      → Yields (IsRunning root max_depth) (walk P g direction kinds min_resolution fuel max_depth s)
  unfolding walk
  walk-IsRunning root zero max_depth s h = h
  walk-IsRunning root (suc fuel) max_depth s h = elim (List-cases s.queue) [
    | inl empty ↦ walk-IsRunning_empty root fuel max_depth s empty h
    | inr ((node, depth), queue, there) ↦
        rw (walk, there)
          (Yields->>= (IsRunning root max_depth) (IsRunning root max_depth)
            (visit P g direction kinds min_resolution max_depth (record s { queue = queue }) node
              depth)
            (walk P g direction kinds min_resolution fuel max_depth)
            (turn-IsRunning root max_depth s node depth queue there h)
            (λ t k. walk-IsRunning root fuel max_depth t k))
  ]

  module _ (root max_depth : ℕ) (s : Bfs) (h : IsRunning root max_depth s)
      (empty : s.queue ≡ []) where
    settled :
        (n d : ℕ)
        → Logged P g direction kinds min_resolution h.done s n d
        → Any (λ (e : Entry). (e.0 ≡ n) × (e.1 ≤ d)) h.done
    settled n d (inl l) = l
    settled n d (inr l) = absurd (subst (Any (λ (e : Entry). (e.0 ≡ n) × (e.1 ≤ d))) empty l)

    pub edge-Served :
        (node depth : ℕ) (e : EdgeReference RelationshipMeta)
        → Any (λ (f : Entry). (f.0 ≡ node) × (f.1 ≤ depth)) h.done
        → depth < max_depth
        → In e (P.edges_directed g.graph node direction)
        → permitted P g direction kinds min_resolution e ≡ true
        → (d : ℕ) × ((d ≤ depth) × Served P g direction kinds min_resolution h.done s d e)
    edge-Served node depth e taken lt m fits =
        let (f, (there, (same, le))) = Any-member _ h.done taken in
        let turn =
          All-at
            (λ (f : Entry).
              f.1 < max_depth
              → AllServed P g direction kinds min_resolution h.done s f.1
                  (P.edges_directed g.graph f.0 direction))
            f h.done h.served there in
        let edges =
          subst
            (λ n.
              AllServed P g direction kinds min_resolution h.done s f.1
                (P.edges_directed g.graph n direction))
            same (turn (omega (arith, le, lt))) in
        (f.1, (le, All-at _ e (P.edges_directed g.graph node direction) edges m fits))

    pub walked_taken :
        {node depth : ℕ}
        → Walk P g direction kinds min_resolution root node depth
        → depth ≤ max_depth
        → Any (λ (f : Entry). (f.0 ≡ node) × (f.1 ≤ depth)) h.done
    walked_taken here le = settled root 0 h.begun
    walked_taken (step {node} {depth} e w m fits) le =
        let lt : depth < max_depth = omega (arith, le) in
        let (d, (le', served)) =
          edge-Served node depth e (walked_taken w (omega (arith, le))) lt m fits in
        let taken = settled (neighbor direction e) (d + 1) served.0 in
        Any-map _ _ h.done (λ f k. (k.0, omega (arith, k.1, le'))) taken
