-- ===== src/Query/Traverse/Complete.antt =====
-- crates/openinvar-core/src/query.rs: `traverse` misses no permitted edge within its depth.
use open_invar.Prelude.{
  ℕ, suc, ◌<◌, ◌≡◌, refl, sym, ap, ◌∙◌, subst, inl, inr, ◌⊎◌, ⊎_elim, true, Option, some, List, [],
  ◌∷◌, Any, Any-map, Any-member, In, In-sort_by, sort_by, Text, get, contains, contains_iff,
  contains-set_insert, set_insert, Bool-cases, arith, nat_ord, list_ord, option_ord, pair_ord,
}
use open_invar.Ir.{SymbolId, Resolution}
use open_invar.Petgraph.{EdgeReference, Direction, IsCompact}
use open_invar.Graph.{Backend, InvarGraph, RelationshipMeta}
use open_invar.Index.{ok}
use open_invar.Index.Yields.{Yields, Yields->>=, Yields-ok, Yields-both}
use open_invar.RuleEval.Edges.{kind_name}
use open_invar.Query.Mask.{RelationshipKindMask}
use open_invar.Query.Rows.{QueryEdge, first_of_each, dedupe_edges, row_cmp, row_key}
use open_invar.Query.Traverse.{Bfs, permitted, walk, start, traverse}
use open_invar.Query.Traverse.Ends.{traverse_ends}
use open_invar.Query.Traverse.Walks.{Walk}
use open_invar.Query.Traverse.Running.{IsRunning, walk-IsRunning, edge-Served, walked_taken}

-- Of the rows with one key, one stays.
first_of_each-key :
    (seen : List (Text × (Text × (ℕ × (Option Text × Text))))) (es : List QueryEdge) (r : QueryEdge)
    → In r es
    → (contains seen (row_key r) ≡ true) ⊎ Any (λ q. row_key q ≡ row_key r) (first_of_each seen es)
unfolding first_of_each
first_of_each-key seen [] r h = absurd h
first_of_each-key seen (e ∷ es) r h =
    let known : (row_key r ≡ row_key e)
        → contains seen (row_key e) ≡ true
        → contains seen (row_key r) ≡ true =
      λ same again. subst (λ k. contains seen k ≡ true) (sym same) again in
    let later = first_of_each-key (set_insert (row_key e) seen) es r in
    let before = contains-set_insert (row_key r) (row_key e) seen in
    elim (Bool-cases (contains seen (row_key e))) [
      | inl again ↦
          rw (first_of_each, again)
            (⊎_elim (λ same. inl (known (ap row_key same) again))
              (λ m.
                ⊎_elim (λ c. ⊎_elim (λ same. inl (known same again)) (λ old. inl old) (before.0 c))
                  (λ q. inr q) (later m))
              h)
      | inr new ↦
          rw (first_of_each, new)
            (⊎_elim (λ same. inr (inl (ap row_key (sym same))))
              (λ m.
                ⊎_elim (λ c. ⊎_elim (λ same. inr (inl (sym same))) (λ old. inl old) (before.0 c))
                  (λ q. inr (inr q)) (later m))
              h)
    ]

dedupe_edges-key :
    (es : List QueryEdge) (r : QueryEdge)
    → In r es
    → Any (λ q. row_key q ≡ row_key r) (dedupe_edges es)
unfolding dedupe_edges contains
dedupe_edges-key es r m =
    ⊎_elim (λ c. absurd (ground (arith, c))) (λ q. q)
      (first_of_each-key [] (sort_by row_cmp es) r ((In-sort_by row_cmp r es).1 m))

module _ (P : Backend) (compact : IsCompact P) (g : InvarGraph P) (direction : Direction)
    (kinds : RelationshipKindMask) (min_resolution : Resolution) where
  abbrev Reports : EdgeReference RelationshipMeta → List QueryEdge → Type 0
  Reports e rows =
      (to : SymbolId) × ((P.node_weight g.graph e.target ≡ some to)
        × Any
            (λ q.
              row_key q
              ≡ (to, (e.weight.file, (e.weight.line, (e.weight.alias, kind_name e.weight.kind)))))
            rows)

  finished-Reports :
      (root max_depth node depth : ℕ) (s : Bfs) (e : EdgeReference RelationshipMeta)
      → IsRunning P g direction kinds min_resolution root max_depth s
      → s.queue ≡ []
      → Walk P g direction kinds min_resolution root node depth
      → depth < max_depth
      → In e (P.edges_directed g.graph node direction)
      → permitted P g direction kinds min_resolution e ≡ true
      → Reports e (dedupe_edges s.results)
  finished-Reports root max_depth node depth s e h empty w lt m fits =
      let taken =
        walked_taken P g direction kinds min_resolution root max_depth s h empty w
          (omega (arith, lt)) in
      let (d, (le, served)) =
        edge-Served P g direction kinds min_resolution root max_depth s h empty node depth e taken
          lt m fits in
      let (r, (there, (target, says))) = Any-member _ s.results served.1 in
      (
        r.to,
        (
          target,
          Any-map _ _ (dedupe_edges s.results) (λ q same. same ∙ ap row_key says)
              (dedupe_edges-key s.results r there),
        ),
      )

  start-IsRunning :
      (root max_depth : ℕ)
      → IsRunning P g direction kinds min_resolution root max_depth
          (start P g direction kinds min_resolution root)
  start-IsRunning root max_depth = record {
    level = 0;
    done = [];
    at_level = record {
      seen = λ n c. inr (inl (ground (arith, contains_iff (root ∷ []) n, c)));
      bound = tt;
      waiting = ((omega arith, omega arith), tt);
      levelled = (tt, tt);
    };
    served = tt;
    begun = inr (inl (refl, omega arith));
  }

  -- Where node indices are below the node count and `traverse` answers, it has a row for each permitted edge at a node that is
  -- fewer permitted steps from the root than the bound: one of the edge's target, file, line, alias and kind.
  pub traverse_complete :
      (root : SymbolId) (root_node max_depth node depth : ℕ) (rows : List QueryEdge)
      (e : EdgeReference RelationshipMeta)
      → get g.node_index root ≡ some root_node
      → traverse P g direction kinds min_resolution root max_depth ≡ ok rows
      → Walk P g direction kinds min_resolution root_node node depth
      → depth < max_depth
      → In e (P.edges_directed g.graph node direction)
      → permitted P g direction kinds min_resolution e ≡ true
      → Reports e rows
  unfolding traverse
  traverse_complete root root_node max_depth node depth rows e there answered w lt m fits =
      let begun = start P g direction kinds min_resolution root_node in
      let fuel = suc (P.node_count g.graph) in
      let walked = walk P g direction kinds min_resolution fuel max_depth begun in
      let ended : Yields (λ s. s.queue ≡ []) walked =
        (traverse_ends P compact g direction kinds min_resolution root_node max_depth fuel
          (omega arith)).1 in
      let running : Yields (IsRunning P g direction kinds min_resolution root_node max_depth)
          walked =
        walk-IsRunning P g direction kinds min_resolution root_node fuel max_depth begun
          (start-IsRunning root_node max_depth) in
      let both =
        Yields-both (IsRunning P g direction kinds min_resolution root_node max_depth)
          (λ s. s.queue ≡ []) walked running ended in
      let said : Yields (Reports e) (traverse P g direction kinds min_resolution root max_depth) =
        rw (traverse, there)
          (Yields->>=
            (λ s.
              IsRunning P g direction kinds min_resolution root_node max_depth s × (s.queue ≡ []))
            (Reports e) walked (λ s. ok (dedupe_edges s.results)) both
            (λ s h. finished-Reports root_node max_depth node depth s e h.0 h.1 w lt m fits)) in
      Yields-ok (Reports e) _ rows said answered
