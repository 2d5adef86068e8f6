-- ===== src/TestImpact/Reach.antt =====
-- crates/openinvar-core/src/test_impact.rs: what it means that a test covers a symbol.
use open_invar.Prelude.{
  ℕ, zero, suc, true, ◌≡◌, sym, subst, inl, inr, ⊎_elim, some, List, [], ◌∷◌, All, All-map, All-at,
  All-of_In, All-tree_insert, In, get, get-In, tree_insert, set_insert, In-set_insert, dedup, sort,
  Bool-cases, Option-cases, List-cases, nat_ord, list_ord, pair_ord, bool_ord,
}
use open_invar.Ir.{SymbolId, Resolution, tests, relationship_kind_ord}
use open_invar.Petgraph.{EdgeReference, incoming}
use open_invar.Graph.{Backend, InvarGraph, RelationshipMeta}
use open_invar.TestImpact.{
  covering_test_ord, Origins, origins_of, Level, walks, learn, carry, carry_all, expand, expand_all,
  levels, rooted, reverse_reachable, extend,
}
use open_invar.TestImpact.Cover.{In-extend}

module _ (P : Backend) (g : InvarGraph P) (min_resolution : Resolution) where
  -- A symbol that leads to another over edges that the walk goes along.
  pub data Reaches : SymbolId → SymbolId → Type 0 where
    here : {id : SymbolId} → Reaches id id
    step :
        {id origin source : SymbolId} {node : ℕ} (e : EdgeReference RelationshipMeta)
        → get g.node_index id ≡ some node
        → In e (P.edges_directed g.graph node incoming)
        → walks P g min_resolution e ≡ true
        → P.node_weight g.graph e.source ≡ some source
        → Reaches id origin
        → Reaches source origin

  -- A test with a `tests` edge to a symbol that leads to another.
  pub record Exercises (test origin : SymbolId) : Type 0 where
    pub edge : EdgeReference RelationshipMeta
    pub target : SymbolId
    pub there : In edge (P.edge_references g.graph)
    pub kind : edge.weight.kind ≡ tests
    pub from : P.node_weight g.graph edge.source ≡ some test
    pub to : P.node_weight g.graph edge.target ≡ some target
    pub reaches : Reaches target origin

  module _ (roots : List SymbolId) where
    abbrev pub Known : SymbolId → List SymbolId → Type 0
    Known id origins = All (λ o. In o roots × Reaches id o) origins

    abbrev pub IsTraced : Origins → Type 0
    IsTraced origins = All (λ entry. Known entry.0 entry.1) origins

    pub All-extend {κ} :
        (Q : SymbolId → Type κ) (set more : List SymbolId)
        → All Q set
        → All Q more
        → All Q (extend set more)
    All-extend Q set more h k = All-of_In Q (extend set more) (λ id m.
        ⊎_elim (λ i. All-at Q id set h i) (λ i. All-at Q id more k i) ((In-extend id set more).0 m))

    pub origins-Known :
        (origins : Origins) (id : SymbolId) → IsTraced origins → Known id (origins_of origins id)
    origins-Known origins id h = elim (Option-cases (get origins id)) [
      | inl missing ↦ rw missing tt
      | inr (os, there) ↦ rw there (
          All-at (λ (entry : SymbolId × List SymbolId). Known entry.0 entry.1) (id, os) origins h
            (get-In origins id os there))
    ]

    learn-IsTraced :
        (carried : List SymbolId) (s : Level) (source : SymbolId)
        → Known source carried
        → IsTraced s.origins
        → IsTraced (learn P g min_resolution carried s source).origins
    unfolding learn
    learn-IsTraced carried s source known h = All-tree_insert _ s.origins source _ h (
        All-extend _ (origins_of s.origins source) carried (origins-Known s.origins source h) known)

    module _ (id : SymbolId) (node : ℕ) (at : get g.node_index id ≡ some node)
        (carried : List SymbolId) (known : Known id carried) where
      carry-IsTraced :
          (s : Level) (e : EdgeReference RelationshipMeta)
          → In e (P.edges_directed g.graph node incoming)
          → IsTraced s.origins
          → IsTraced (carry P g min_resolution carried s e).origins
      unfolding carry
      carry-IsTraced s e m h = elim (Bool-cases (walks P g min_resolution e)) [
        | inr other ↦ rw (carry, other) h
        | inl fits ↦ elim (Option-cases (P.node_weight g.graph e.source)) [
          | inl missing ↦ rw (carry, fits, missing) h
          | inr (source, there) ↦
              rw (carry, fits, there)
                (learn-IsTraced carried s source
                  (All-map _ _ carried (λ o k. (k.0, step e at m fits there k.1)) known) h)
        ]
      ]

      carry_all-IsTraced :
          (s : Level) (es : List (EdgeReference RelationshipMeta))
          → All (λ e. In e (P.edges_directed g.graph node incoming)) es
          → IsTraced s.origins
          → IsTraced (carry_all P g min_resolution carried s es).origins
      unfolding carry_all
      carry_all-IsTraced s [] m h = h
      carry_all-IsTraced s (e ∷ es) m h =
          carry_all-IsTraced (carry P g min_resolution carried s e) es m.1
            (carry-IsTraced s e m.0 h)

    expand-IsTraced :
        (s : Level) (id : SymbolId)
        → IsTraced s.origins
        → IsTraced (expand P g min_resolution s id).origins
    unfolding expand
    expand-IsTraced s id h = elim (Option-cases (get g.node_index id)) [
      | inl missing ↦ rw (expand, missing) h
      | inr (node, at) ↦
          rw (expand, at)
            (carry_all-IsTraced id node at (origins_of s.origins id) (origins-Known s.origins id h)
              s (P.edges_directed g.graph node incoming) (All-of_In _ _ (λ e m. m)) h)
    ]

    expand_all-IsTraced :
        (s : Level) (ids : List SymbolId)
        → IsTraced s.origins
        → IsTraced (expand_all P g min_resolution s ids).origins
    unfolding expand_all
    expand_all-IsTraced s [] h = h
    expand_all-IsTraced s (id ∷ ids) h =
        expand_all-IsTraced (expand P g min_resolution s id) ids (expand-IsTraced s id h)

    levels-IsTraced :
        (depth : ℕ) (origins : Origins) (frontier : List SymbolId)
        → IsTraced origins
        → IsTraced (levels P g min_resolution depth origins frontier)
    unfolding levels
    levels-IsTraced zero origins frontier h = h
    levels-IsTraced (suc depth) origins frontier h =
        let s = expand_all P g min_resolution (record { origins = origins; next = [] }) frontier in
        let h' : IsTraced s.origins =
          expand_all-IsTraced (record { origins = origins; next = [] }) frontier h in
        elim (List-cases s.next) [
          | inl settled ↦ rw (levels, settled) h'
          | inr (id, ids, more) ↦
              rw (levels, more) (levels-IsTraced depth s.origins (dedup (sort (id ∷ ids))) h')
        ]

    rooted-IsTraced :
        (origins : Origins) (ids : List SymbolId)
        → All (λ id. In id roots) ids
        → IsTraced origins
        → IsTraced (rooted P g min_resolution origins ids)
    unfolding rooted
    rooted-IsTraced origins [] m h = h
    rooted-IsTraced origins (id ∷ ids) m h =
        rooted-IsTraced (tree_insert origins id (set_insert id (origins_of origins id))) ids m.1 (
          All-tree_insert _ origins id _ h (
            All-of_In _ _ (λ o i.
              ⊎_elim (λ e. subst (λ o. In o roots × Reaches id o) (sym e) (m.0, here))
                (λ j. All-at _ o (origins_of origins id) (origins-Known origins id h) j)
                ((In-set_insert o id (origins_of origins id)).0 i))))

    pub reverse_reachable-IsTraced :
        (depth : ℕ) → IsTraced (reverse_reachable P g min_resolution roots depth)
    unfolding reverse_reachable
    reverse_reachable-IsTraced depth =
        levels-IsTraced depth (rooted P g min_resolution [] roots) roots
          (rooted-IsTraced [] roots (All-of_In _ _ (λ e m. m)) tt)
