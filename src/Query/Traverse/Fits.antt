-- ===== src/Query/Traverse/Fits.antt =====
-- crates/openinvar-core/src/query.rs: what a search was asked for, against the rows that it answers with.
use open_invar.Prelude.{
  ℕ, ◌≤◌, ◌≡◌, inl, inr, true, Option, List, Text, All, All-map, arith, Bool-cases, Option-cases,
  ltb, get, nat_ord, list_ord, option_ord, pair_ord, unwrap_or,
}
use open_invar.Ir.{SymbolId, Resolution, meets}
use open_invar.Petgraph.{Direction}
use open_invar.Graph.{Backend, InvarGraph}
use open_invar.Index.{find_symbol_id}
use open_invar.Index.Yields.{Yields, Yields->>=, Yields-weaken, Yields-any}
use open_invar.Query.Mask.{RelationshipKindMask}
use open_invar.Query.Mask
use open_invar.Query.Rows.{QueryEdge}
use open_invar.Query.Traverse.{
  permitted, traverse, effective_depth, search_from, default_depth, greatest_depth,
}
use open_invar.Query.Traverse.Walks.{IsSound, traverse-Yields}

module _ (P : Backend) (g : InvarGraph P) where
  -- What a caller of a search asked for.
  abbrev pub Fits : RelationshipKindMask → Resolution → ℕ → QueryEdge → Type 0
  Fits kinds min_resolution depth r =
      (1 ≤ r.hop)
      × (r.hop ≤ depth)
      × (Mask.contains kinds r.kind ≡ true)
      × (meets r.resolution min_resolution ≡ true)

  sound-Fits :
      (direction : Direction) (kinds : RelationshipKindMask) (min_resolution : Resolution)
      (root depth : ℕ) (r : QueryEdge)
      → IsSound P g direction kinds min_resolution root depth r
      → Fits kinds min_resolution depth r
  unfolding permitted
  sound-Fits direction kinds min_resolution root depth r sound =
      ground (arith, sound.within, sound.same, sound.allowed)

  traverse-Fits :
      (direction : Direction) (kinds : RelationshipKindMask) (min_resolution : Resolution)
      (root : SymbolId) (depth : ℕ)
      → Yields
          (All (Fits kinds min_resolution depth))
          (traverse P g direction kinds min_resolution root depth)
  unfolding traverse
  traverse-Fits direction kinds min_resolution root depth =
      elim (Option-cases (get g.node_index root)) [
        | inl missing ↦ rw (traverse, missing) tt
        | inr (root_node, there) ↦
            Yields-weaken (All (IsSound P g direction kinds min_resolution root_node depth))
              (All (Fits kinds min_resolution depth)) _
              (traverse-Yields P g direction kinds min_resolution root root_node depth there)
              (λ rows sound.
                All-map _ _ rows (sound-Fits direction kinds min_resolution root_node depth) sound)
      ]

  -- A search answers only with rows of the kinds and the resolution that were asked for, at hops from one
  -- to the depth, which is ten at most; a greater depth is an error.
  pub search_from-Fits :
      (direction : Direction) (symbol : Text) (file : Option Text) (depth : Option ℕ)
      (kinds : RelationshipKindMask) (min_resolution : Resolution)
      → Yields
          (λ rows.
            All (Fits kinds min_resolution (unwrap_or depth default_depth)) rows
            × (unwrap_or depth default_depth ≤ greatest_depth))
          (search_from P g direction symbol file depth kinds min_resolution)
  unfolding search_from effective_depth
  search_from-Fits direction symbol file depth kinds min_resolution =
      let d = unwrap_or depth default_depth in
      let answer =
        λ (r : List QueryEdge). All (Fits kinds min_resolution d) r × (d ≤ greatest_depth) in
      elim (Bool-cases (ltb greatest_depth d)) [
        | inl deep ↦ rw (search_from, effective_depth, deep) tt
        | inr within ↦
            rw (search_from, effective_depth, within)
              (Yields->>= (λ root. Unit) answer (find_symbol_id P g symbol file)
                (λ root. traverse P g direction kinds min_resolution root d)
                (Yields-any (find_symbol_id P g symbol file))
                (λ root found.
                  Yields-weaken (All (Fits kinds min_resolution d)) answer _
                    (traverse-Fits direction kinds min_resolution root d)
                    (λ rows fits. (fits, ground (arith, within)))))
      ]
