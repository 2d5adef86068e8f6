-- ===== src/Graph/Leftovers.antt =====
-- graph.rs: what `remove_relationships_in_file` leaves behind. It collects indices before it removes
-- edges one by one, and each removal gives the last edge the index that became free.
use open_invar.Prelude.{
  ℕ, zero, suc, ◌≤◌, ◌<◌, ◌≡◌, inl, inr, Bool, true, List, [], ◌∷◌, foldl, arith, Text, All,
  All-map, retain, below, below_onto, ltb, Bool-cases, subst, ap, ◌∙◌, refl,
}
use open_invar.Petgraph.{RemovesBySwap}
use open_invar.Graph.{Backend, InvarGraph, edge_in_file, remove_relationships_in_file}

abbrev IsAscending : List ℕ → Type 0
IsAscending [] = Unit
IsAscending (x ∷ xs) = All (λ y. x < y) xs × IsAscending xs

below_onto-IsAscending :
    (n : ℕ) (rest : List ℕ)
    → All (λ y. n ≤ y) rest
    → IsAscending rest
    → IsAscending (below_onto n rest)
below_onto-IsAscending zero rest a h = h
below_onto-IsAscending (suc n) rest a h =
    below_onto-IsAscending n (n ∷ rest)
      (omega arith, All-map (λ y. suc n ≤ y) (λ y. n ≤ y) rest (λ y p. omega arith) a) (a, h)

All-retain : (P : ℕ → Type 0) (test : ℕ → Bool) (xs : List ℕ) → All P xs → All P (retain test xs)
All-retain P test [] h = tt
All-retain P test (x ∷ xs) h = elim (Bool-cases (test x)) [
  | inl kept ↦ rw kept (h.0, All-retain P test xs h.1)
  | inr gone ↦ rw gone (All-retain P test xs h.1)
]

retain-IsAscending : (test : ℕ → Bool) (xs : List ℕ) → IsAscending xs → IsAscending (retain test xs)
retain-IsAscending test [] h = tt
retain-IsAscending test (x ∷ xs) h = elim (Bool-cases (test x)) [
  | inl kept ↦ rw kept (All-retain (λ y. x < y) test xs h.0, retain-IsAscending test xs h.1)
  | inr gone ↦ rw gone (retain-IsAscending test xs h.1)
]

module _ (P : Backend) (laws : RemovesBySwap P) where
  open laws use {
    edge_indices_below, remove_edge_count, remove_edge_absent, remove_edge_kept, remove_edge_moved,
  }

  file_of_weight :
      (file : Text) (g h : P.DiGraph) (i j : ℕ)
      → P.edge_weight g i ≡ P.edge_weight h j
      → edge_in_file P file h j ≡ true
      → edge_in_file P file g i ≡ true
  unfolding edge_in_file
  file_of_weight file g h i j e there = rw (e, edge_in_file) there

  -- Removing edges of higher indices does not touch the edge at `i`.
  survives :
      (i : ℕ) (g : P.DiGraph) (ids : List ℕ)
      → All (λ j. i < j) ids
      → i < P.edge_count g
      → P.edge_weight (foldl P.remove_edge g ids) i ≡ P.edge_weight g i
  survives i g [] above fits = refl
  survives i g (j ∷ ids) above fits = elim (Bool-cases (ltb j (P.edge_count g))) [
    | inl used ↦
        let inside : j < P.edge_count g = ground arith in
        let counted = remove_edge_count g j inside in
        let higher = above.0 in
        survives i (P.remove_edge g j) ids above.1 (omega arith)
        ∙ remove_edge_kept g j i (omega arith) (omega arith)
    | inr unused ↦
        let outside : P.edge_count g ≤ j = ground arith in
        ap (λ h. P.edge_weight (foldl P.remove_edge h ids) i) (remove_edge_absent g j outside)
        ∙ survives i g ids above.1 fits
  ]

  -- Where the last edge of the graph belongs to the file and is not the first that does, it is not
  -- removed: it stands at the index of that first edge afterwards, and belongs to the file.
  pub remove_relationships_in_file-leaves :
      (g : InvarGraph P) (file : Text) (i last : ℕ) (rest : List ℕ)
      → P.edge_count g.graph ≡ suc last
      → retain (edge_in_file P file g.graph) (P.edge_indices g.graph) ≡ i ∷ rest
      → i < last
      → edge_in_file P file g.graph last ≡ true
      → let left = (remove_relationships_in_file P g file).0.graph in
        (P.edge_weight left i ≡ P.edge_weight g.graph last) × (edge_in_file P file left i ≡ true)
  unfolding remove_relationships_in_file
  remove_relationships_in_file-leaves g file i last rest count ids before there =
      let ascending : IsAscending (i ∷ rest) = subst IsAscending ids (
        rw edge_indices_below (
          retain-IsAscending (edge_in_file P file g.graph) (below (P.edge_count g.graph))
            (below_onto-IsAscending (P.edge_count g.graph) [] tt tt))) in
      let counted = remove_edge_count g.graph i (omega arith) in
      let kept =
        survives i (P.remove_edge g.graph i) rest ascending.0 (omega arith)
        ∙ remove_edge_moved g.graph i last before count in
      let left = foldl P.remove_edge (P.remove_edge g.graph i) rest in
      rw ids (kept, file_of_weight file left g.graph i last kept there)
