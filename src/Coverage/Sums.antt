-- ===== src/Coverage/Sums.antt =====
-- crates/openinvar-core/src/coverage.rs: the counts by file against the edges, and against the count of all.
use open_invar.Prelude.{
  ℕ, ◌+◌, ◌&&◌, ◌≡◌, refl, sym, ◌∙◌, inl, inr, List, [], ◌∷◌, foldl, count_if, Map, Text, get,
  tree_insert, unwrap_or, eqb, eqb_iff, cmp, cmp_refl, arith, get-tree_insert, IsStrict,
  tree_insert-IsStrict, get_before, list_eq, Ordering-cases, nat_ord, list_ord,
}
use open_invar.Ir.{Resolution, resolved, structural, resolution_ord}
use open_invar.Graph.{Backend, InvarGraph, RelationshipMeta}
use open_invar.Coverage.{Coverage, no_edges, record_edge, by_file_of, overall, by_file}

-- How many edges of a file, or of all files, were resolved in one way.
abbrev pub edges_of : Text → Resolution → List RelationshipMeta → ℕ
edges_of file r es = count_if (λ (e : RelationshipMeta). eqb e.file file && eqb e.resolution r) es

abbrev pub sum_of : (Coverage → ℕ) → Map Text Coverage → ℕ
sum_of part [] = 0
sum_of part ((file, c) ∷ m) = part c + sum_of part m

abbrev pub part_of : Resolution → Coverage → ℕ
part_of resolved c = c.resolved
part_of structural c = c.structural

part_none : (r : Resolution) → part_of r no_edges ≡ 0
part_none r = ground arith

sum_of-tree_insert :
    (part : Coverage → ℕ) (m : Map Text Coverage) (k : Text) (c : Coverage)
    → part no_edges ≡ 0
    → IsStrict m
    → sum_of part (tree_insert m k c) + part (unwrap_or (get m k) no_edges) ≡ sum_of part m + part c
unfolding get tree_insert
sum_of-tree_insert part [] k c none_yet h = ground (arith, none_yet)
sum_of-tree_insert part ((j, d) ∷ m) k c none_yet h = elim (Ordering-cases (cmp k j)) [
  | inl below ↦ rw (tree_insert, below) (ground (arith, none_yet, get_before m k j d below h))
  | inr (inl same) ↦ rw (tree_insert, same) (ground (arith, eqb_iff j k, list_eq k j same))
  | inr (inr above) ↦
      rw (tree_insert, above)
        (ground (arith, eqb_iff j k, cmp_refl k, above, sum_of-tree_insert part m k c none_yet h.1))
]

by_file_of-at :
    (r : Resolution) (file : Text) (m : Map Text Coverage) (es : List RelationshipMeta)
    → part_of r (unwrap_or (get (by_file_of m es) file) no_edges)
      ≡ part_of r (unwrap_or (get m file) no_edges) + edges_of file r es
unfolding by_file_of record_edge
by_file_of-at r file m [] = ground arith
by_file_of-at r file m (e ∷ es) =
    let c = record_edge (unwrap_or (get m e.file) no_edges) e.resolution in
    ground (
      arith,
      by_file_of-at r file (tree_insert m e.file c) es,
      get-tree_insert m e.file file c,
      eqb_iff e.file file,
      eqb_iff e.resolution r,
    )

by_file_of-sum :
    (r : Resolution) (m : Map Text Coverage) (es : List RelationshipMeta)
    → IsStrict m
    → sum_of (part_of r) (by_file_of m es)
      ≡ sum_of (part_of r) m + count_if (λ (e : RelationshipMeta). eqb e.resolution r) es
unfolding by_file_of record_edge
by_file_of-sum r m [] h = ground arith
by_file_of-sum r m (e ∷ es) h =
    let c = record_edge (unwrap_or (get m e.file) no_edges) e.resolution in
    ground (
      arith,
      by_file_of-sum r (tree_insert m e.file c) es (tree_insert-IsStrict m e.file c h),
      sum_of-tree_insert (part_of r) m e.file c (part_none r) h,
      eqb_iff e.resolution r,
    )

fold-part :
    (r : Resolution) (c : Coverage) (es : List RelationshipMeta)
    → part_of r (foldl (λ c (e : RelationshipMeta). record_edge c e.resolution) c es)
      ≡ part_of r c + count_if (λ (e : RelationshipMeta). eqb e.resolution r) es
unfolding record_edge
fold-part r c [] = ground arith
fold-part r c (e ∷ es) =
    ground (arith, fold-part r (record_edge c e.resolution) es, eqb_iff e.resolution r)

from_zero : (a b c : ℕ) → a ≡ 0 → b ≡ a + c → b ≡ c
from_zero a b c none_yet h = omega arith

module _ (P : Backend) (g : InvarGraph P) where
  -- Under each file stands the number of its edges that were resolved, or not; the numbers of all files add
  -- up to those of the whole graph.
  pub by_file-overall :
      (r : Resolution)
      → ((file : Text)
          → part_of r (unwrap_or (get (by_file P g) file) no_edges)
            ≡ edges_of file r (P.edge_weights g.graph))
        × (sum_of (part_of r) (by_file P g) ≡ part_of r (overall P g))
  unfolding by_file overall get
  by_file-overall r = (
    λ file. from_zero _ _ _ (part_none r) (by_file_of-at r file [] (P.edge_weights g.graph)),
    from_zero _ _ _ refl (by_file_of-sum r [] (P.edge_weights g.graph) tt)
        ∙ sym (from_zero _ _ _ (part_none r) (fold-part r no_edges (P.edge_weights g.graph))),
  )
