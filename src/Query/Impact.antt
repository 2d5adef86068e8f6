-- ===== src/Query/Impact.antt =====
-- crates/openinvar-core/src/query.rs: `file_impact`, what a change of a file reaches outside it.
use open_invar.Prelude.{
  ℕ, ◌+◌, Bool, true, false, if◌then◌else◌, ◌||◌, Option, List, [], ◌∷◌, ◌++◌, all, length, Map,
  Text, get, tree_insert, unwrap_or, contains, set_insert, eqb, cmp, then_cmp, sort, sort_by,
  Ordering, nat_ord, list_ord, pair_ord,
}
use open_invar.Ir.{SymbolId, Resolution, is_gate_safe}
use open_invar.Petgraph.{incoming}
use open_invar.Graph.{Backend, InvarGraph}
use open_invar.Index.{symbol_not_found, Result, ok, err, ◌>>=◌}
use open_invar.Query.Mask.{RelationshipKindMask}
use open_invar.Query.Rows.{QueryEdge, structural_files}
use open_invar.Query.Traverse.{traverse, effective_depth}

pub record FileImpact : Type 0 where
  pub file : Text
  pub defined : List SymbolId
  pub edges : List QueryEdge
  pub dependents : Map Text ℕ
  pub gate_safe : Bool
  pub blind_spots : ℕ

-- `FileImpact::is_empty`
unfoldable pub has_no_edges : FileImpact → Bool
has_no_edges impact = elim impact.edges [ [] ↦ true | e ∷ es ↦ false ]

-- The set `seen` and the vector `edges` of the loop.
pub record Reached : Type 0 where
  pub seen : List (SymbolId × (SymbolId × ℕ))
  pub edges : List QueryEdge

abbrev pub edge_key : QueryEdge → SymbolId × (SymbolId × ℕ)
edge_key e = (e.from, (e.to, e.line))

-- The loop over the rows of one root.
unfoldable pub keep_outside : Text → Reached → List QueryEdge → Reached
keep_outside file s [] = s
keep_outside file s (e ∷ es) =
    let new : Reached = record {
      seen = set_insert (edge_key e) s.seen;
      edges = s.edges ++ e ∷ [];
    } in
    keep_outside file (if eqb e.file file || contains s.seen (edge_key e) then s else new) es

-- A symbol without a node is passed over; any other error is the answer.
unfoldable pub or_skipped : Result (List QueryEdge) → Result (List QueryEdge)
or_skipped (ok rows) = ok rows
or_skipped (err (symbol_not_found id)) = ok []
or_skipped (err e) = err e

-- `(&a.file, a.line, &a.from, &a.to).cmp(…)`
unfoldable pub outside_cmp : QueryEdge → QueryEdge → Ordering
outside_cmp a b =
    then_cmp (cmp a.file b.file)
      (then_cmp (cmp a.line b.line) (then_cmp (cmp a.from b.from) (cmp a.to b.to)))

-- `*dependents.entry(file).or_default() += 1`
unfoldable pub count_dependents : Map Text ℕ → List QueryEdge → Map Text ℕ
count_dependents m [] = m
count_dependents m (e ∷ es) =
    count_dependents (tree_insert m e.file (unwrap_or (get m e.file) 0 + 1)) es

module _ (P : Backend) (g : InvarGraph P) where
  unfoldable pub reached_from :
      Text → ℕ → RelationshipKindMask → Resolution → Reached → List SymbolId → Result Reached
  unfolding keep_outside or_skipped traverse
  reached_from file depth kinds min_resolution s [] = ok s
  reached_from file depth kinds min_resolution s (root ∷ roots) =
      or_skipped (traverse P g incoming kinds min_resolution root depth) >>= λ found.
      reached_from file depth kinds min_resolution (keep_outside file s found) roots

  unfoldable pub file_impact :
      Text → Option ℕ → RelationshipKindMask → Resolution → Result FileImpact
  unfolding reached_from effective_depth outside_cmp count_dependents structural_files
  file_impact file depth kinds min_resolution = effective_depth depth >>= λ d.
      let defined = sort (unwrap_or (get g.file_index file) []) in
      reached_from file d kinds min_resolution (record { seen = []; edges = [] }) defined
      >>= λ reached.
          let edges = sort_by outside_cmp reached.edges in
          ok (record {
            file = file;
            defined = defined;
            edges = edges;
            dependents = count_dependents [] edges;
            gate_safe = all (λ (e : QueryEdge). is_gate_safe e.resolution) edges;
            blind_spots = length (structural_files P g);
          })
