-- ===== src/Delta/Compute.antt =====
-- crates/openinvar-core/src/delta.rs: `compute`, the comparison of two graphs.
pub mod Same
pub mod Keyed
pub mod Matching
pub mod Accounts
use open_invar.Prelude.{
  ℕ, Bool, true, false, not, ◌||◌, if◌then◌else◌, Option, none, some, List, [], ◌∷◌, ◌++◌, retain,
  Map, Text, get, contains_key, is_some, tree_insert, contains, set_insert, eqb, cmp, sort, sort_by,
  Ordering, nat_ord, list_ord, option_ord, pair_ord,
}
use open_invar.Ir.{SymbolId, Symbol}
use open_invar.Graph.{Backend, InvarGraph}
use open_invar.Delta.{
  GraphDelta, Continuity, SignatureChange, Continuation, EdgeRef, edge_ref_ord, continuation_ord,
}
use open_invar.Delta.Edges.{edges, cancel_moved_edges}
use open_invar.Delta.Pairing.{continuation_between, pairing_rank, renames_to}

-- `collect()` into a map in the order of the ids.
unfoldable pub collected : Map SymbolId Symbol → Map SymbolId Symbol → Map SymbolId Symbol
collected m [] = m
collected m ((id, symbol) ∷ rest) = collected (tree_insert m id symbol) rest

abbrev pub symbols_by_id : Map SymbolId Symbol → Map SymbolId Symbol
symbols_by_id symbols = collected [] symbols

-- The symbols of one map whose ids the other does not have.
unfoldable pub missing_from : Map SymbolId Symbol → Map SymbolId Symbol → List Symbol
missing_from other [] = []
missing_from other ((id, symbol) ∷ rest) =
    let later = missing_from other rest in if contains_key other id then later else symbol ∷ later

unfoldable pub changed_signatures : Map SymbolId Symbol → Map SymbolId Symbol → List SignatureChange
changed_signatures after [] = []
changed_signatures after ((id, symbol) ∷ rest) =
    let later = changed_signatures after rest in
    elim (get after id) [
      | none ↦ later
      | some current ↦
          if eqb current.signature symbol.signature
          then later
          else record { before = symbol; after = current } ∷ later
    ]

abbrev pub Candidate : Type 0
Candidate = ℕ × (Text × (Text × Continuation))

-- The sets and the vector that the loop over the candidates fills.
pub record Pairs : Type 0 where
  pub paired_before : List Text
  pub paired_after : List Text
  pub continuities : List Continuity

abbrev pub no_pairs : Pairs
no_pairs = record { paired_before = []; paired_after = []; continuities = [] }

module _ (before after : Map SymbolId Symbol) where
  -- The body of the loop, and the loop.
  unfoldable pub pair : Pairs → Candidate → Pairs
  pair s (rank, (old_id, (new_id, how))) =
      let paired : Pairs = elim (get before old_id) [
        | none ↦ s
        | some before_symbol ↦ elim (get after new_id) [
          | none ↦ s
          | some after_symbol ↦ record {
            paired_before = set_insert old_id s.paired_before;
            paired_after = set_insert new_id s.paired_after;
            continuities =
                s.continuities
                ++ record { before = before_symbol; after = after_symbol; how = how } ∷ [];
          }
        ]
      ] in
      if contains s.paired_before old_id || contains s.paired_after new_id then s else paired

  unfoldable pub pair_all : Pairs → List Candidate → Pairs
  unfolding pair
  pair_all s [] = s
  pair_all s (c ∷ cs) = pair_all (pair s c) cs

module _ (is_alphanumeric : ℕ → Bool) where
  -- The candidates for one removed symbol.
  unfoldable pub candidates_for : Symbol → List Symbol → List Candidate
  unfolding continuation_between pairing_rank renames_to
  candidates_for old [] = []
  candidates_for old (new ∷ rest) =
      let later = candidates_for old rest in
      elim (continuation_between is_alphanumeric old new) [
        | none ↦ later
        | some how ↦ (pairing_rank how (renames_to old new), (old.id, (new.id, how))) ∷ later
      ]

  unfoldable pub candidates : List Symbol → List Symbol → List Candidate
  unfolding candidates_for
  candidates [] added = []
  candidates (old ∷ rest) added = candidates_for old added ++ candidates rest added

  unfoldable pub compute : (P : Backend) → InvarGraph P → InvarGraph P → GraphDelta
  unfolding missing_from changed_signatures candidates pair_all edges cancel_moved_edges
  compute P before after =
      let before_symbols = symbols_by_id before.symbols in
      let after_symbols = symbols_by_id after.symbols in
      let removed = missing_from after_symbols before_symbols in
      let added = missing_from before_symbols after_symbols in
      let pairs =
        pair_all before_symbols after_symbols no_pairs (sort (candidates removed added)) in
      let before_edges = edges P before in
      let after_edges = edges P after in
      let only_after = retain (λ (e : EdgeRef). not (contains before_edges e)) after_edges in
      let only_before = retain (λ (e : EdgeRef). not (contains after_edges e)) before_edges in
      let (removed_edges, added_edges) = cancel_moved_edges only_before only_after in
      record {
        added_symbols =
            sort_by (λ (a b : Symbol). cmp a.id b.id)
              (retain (λ (s : Symbol). not (contains pairs.paired_after s.id)) added);
        removed_symbols =
            sort_by (λ (a b : Symbol). cmp a.id b.id)
              (retain (λ (s : Symbol). not (contains pairs.paired_before s.id)) removed);
        continuities =
            sort_by (λ (a b : Continuity). cmp a.before.id b.before.id) pairs.continuities;
        signature_changes =
            sort_by (λ (a b : SignatureChange). cmp a.before.id b.before.id)
              (changed_signatures after_symbols before_symbols);
        added_edges = added_edges;
        removed_edges = removed_edges;
      }
