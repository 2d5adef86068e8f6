-- ===== src/Incremental.antt =====
-- crates/openinvar-core/src/incremental.rs: one file's contribution is replaced by a new one.
use open_invar.Prelude.{
  ℕ, List, foldl, map, insert, remove, sort, length, if◌then◌else◌, list_ord, nat_ord,
}
use open_invar.Ir.{SymbolId, Symbol, FileIr}
use open_invar.Graph.{
  Backend, InvarGraph, add_symbol, add_relationship, remove_relationships_in_file, remove_file,
}

pub record IncrementalUpdateResult : Type 0 where
  pub removed_symbol_ids : List SymbolId
  pub added_symbol_ids : List SymbolId
  pub removed_relationships : ℕ
  pub added_relationships : ℕ

module _ (P : Backend) where
  -- What the file says of itself: re-exports, assertions and the counts of unbound references.
  unfoldable pub record_file : InvarGraph P → List SymbolId → FileIr → InvarGraph P
  record_file g removed_ids ir = record g {
    file_reexports = insert g.file_reexports ir.file ir.re_exports;
    assertions =
        foldl (λ m entry. insert m entry.0 entry.1) (foldl remove g.assertions removed_ids)
          ir.assertions;
    assertions_counted = insert g.assertions_counted ir.file ir.assertions_counted;
    unbound_references =
        if ir.references_counted
        then insert g.unbound_references ir.file ir.unbound_references
        else g.unbound_references;
    unbound_outside_repository =
        if ir.references_counted
        then insert g.unbound_outside_repository ir.file ir.unbound_outside_repository
        else g.unbound_outside_repository;
  }

  unfoldable pub replace_file_ir : InvarGraph P → FileIr → InvarGraph P × IncrementalUpdateResult
  unfolding record_file
  replace_file_ir g ir =
      let (unlinked, removed_relationships) = remove_relationships_in_file P g ir.file in
      let (cleared, removed_symbol_ids) = remove_file P unlinked ir.file in
      let recorded = record_file cleared removed_symbol_ids ir in
      let with_symbols = foldl (add_symbol P) recorded ir.symbols in
      (
        foldl (add_relationship P) with_symbols ir.relationships,
        record {
          removed_symbol_ids = removed_symbol_ids;
          added_symbol_ids = sort (map (λ (s : Symbol). s.id) ir.symbols);
          removed_relationships = removed_relationships;
          added_relationships = length ir.relationships;
        },
      )
