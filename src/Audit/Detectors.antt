-- ===== src/Audit/Detectors.antt =====
-- crates/openinvar-core/src/audit/detectors.rs: what the detectors share, and the two detectors that look
-- at the tests that cover a symbol.
use open_invar.Prelude.{
  ℕ, ◌-◌, leb, not, ◌||◌, if◌then◌else◌, none, some, List, [], ◌∷◌, ◌++◌, foldl, filter_map, Text,
  bytes, display, get, contains_key, unwrap_or, contains, set_insert, eqb, nat_ord, list_ord,
  pair_ord,
}
use open_invar.Rules.{error}
use open_invar.Ir.{SymbolId, Symbol, tests, relationship_kind_ord}
use open_invar.Petgraph.{EdgeReference}
use open_invar.Graph.{Backend, InvarGraph, RelationshipMeta}
use open_invar.Delta.{GraphDelta, Continuity, SignatureChange, EdgeRef}
use open_invar.Audit.{high, Finding, AuditContext, Detector, assertions_comparable}
use open_invar.Audit.Ids.{finding_id}

unfoldable pub changed_ids : GraphDelta → List SymbolId
changed_ids delta =
    let symbols =
      foldl (λ ids (s : Symbol). set_insert s.id ids) []
        (delta.added_symbols ++ delta.removed_symbols) in
    let continued =
      foldl (λ ids (c : Continuity). set_insert c.after.id (set_insert c.before.id ids)) symbols
        delta.continuities in
    let signed =
      foldl (λ ids (c : SignatureChange). set_insert c.after.id (set_insert c.before.id ids))
        continued delta.signature_changes in
    foldl (λ ids (e : EdgeRef). set_insert e.from ids) signed
      (delta.added_edges ++ delta.removed_edges)

-- A name between quotes.
abbrev pub quoted : Text → Text
quoted name = bytes "'" ++ name ++ bytes "'"

module _ (P : Backend) where
  -- The pairs of a test and a symbol that it covers.
  unfoldable pub with_coverage :
      InvarGraph P
      → List (SymbolId × SymbolId)
      → EdgeReference RelationshipMeta
      → List (SymbolId × SymbolId)
  with_coverage g pairs e =
      let covered : List (SymbolId × SymbolId) = elim (P.node_weight g.graph e.source) [
        | none ↦ pairs
        | some from ↦ elim (P.node_weight g.graph e.target) [
          | none ↦ pairs
          | some to ↦ set_insert (from, to) pairs
        ]
      ] in
      if eqb e.weight.kind tests then covered else pairs

  unfoldable pub covered_pairs : InvarGraph P → List (SymbolId × SymbolId)
  unfolding with_coverage
  covered_pairs g = foldl (with_coverage g) [] (P.edge_references g.graph)

  unfoldable pub file_of : InvarGraph P → SymbolId → Text
  file_of g id = elim (get g.symbols id) [ none ↦ [] | some s ↦ s.file ]

  unfoldable pub line_of : InvarGraph P → SymbolId → ℕ
  line_of g id = elim (get g.symbols id) [ none ↦ 0 | some s ↦ s.line_start ]

  unfoldable pub name_of : InvarGraph P → SymbolId → Text
  name_of g id = elim (get g.symbols id) [ none ↦ id | some s ↦ s.name ]

  unfoldable pub assertions_of : InvarGraph P → SymbolId → ℕ
  assertions_of g id = unwrap_or (get g.assertions id) 0

  abbrev pub tampering_name : Text
  tampering_name = bytes "test-tampering"

  -- The finding about a test that does not cover a symbol any more.
  unfoldable pub tampering : AuditContext P → SymbolId → SymbolId → Finding
  unfolding finding_id file_of line_of name_of
  tampering ctx test covered =
      let file = file_of ctx.before test in
      let name = name_of ctx.before test in
      record {
        id = finding_id tampering_name (test ∷ covered ∷ []);
        detector = tampering_name;
        severity = error;
        confidence = high;
        summary =
            file
            ++ bytes " stopped covering "
            ++ quoted (name_of ctx.before covered)
            ++ bytes ", which changed in the same diff";
        file = file;
        line = line_of ctx.before test;
        evidence =
            record {
              file = file;
              line = line_of ctx.before test;
              detail =
                  if contains_key ctx.after.symbols test
                  then quoted name ++ bytes " no longer references it"
                  else quoted name ++ bytes " was removed";
            }
            ∷ record {
              file = file_of ctx.after covered;
              line = line_of ctx.after covered;
              detail = quoted (name_of ctx.after covered) ++ bytes " changed in this diff";
            }
            ∷ [];
      }

  unfoldable pub detect_tampering : AuditContext P → List Finding
  unfolding changed_ids covered_pairs tampering
  detect_tampering ctx =
      filter_map
        (λ (test, covered).
          if contains (covered_pairs ctx.after) (test, covered)
          then none
          else if not (contains_key ctx.after.symbols covered)
              || not (contains (changed_ids ctx.delta) covered)
          then none
          else some (tampering ctx test covered))
        (covered_pairs ctx.before)

  unfoldable pub test_tampering : Detector P
  unfolding detect_tampering
  test_tampering = record {
    name = tampering_name;
    severity = error;
    confidence = high;
    describes = bytes "a test stopped covering a symbol that changed in the same diff";
    detect = detect_tampering;
  }

  abbrev pub removal_name : Text
  removal_name = bytes "assertion-removal"

  -- The finding about a test that lost assertions.
  unfoldable pub assertions_lost : AuditContext P → SymbolId → SymbolId → Finding
  unfolding finding_id file_of line_of name_of assertions_of
  assertions_lost ctx test covered =
      let file = file_of ctx.after test in
      let before_count = assertions_of ctx.before test in
      let after_count = assertions_of ctx.after test in
      record {
        id = finding_id removal_name (test ∷ covered ∷ []);
        detector = removal_name;
        severity = error;
        confidence = high;
        summary =
            file
            ++ bytes " still covers "
            ++ quoted (name_of ctx.after covered)
            ++ bytes " but lost "
            ++ display (before_count - after_count)
            ++ bytes " assertion(s) in the diff that changed it";
        file = file;
        line = line_of ctx.after test;
        evidence =
            record {
              file = file;
              line = line_of ctx.after test;
              detail =
                  quoted (name_of ctx.after test)
                  ++ bytes " went from "
                  ++ display before_count
                  ++ bytes " assertion(s) to "
                  ++ display after_count;
            }
            ∷ record {
              file = file_of ctx.after covered;
              line = line_of ctx.after covered;
              detail =
                  quoted (name_of ctx.after covered)
                  ++ bytes " changed in this diff and is still reported as covered";
            }
            ∷ [];
      }

  unfoldable pub detect_removal : AuditContext P → List Finding
  unfolding changed_ids covered_pairs file_of assertions_of assertions_lost assertions_comparable
  detect_removal ctx =
      filter_map
        (λ (test, covered).
          if not (contains (covered_pairs ctx.after) (test, covered))
          then none
          else if not (contains_key ctx.after.symbols test)
              || not (contains_key ctx.after.symbols covered)
          then none
          else if not (contains (changed_ids ctx.delta) covered)
          then none
          else if not
              (assertions_comparable P ctx (file_of ctx.before test) (file_of ctx.after test))
          then none
          else if leb (assertions_of ctx.before test) (assertions_of ctx.after test)
          then none
          else some (assertions_lost ctx test covered))
        (covered_pairs ctx.before)

  unfoldable pub assertion_removal : Detector P
  unfolding detect_removal
  assertion_removal = record {
    name = removal_name;
    severity = error;
    confidence = high;
    describes = bytes "a test lost assertions while still covering a symbol that changed";
    detect = detect_removal;
  }
