-- ===== src/Audit/Callers.antt =====
-- crates/openinvar-core/src/audit/detectors.rs: the detectors that look at who refers to a symbol.
use open_invar.Prelude.{
  ℕ, Bool, true, false, not, ◌&&◌, ◌||◌, if◌then◌else◌, Option, none, some, List, [], ◌∷◌, ◌++◌,
  any, foldl, map, filter_map, length, Map, Text, bytes, display, get, keys, contains_key,
  tree_insert, set_insert, eqb, nat_ord, list_ord, pair_ord,
}
use open_invar.Rules.{warn, error}
use open_invar.Ir.{SymbolId, Symbol, tests, is_gate_safe, relationship_kind_ord}
use open_invar.Petgraph.{EdgeReference, incoming, outgoing}
use open_invar.Graph.{Backend, InvarGraph, RelationshipMeta}
use open_invar.Audit.{high, Finding, AuditContext, Detector}
use open_invar.Audit.Ids.{finding_id}
use open_invar.Audit.Detectors.{name_of, quoted, test_tampering, assertion_removal}

abbrev pub CallSite : Type 0
CallSite = SymbolId × (Text × ℕ)

module _ (P : Backend) where
  -- The body of the loop over the edges to a removed symbol.
  unfoldable pub with_referrer :
      AuditContext P → List CallSite → EdgeReference RelationshipMeta → List CallSite
  with_referrer ctx sites e =
      let kept : List CallSite = elim (P.node_weight ctx.before.graph e.source) [
        | none ↦ sites
        | some from ↦
            if contains_key ctx.after.symbols from
            then set_insert (from, (e.weight.file, e.weight.line)) sites
            else sites
      ] in
      if not (is_gate_safe e.weight.resolution) || eqb e.weight.kind tests then sites else kept

  abbrev pub erosion_name : Text
  erosion_name = bytes "contract-erosion"

  unfoldable pub erosion : AuditContext P → Symbol → List CallSite → Finding
  unfolding finding_id name_of
  erosion ctx removed sites = record {
    id = finding_id erosion_name (removed.id ∷ map (λ (s : CallSite). s.0) sites);
    detector = erosion_name;
    severity = error;
    confidence = high;
    summary =
        quoted removed.name
        ++ bytes " was removed, but "
        ++ display (length sites)
        ++ bytes " surviving reference(s) still point at it";
    file = removed.file;
    line = removed.line_start;
    evidence =
        map
          (λ (s : CallSite). record {
            file = s.1.0;
            line = s.1.1;
            detail = quoted (name_of P ctx.before s.0) ++ bytes " still refers to it";
          })
          sites;
  }

  -- The body of the loop over the removed symbols.
  unfoldable pub eroded : AuditContext P → Symbol → Option Finding
  unfolding with_referrer erosion
  eroded ctx removed = elim (get ctx.before.node_index removed.id) [
    | none ↦ none
    | some node ↦
        elim (foldl (with_referrer ctx) [] (P.edges_directed ctx.before.graph node incoming)) [
          | [] ↦ none
          | site ∷ sites ↦ some (erosion ctx removed (site ∷ sites))
        ]
  ]

  unfoldable pub contract_erosion : Detector P
  unfolding eroded
  contract_erosion = record {
    name = erosion_name;
    severity = error;
    confidence = high;
    describes = bytes "a symbol was removed while a surviving caller still referred to it";
    detect = λ ctx. filter_map (eroded ctx) ctx.delta.removed_symbols;
  }

  unfoldable pub is_covered_by : InvarGraph P → SymbolId → SymbolId → Bool
  is_covered_by g from target = elim (get g.node_index from) [
    | none ↦ false
    | some node ↦
        any
          (λ (e : EdgeReference RelationshipMeta).
            eqb e.weight.kind tests
            && elim (P.node_weight g.graph e.target) [ none ↦ false | some t ↦ eqb t target ])
          (P.edges_directed g.graph node outgoing)
  ]

  -- The loop over the edges to an added symbol: the tests among its callers, and whether it stopped at another.
  unfoldable pub scan_callers :
      InvarGraph P
      → SymbolId
      → Map SymbolId (Text × ℕ)
      → List (EdgeReference RelationshipMeta)
      → Map SymbolId (Text × ℕ) × Bool
  unfolding is_covered_by
  scan_callers g added from_tests [] = (from_tests, false)
  scan_callers g added from_tests (e ∷ es) = elim (P.node_weight g.graph e.source) [
    | none ↦ scan_callers g added from_tests es
    | some from ↦
        let tested =
          scan_callers g added (tree_insert from_tests from (e.weight.file, e.weight.line)) es in
        let skipped = scan_callers g added from_tests es in
        if eqb e.weight.kind tests
        then tested
        else if contains_key from_tests from || is_covered_by g from added
        then skipped
        else (from_tests, true)
  ]

  abbrev pub dead_name : Text
  dead_name = bytes "dead-on-arrival"

  unfoldable pub dead : AuditContext P → Symbol → Map SymbolId (Text × ℕ) → Finding
  unfolding finding_id name_of
  dead ctx added from_tests = record {
    id = finding_id dead_name (added.id ∷ keys from_tests);
    detector = dead_name;
    severity = warn;
    confidence = high;
    summary = quoted added.name ++ bytes " is new and only tests refer to it";
    file = added.file;
    line = added.line_start;
    evidence =
        map
          (λ (s : CallSite). record {
            file = s.1.0;
            line = s.1.1;
            detail = quoted (name_of P ctx.after s.0) ++ bytes " is the only kind of caller";
          })
          from_tests;
  }

  -- The body of the loop over the added symbols.
  unfoldable pub arrived_dead : AuditContext P → Symbol → Option Finding
  unfolding scan_callers dead
  arrived_dead ctx added = elim (get ctx.after.node_index added.id) [
    | none ↦ none
    | some node ↦
        let (from_tests, from_anything_else) =
          scan_callers ctx.after added.id [] (P.edges_directed ctx.after.graph node incoming) in
        let only_tests : Option Finding = elim from_tests [
          | [] ↦ none
          | t ∷ ts ↦ some (dead ctx added (t ∷ ts))
        ] in
        if from_anything_else then none else only_tests
  ]

  unfoldable pub dead_on_arrival : Detector P
  unfolding arrived_dead
  dead_on_arrival = record {
    name = dead_name;
    severity = warn;
    confidence = high;
    describes = bytes "a new symbol that only tests refer to";
    detect = λ ctx. filter_map (arrived_dead ctx) ctx.delta.added_symbols;
  }

  -- `all()`
  unfoldable pub all_detectors : List (Detector P)
  unfolding test_tampering assertion_removal contract_erosion dead_on_arrival
  all_detectors = test_tampering P ∷ assertion_removal P ∷ contract_erosion ∷ dead_on_arrival ∷ []
