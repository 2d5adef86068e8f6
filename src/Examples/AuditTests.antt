-- ===== src/Examples/AuditTests.antt =====
-- The audit at concrete inputs.
use open_invar.Prelude.{
  ◌+◌, ◌≡◌, refl, ◌↔◌, inl, some, none, map, [], ◌∷◌, bytes, eqb, All, Any, In, length, arith,
  contains, sort_by, tree_insert, nat_ord, list_ord, get, set_insert,
}
use open_invar.Rules.{error}
use open_invar.Delta.{GraphDelta}
use open_invar.Audit.{Finding, Suppressed, AuditContext, Detector, high, in_scope, run}
use open_invar.Audit.Ids.{finding_id}
use open_invar.Audit.Callers.{all_detectors}
use open_invar.Ir.{Symbol, is_gate_safe}
use open_invar.Audit.Ids.Canonical.{finding_id-same}
use open_invar.Audit.Suppress.{Suppressions, parse, ids, reason_for}
use open_invar.Audit.Partition.{run-Reported, RaisedAs, Raised}
use open_invar.Examples.Sample.{backend, sample, symbol_at, main_id, lib_id, cli, core}

abbrev no_delta : GraphDelta
no_delta = record {
  added_symbols = [];
  removed_symbols = [];
  continuities = [];
  signature_changes = [];
  added_edges = [];
  removed_edges = [];
}

abbrev context : AuditContext backend
context = record { before = sample; after = sample; delta = no_delta; tier_one_files = cli ∷ [] }

abbrev found : Finding
found = record {
  id = bytes "test-tampering-1a2b3c4d";
  detector = bytes "test-tampering";
  severity = error;
  confidence = high;
  summary = [];
  file = cli;
  line = 3;
  evidence = [];
}

abbrev detector : Detector backend
detector = record {
  name = bytes "test-tampering";
  severity = error;
  confidence = high;
  describes = [];
  detect = λ c. found ∷ [];
}

abbrev allowed : Suppressions
allowed = (bytes "test-tampering-1a2b3c4d", bytes "the API changed") ∷ []

-- A file with a comment, an id with its reason, and a blank line.
parse_allowed :
    parse (bytes "# ignored\n test-tampering-1a2b3c4d # the API changed\r\n\n") ≡ allowed
unfolding parse tree_insert eqb
parse_allowed = refl

found-Raised : Raised backend context (detector ∷ []) found
unfolding contains in_scope eqb
found-Raised = inl (inl refl, refl)

run-Reported_example :
    let report = run backend (detector ∷ []) context allowed in
    (Any (λ h. h.id ≡ found.id) report.findings ↔ (
      (reason_for allowed found.id ≡ none)
      × RaisedAs backend context (detector ∷ []) allowed found.id))
    × (Any
          (λ (p : Suppressed). (p.finding.id ≡ found.id) × (p.reason ≡ bytes "the API changed"))
          report.suppressed
        ↔ ((reason_for allowed found.id ≡ some (bytes "the API changed"))
            × RaisedAs backend context (detector ∷ []) allowed found.id))
    × All (Raised backend context (detector ∷ [])) report.findings
    × All (λ (p : Suppressed). Raised backend context (detector ∷ []) p.finding) report.suppressed
    × (In found.id report.stale_suppressions ↔ (
        In found.id (ids allowed)
        × (¬ In found.id (map (λ (p : Suppressed). p.finding.id) report.suppressed))))
run-Reported_example =
    run-Reported backend context (detector ∷ []) allowed found.id (bytes "the API changed")

finding_id-same_example :
    (finding_id (bytes "orphan") (main_id ∷ lib_id ∷ main_id ∷ [])
      ≡ finding_id (bytes "orphan") (lib_id ∷ main_id ∷ []))
    × (length (finding_id (bytes "orphan") (main_id ∷ lib_id ∷ main_id ∷ []))
        ≡ length (bytes "orphan") + 9)
finding_id-same_example =
    finding_id-same (bytes "orphan") (main_id ∷ lib_id ∷ main_id ∷ []) (lib_id ∷ main_id ∷ [])
      (λ subject. ground arith)

-- Of no bytes, the hash is its start, `0x811c9dc5`, after one separator.
plain_id : finding_id (bytes "a") [] ≡ bytes "a-e40c292c"
unfolding finding_id sort_by
plain_id = refl

-- `core/lib.rs` is gone with its symbol, which `cli/main.rs` still calls.
abbrev lib_symbol : Symbol
lib_symbol = symbol_at lib_id (bytes "run") core

abbrev lib_removed : AuditContext backend
lib_removed = record {
  before = sample;
  after = record sample { symbols = (main_id, symbol_at main_id (bytes "main") cli) ∷ [] };
  delta = record no_delta { removed_symbols = lib_symbol ∷ [] };
  tier_one_files = core ∷ [];
}

detectors_found :
    map (λ (f : Finding). f.detector) (run backend (all_detectors backend) lib_removed []).findings
    ≡ bytes "contract-erosion" ∷ []
unfolding run all_detectors sort_by eqb get is_gate_safe set_insert contains
detectors_found = refl
