-- ===== src/Examples/RuleTests.antt =====
-- Rules on the sample repository, and on one whose only symbol is the one made for a file.
use open_invar.Prelude.{
  ℕ, ◌≡◌, refl, ◌↔◌, inl, true, false, not, none, some, List, [], ◌∷◌, Text, bytes, Any, All,
  values, count_if, sort_by, insert_by, get, arith, eqb,
}
use open_invar.Ir.{rust, is_gate_safe}
use open_invar.Graph.{InvarGraph}
use open_invar.Delta.{GraphDelta}
use open_invar.SymbolId.{module_symbol}
use open_invar.Rules.{
  Rule, RuleKind, error, forbid_dependency, forbid_reference, layers, independence, no_orphans,
  requires_test, naming_convention,
}
use open_invar.RuleEval.Edges.{Edge, edges, edge_rows, edge_row, compile, scope_path, is_dependency}
use open_invar.RuleEval.Sweep.{sweep, Verdict, satisfied, violated, inconclusive}
use open_invar.RuleEval.Evaluate.{evaluate_one, findings_of}
use open_invar.RuleEval.Evaluate.Verdicts.{IsCoherent, evaluate_one-IsCoherent}
use open_invar.RuleEval.Forbid.Verdicts.{
  Crosses, Clears, Climbs, Couples, forbid_dependency-verdict, forbid_reference-verdict,
  layers-violated, independence-violated,
}
use open_invar.RuleEval.Forbid.{forbid_edges}
use open_invar.RuleEval.Absence.Orphans.{Orphan, no_orphans-verdict}
use open_invar.RuleEval.Absence.Tested.{Untested, requires_test-verdict, requires_test-new_only}
use open_invar.RuleEval.Absence.Naming.{
  Misnamed, naming_convention-verdict, naming_convention-module_symbol,
}
use open_invar.Examples.ListGraph.{prefix_glob}
use open_invar.Examples.Sample.{
  backend, sample, symbol_at, main_id, lib_id, misc_id, misc, core, cli,
}
use open_invar.Delta.Compute.Keyed.{IsKeyed}
use open_invar.Examples.DeltaTests.{sample-IsKeyed}
use mathlib.Core.List.{Permᴰ}
use open_invar.Prelude.{◌+◌, ◌<◌, ◌≤◌, tree_insert, set_insert}
use open_invar.SymbolId.{is_external_package}
use open_invar.RuleEval.Fan
use open_invar.Ir.{SymbolId, imports, calls, resolved, structural}
use open_invar.Rules.{Rules, max_fan_in, requires_dependency}
use open_invar.RuleEval.Absence.Required.{Lacks, Wavers, requires_dependency-verdict}
use open_invar.RuleEval.Evaluate.{evaluate, should_fail}
use open_invar.RuleEval.Evaluate.Gate.{Blocks, should_fail-evaluate}
use open_invar.RuleEval.Evaluate.Order.{evaluate-order}
use open_invar.RuleEval.Fan.Inbound.{into, max_fan_in-verdict}
use open_invar.Examples.Sample.{meta_of, core, misc}

-- No component is reported: the rules under test are not `no-cycles`.
abbrev pub no_scc : ℕ → List (ℕ × ℕ) → List (List ℕ)
no_scc n pairs = []

abbrev rule_for : RuleKind → Rule
rule_for kind = record { name = bytes "r"; kind = kind; severity = error }

abbrev verdict_for : RuleKind → Verdict
verdict_for kind =
    (evaluate_one prefix_glob no_scc backend sample (rule_for kind) (edges backend sample)
      none).verdict

abbrev core_dir : Text
core_dir = bytes "core/"

abbrev cli_dir : Text
cli_dir = bytes "cli/"

abbrev dirs : List Text
dirs = cli_dir ∷ core_dir ∷ []

core_imports_cli : verdict_for (forbid_dependency core_dir cli_dir) ≡ violated
unfolding evaluate_one findings_of forbid_edges sweep edges edge_row compile scope_path
    is_dependency is_gate_safe get eqb insert_by sort_by
core_imports_cli = refl

misc_is_open : verdict_for (forbid_reference (bytes "misc/") cli_dir) ≡ inconclusive
unfolding evaluate_one findings_of forbid_edges sweep edges edge_row compile scope_path
    is_dependency is_gate_safe get eqb insert_by sort_by
misc_is_open = refl

forbid_dependency-verdict_example :
    ((verdict_for (forbid_dependency core_dir cli_dir) ≡ violated)
      ↔ Any (Crosses prefix_glob backend sample core_dir cli_dir true) (edge_rows backend sample))
    × ((verdict_for (forbid_dependency core_dir cli_dir) ≡ satisfied)
        ↔ All (Clears prefix_glob backend sample core_dir cli_dir true) (edge_rows backend sample))
forbid_dependency-verdict_example =
    forbid_dependency-verdict prefix_glob no_scc backend sample (bytes "r") error none core_dir
      cli_dir

forbid_reference-verdict_example :
    ((verdict_for (forbid_reference cli_dir core_dir) ≡ violated)
      ↔ Any (Crosses prefix_glob backend sample cli_dir core_dir false) (edge_rows backend sample))
    × ((verdict_for (forbid_reference cli_dir core_dir) ≡ satisfied)
        ↔ All (Clears prefix_glob backend sample cli_dir core_dir false) (edge_rows backend sample))
forbid_reference-verdict_example =
    forbid_reference-verdict prefix_glob no_scc backend sample (bytes "r") error none cli_dir
      core_dir

layers-violated_example :
    (verdict_for (layers dirs) ≡ violated)
    ↔ Any (Climbs prefix_glob backend sample dirs) (edge_rows backend sample)
layers-violated_example =
    layers-violated prefix_glob no_scc backend sample (bytes "r") error none dirs

independence-violated_example :
    (verdict_for (independence dirs) ≡ violated)
    ↔ Any (Couples prefix_glob backend sample dirs) (edge_rows backend sample)
independence-violated_example =
    independence-violated prefix_glob no_scc backend sample (bytes "r") error none dirs

evaluate_one-IsCoherent_example : IsCoherent (
    evaluate_one prefix_glob no_scc backend sample
      (rule_for (layers dirs))
      (edges backend sample)
      none)
evaluate_one-IsCoherent_example =
    evaluate_one-IsCoherent prefix_glob no_scc backend sample (rule_for (layers dirs))
      (edges backend sample) none

no_orphans-verdict_example :
    ((verdict_for (no_orphans core_dir []) ≡ satisfied) ↔ (
      ¬ Any
        (Orphan prefix_glob backend sample core_dir [] (edges backend sample))
        (values sample.symbols)))
    × ((verdict_for (no_orphans core_dir []) ≡ violated) ↔ (
        Any
          (Orphan prefix_glob backend sample core_dir [] (edges backend sample))
          (values sample.symbols)
        × (count_if (λ (e : Edge). not e.gate_safe) (edges backend sample) ≡ 0)))
no_orphans-verdict_example =
    no_orphans-verdict prefix_glob no_scc backend sample (rule_for (no_orphans core_dir []))
      (edges backend sample) none core_dir [] refl

requires_test-verdict_example :
    ((verdict_for (requires_test core_dir none false) ≡ satisfied) ↔ (
      ¬ Any
        (Untested prefix_glob backend sample core_dir none none (edges backend sample))
        (values sample.symbols)))
    × ((verdict_for (requires_test core_dir none false) ≡ violated) ↔ (
        Any
          (Untested prefix_glob backend sample core_dir none none (edges backend sample))
          (values sample.symbols)
        × (count_if (λ (e : Edge). not e.gate_safe) (edges backend sample) ≡ 0)))
requires_test-verdict_example =
    requires_test-verdict prefix_glob no_scc backend sample
      (rule_for (requires_test core_dir none false)) (edges backend sample) core_dir none none refl

abbrev one_added : GraphDelta
one_added = record {
  added_symbols = symbol_at main_id (bytes "main") cli ∷ [];
  removed_symbols = [];
  continuities = [];
  signature_changes = [];
  added_edges = [];
  removed_edges = [];
}

abbrev verdict_on_change : RuleKind → Verdict
verdict_on_change kind =
    (evaluate_one prefix_glob no_scc backend sample (rule_for kind) (edges backend sample)
      (some one_added)).verdict

requires_test-new_only_example :
    ((verdict_on_change (requires_test cli_dir none true) ≡ satisfied) ↔ (
      ¬ Any
        (Untested prefix_glob backend sample cli_dir none
          (some (main_id ∷ []))
          (edges backend sample))
        (values sample.symbols)))
    × ((verdict_on_change (requires_test cli_dir none true) ≡ violated) ↔ (
        Any
          (Untested prefix_glob backend sample cli_dir none
            (some (main_id ∷ []))
            (edges backend sample))
          (values sample.symbols)
        × (count_if (λ (e : Edge). not e.gate_safe) (edges backend sample) ≡ 0)))
requires_test-new_only_example =
    requires_test-new_only prefix_glob no_scc backend sample
      (rule_for (requires_test cli_dir none true)) (edges backend sample) cli_dir none one_added
      refl

naming_convention-verdict_example :
    ((verdict_for (naming_convention core_dir (bytes "go_") none) ≡ violated)
      ↔ Any
          (Misnamed prefix_glob backend sample core_dir (bytes "go_") none)
          (values sample.symbols))
    × ((verdict_for (naming_convention core_dir (bytes "go_") none) ≡ satisfied) ↔ (
        ¬ Any
          (Misnamed prefix_glob backend sample core_dir (bytes "go_") none)
          (values sample.symbols)))
naming_convention-verdict_example =
    naming_convention-verdict prefix_glob no_scc backend sample
      (rule_for (naming_convention core_dir (bytes "go_") none)) (edges backend sample) none
      core_dir (bytes "go_") none refl

-- The graph of one file without declarations.
abbrev bare_file : InvarGraph backend
bare_file = record sample {
  symbols = (bytes "cli/main.rs::module::module", module_symbol cli rust) ∷ [];
}

abbrev go_names : RuleKind
go_names = naming_convention cli_dir (bytes "go_") none

naming_convention-module_symbol_example :
    (evaluate_one prefix_glob no_scc backend bare_file (rule_for go_names) [] none).verdict
    ≡ violated
unfolding compile
naming_convention-module_symbol_example =
    naming_convention-module_symbol prefix_glob no_scc backend bare_file (rule_for go_names) [] none
      cli_dir (bytes "go_") none refl cli rust refl refl refl (ground arith) (inl refl)

abbrev many_in : RuleKind
many_in = max_fan_in 1

max_fan_in-verdict_example :
    ((verdict_for many_in ≡ violated)
      ↔ ((id : SymbolId) × (1 < count_if (into true id) (edges backend sample))))
    × ((verdict_for many_in ≡ satisfied) ↔ (
        (id : SymbolId)
        → count_if (into true id) (edges backend sample)
            + count_if (into false id) (edges backend sample)
          ≤ 1))
max_fan_in-verdict_example =
    max_fan_in-verdict prefix_glob no_scc backend sample (rule_for many_in) (edges backend sample)
      none 1 refl

lib_has_two : verdict_for many_in ≡ violated
unfolding evaluate_one findings_of edges edge_row is_gate_safe get eqb insert_by sort_by
    Fan.max_fan_in is_external_package tree_insert set_insert
lib_has_two = refl

abbrev strict : Rules
strict = record { rules = rule_for many_in ∷ []; suppress = [] }

should_fail-evaluate_example :
    (should_fail (evaluate prefix_glob no_scc backend sample strict none) ≡ true)
    ↔ Any
        (Blocks prefix_glob no_scc backend sample (edges backend sample) none)
        (rule_for many_in ∷ [])
should_fail-evaluate_example = should_fail-evaluate prefix_glob no_scc backend sample strict none

-- The sample with its two first edges in the other order.
abbrev reordered : InvarGraph backend
reordered = record sample {
  graph = record sample.graph {
    links =
        record { source = 0; target = 1; weight = meta_of calls resolved cli 5 }
        ∷ record { source = 0; target = 1; weight = meta_of imports resolved cli 1 }
        ∷ record { source = 1; target = 0; weight = meta_of imports resolved core 2 }
        ∷ record { source = 2; target = 2; weight = meta_of calls structural misc 9 }
        ∷ [];
  };
  symbols =
      (lib_id, symbol_at lib_id (bytes "run") core)
      ∷ (main_id, symbol_at main_id (bytes "main") cli)
      ∷ (misc_id, symbol_at misc_id (bytes "x") misc)
      ∷ [];
}

reordered-IsKeyed : IsKeyed reordered.symbols
unfolding get eqb
reordered-IsKeyed = ((refl, refl), ((refl, refl), ((refl, refl), tt)))

reordered-Perm : Permᴰ (edge_rows backend sample) (edge_rows backend reordered)
unfolding edge_row
reordered-Perm = Permᴰ.swap refl refl

evaluate-order_example :
    evaluate prefix_glob no_scc backend sample strict none
    ≡ evaluate prefix_glob no_scc backend reordered strict none
evaluate-order_example =
    evaluate-order prefix_glob no_scc backend sample reordered strict none sample-IsKeyed
      reordered-IsKeyed (Permᴰ.swap refl refl) reordered-Perm

requires_dependency-verdict_example :
    ((verdict_for (requires_dependency core_dir cli_dir) ≡ violated)
      ↔ Any
          (Lacks prefix_glob backend sample core_dir cli_dir (edges backend sample))
          (values sample.symbols))
    × ((verdict_for (requires_dependency core_dir cli_dir) ≡ satisfied) ↔ (
        (¬ Any
          (Lacks prefix_glob backend sample core_dir cli_dir (edges backend sample))
          (values sample.symbols))
        × (¬ Any (Wavers prefix_glob backend sample core_dir cli_dir) (edges backend sample))))
requires_dependency-verdict_example =
    requires_dependency-verdict prefix_glob no_scc backend sample
      (rule_for (requires_dependency core_dir cli_dir)) (edges backend sample) none core_dir cli_dir
      refl
