-- ===== src/RuleEval/Absence.antt =====
-- rule_eval.rs: the rules that claim an absence over the symbols: `requires-dependency`,
-- `no-orphans`, `requires-test` and `naming-convention`.
pub mod Verdicts
pub mod Orphans
pub mod Naming
pub mod Required
pub mod Tested
use open_invar.Prelude.{
  ℕ, ◌+◌, Bool, true, false, not, ◌&&◌, ◌||◌, Option, none, some, List, [], ◌∷◌, ◌++◌, map, foldl,
  Text, bytes, ltb, if◌then◌else◌, any, filter_map, values, contains, set_insert, sort, eqb,
  list_ord, nat_ord,
}
use open_invar.Ir.{SymbolId, Symbol, SymbolKind, file_module, symbol_kind_ord}
use open_invar.Graph.{Backend, InvarGraph}
use open_invar.Delta.{GraphDelta}
use open_invar.SymbolId.{kind_suffix}
use open_invar.RuleEval.Edges.{Glob, Edge, compile, scope_path}
use open_invar.RuleEval.Sweep.{Violation, violation_ord, Uncertainty, certain}

-- `symbol.kind == SymbolKind::Module && symbol.name == symbol.file`
unfoldable pub is_file_symbol : Symbol → Bool
is_file_symbol symbol = eqb symbol.kind file_module && eqb symbol.name symbol.file

-- What the loop of `requires-dependency` has seen.
pub record Seen : Type 0 where
  pub found : List SymbolId
  pub unproven : List SymbolId
  pub unresolved_edges : ℕ
  pub unresolved_files : List Text

-- What the loop of `no-orphans` and of `requires-test` has seen: the targets and the tests.
pub record Reached : Type 0 where
  pub targets : List SymbolId
  pub tests : List SymbolId
  pub structural_edges : ℕ
  pub structural_files : List Text

abbrev pub unseen : Seen
unseen = record { found = []; unproven = []; unresolved_edges = 0; unresolved_files = [] }

abbrev pub unreached : Reached
unreached = record { targets = []; tests = []; structural_edges = 0; structural_files = [] }

-- One unresolved edge anywhere turns an apparent absence into an uncertainty.
unfoldable pub absence : List Violation → Reached → List Violation × Uncertainty
absence [] r = ([], certain)
absence (v ∷ vs) r =
    if ltb 0 r.structural_edges
    then ([], record { unresolved_edges = r.structural_edges; files = r.structural_files })
    else (v ∷ vs, certain)

-- The loop of `no-orphans` over the edges.
unfoldable pub orphan_turn : Reached → Edge → Reached
orphan_turn r edge =
    if edge.gate_safe then record r { targets = set_insert edge.to r.targets } else record r {
      structural_edges = r.structural_edges + 1;
      structural_files = set_insert edge.file r.structural_files;
    }

-- The loop of `requires-test` over the edges.
unfoldable pub test_turn : Reached → Edge → Reached
test_turn r edge =
    let is_test = eqb edge.kind_name (bytes "tests") in
    record {
      targets = if is_test && edge.gate_safe then set_insert edge.to r.targets else r.targets;
      tests = if is_test then set_insert edge.from r.tests else r.tests;
      structural_edges = if edge.gate_safe then r.structural_edges else r.structural_edges + 1;
      structural_files =
          if edge.gate_safe then r.structural_files else set_insert edge.file r.structural_files;
    }

-- Whether `only` lets a kind through.
unfoldable pub only_allows : Option Text → Text → Bool
only_allows none kind = true
only_allows (some only) kind = eqb kind only

-- `new_only` narrows to the symbols that the change added, where there is a change.
unfoldable pub narrowed : Bool → Option GraphDelta → Option (List SymbolId)
narrowed false delta = none
narrowed true none = none
narrowed true (some delta) = some (map (λ (s : Symbol). s.id) delta.added_symbols)

-- "'{name}' references nothing matching '{to}', which this scope requires"
unfoldable pub missing : Text → Symbol → Violation
missing to symbol = record {
  file = symbol.file;
  line = symbol.line_start;
  symbol = symbol.id;
  detail =
      bytes "'"
      ++ (symbol.name
          ++ (bytes "' references nothing matching '"
              ++ (to ++ bytes "', which this scope requires")));
}

-- "{kind} '{name}' is referenced by nothing"
unfoldable pub orphan : Symbol → Violation
unfolding kind_suffix
orphan symbol = record {
  file = symbol.file;
  line = symbol.line_start;
  symbol = symbol.id;
  detail =
      kind_suffix symbol.kind
      ++ (bytes " '" ++ (symbol.name ++ bytes "' is referenced by nothing"));
}

-- "{kind} '{name}' is not reached by any test"
unfoldable pub untested : Symbol → Violation
unfolding kind_suffix
untested symbol = record {
  file = symbol.file;
  line = symbol.line_start;
  symbol = symbol.id;
  detail =
      kind_suffix symbol.kind
      ++ (bytes " '" ++ (symbol.name ++ bytes "' is not reached by any test"));
}

-- "{kind} '{name}' does not match '{pattern}'"
unfoldable pub misnamed : Text → Symbol → Violation
unfolding kind_suffix
misnamed pattern symbol = record {
  file = symbol.file;
  line = symbol.line_start;
  symbol = symbol.id;
  detail =
      kind_suffix symbol.kind
      ++ (bytes " '" ++ (symbol.name ++ (bytes "' does not match '" ++ (pattern ++ bytes "'"))));
}

module _ (G : Glob) (P : Backend) (g : InvarGraph P) where
  unfoldable pub requires_turn : Text → Text → Seen → Edge → Seen
  requires_turn from to s edge = elim (scope_path P g edge.from) [
    | none ↦ s
    | some source_path ↦
        if not (G.matches (compile G from) source_path)
        then s
        else if not edge.gate_safe
        then record s {
          unproven = set_insert edge.from s.unproven;
          unresolved_edges = s.unresolved_edges + 1;
          unresolved_files = set_insert edge.file s.unresolved_files;
        }
        else elim (scope_path P g edge.to) [
          | none ↦ s
          | some target_path ↦
              if G.matches (compile G to) target_path
              then record s { found = set_insert edge.from s.found }
              else s
        ]
  ]

  unfoldable pub requires_breach : Text → Text → Seen → Symbol → Option Violation
  unfolding is_file_symbol
  requires_breach from to s symbol =
      if not (G.matches (compile G from) symbol.file)
      then none
      else if is_file_symbol symbol
      then none
      else if contains s.found symbol.id || contains s.unproven symbol.id
      then none
      else some (missing to symbol)

  unfoldable pub requires_dependency : List Edge → Text → Text → List Violation × Uncertainty
  unfolding requires_turn requires_breach
  requires_dependency all_edges from to =
      let s = foldl (requires_turn from to) unseen all_edges in
      (
        sort (filter_map (requires_breach from to s) (values g.symbols)),
        record { unresolved_edges = s.unresolved_edges; files = s.unresolved_files },
      )

  unfoldable pub orphan_breach : Text → List Text → Reached → Symbol → Option Violation
  unfolding is_file_symbol
  orphan_breach scope roots r symbol =
      if not (G.matches (compile G scope) symbol.file)
      then none
      else if any (λ root. G.matches (compile G root) symbol.file) roots
      then none
      else if is_file_symbol symbol
      then none
      else if contains r.targets symbol.id
      then none
      else some (orphan symbol)

  unfoldable pub no_orphans : List Edge → Text → List Text → List Violation × Uncertainty
  unfolding orphan_turn orphan_breach absence
  no_orphans all_edges scope roots =
      let r = foldl orphan_turn unreached all_edges in
      absence (sort (filter_map (orphan_breach scope roots r) (values g.symbols))) r

  unfoldable pub test_breach :
      Text → Option Text → Option (List SymbolId) → Reached → Symbol → Option Violation
  unfolding is_file_symbol only_allows
  test_breach symbols only added r symbol =
      if not (G.matches (compile G symbols) symbol.file)
      then none
      else if not (only_allows only (kind_suffix symbol.kind))
      then none
      else if is_file_symbol symbol
      then none
      else if elim added [ none ↦ false | some ids ↦ not (contains ids symbol.id) ]
      then none
      else if contains r.targets symbol.id || contains r.tests symbol.id
      then none
      else some (untested symbol)

  unfoldable pub requires_test :
      List Edge → Option GraphDelta → Text → Option Text → Bool → List Violation × Uncertainty
  unfolding test_turn test_breach absence narrowed
  requires_test all_edges delta symbols only new_only =
      let r = foldl test_turn unreached all_edges in
      absence
        (sort
          (filter_map (test_breach symbols only (narrowed new_only delta) r) (values g.symbols)))
        r

  unfoldable pub naming_breach : Text → Text → Option Text → Symbol → Option Violation
  unfolding is_file_symbol only_allows
  naming_breach symbols pattern only symbol =
      if not (G.matches (compile G symbols) symbol.file)
      then none
      else if not (only_allows only (kind_suffix symbol.kind))
      then none
      else if is_file_symbol symbol
      then none
      else if G.matches (compile G pattern) symbol.name
      then none
      else some (misnamed pattern symbol)

  unfoldable pub naming_convention : Text → Text → Option Text → List Violation
  unfolding naming_breach
  naming_convention symbols pattern only =
      sort (filter_map (naming_breach symbols pattern only) (values g.symbols))
