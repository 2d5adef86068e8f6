-- ===== src/Rules/Build.antt =====
-- crates/openinvar-core/src/rules.rs: a rule of a file, and the whole file. The toml crate reads the text
-- into raw rules.
pub mod Meaning
pub mod Accepted
use open_invar.Prelude.{
  is_blank, ℕ, ◌+◌, Bool, true, false, if◌then◌else◌, Option, none, some, List, [], ◌∷◌, ◌++◌, Text,
  bytes, display, eqb, unwrap_or, contains, set_insert, list_ord, nat_ord, ◌⊎◌, inl, inr,
}
use open_invar.Rules.{
  Rule, Rules, RuleKind, Severity, default_severity, file_level, module_level, CycleLevel,
  forbid_dependency, forbid_reference, no_field_removal, max_fan_in, max_fan_out, layers,
  independence, no_cycles, requires_dependency, no_orphans, requires_test, naming_convention,
}
use open_invar.Rules.Raw.{
  RuleError, syntax, invalid, Checked, accepted, rejected, and_then, RawRule, RawFile, known_kinds,
  join_commas, require, symbol_kind_filter, positive_threshold, check_glob, check_glob_list,
  check_roots,
}
use open_invar.RuleEval.Edges.{Glob}

-- "Expected one of: …"
abbrev pub expected_kinds : Text
expected_kinds = bytes " Expected one of: " ++ join_commas known_kinds

unfoldable pub cycle_level : Text → Option Text → Checked CycleLevel
cycle_level rule none = accepted file_level
cycle_level rule (some level) =
    if eqb level (bytes "file")
    then accepted file_level
    else if eqb level (bytes "module")
    then accepted module_level
    else if eqb level (bytes "symbol")
    then rejected (
        invalid rule (
          bytes
            "'symbol' is not a cycle level: mutual recursion between functions is ordinary correct code. Use 'file' or 'module'."))
    else rejected (
        invalid rule (bytes "unknown level '" ++ (level ++ bytes "'. Expected 'file' or 'module'")))

module _ (G : Glob) (pattern_error : Text → Text) where
  -- `check_glob(&name, field, require(&name, field, raw)?)?`
  unfoldable pub required_glob : Text → Text → Option Text → Checked Text
  unfolding require check_glob
  required_glob rule field raw =
      and_then (require rule field raw) (check_glob G pattern_error rule field)

  -- Both fields `from` and `to`, in this order.
  unfoldable pub from_to : Text → RawRule → (Text → Text → RuleKind) → Checked RuleKind
  unfolding required_glob
  from_to rule raw kind =
      and_then (required_glob rule (bytes "from") raw.from)
        (λ from. and_then (required_glob rule (bytes "to") raw.to) (λ to. accepted (kind from to)))

  unfoldable pub field_removal : Text → RawRule → Checked RuleKind
  unfolding require is_blank
  field_removal rule raw = and_then (require rule (bytes "symbol") raw.symbol) (λ symbol.
      if is_blank symbol
      then rejected (invalid rule (bytes "'symbol' is empty"))
      else accepted (no_field_removal symbol))

  unfoldable pub orphans_rule : Text → RawRule → Checked RuleKind
  unfolding required_glob check_roots
  orphans_rule rule raw = and_then (required_glob rule (bytes "scope") raw.scope) (λ scope.
      and_then (check_roots G pattern_error rule (unwrap_or raw.roots []))
        (λ roots. accepted (no_orphans scope roots)))

  unfoldable pub tested_rule : Text → RawRule → Checked RuleKind
  unfolding required_glob symbol_kind_filter
  tested_rule rule raw = and_then (required_glob rule (bytes "symbols") raw.symbols) (λ symbols.
      and_then (symbol_kind_filter rule raw.only)
        (λ only. accepted (requires_test symbols only (unwrap_or raw.new_only false))))

  unfoldable pub cycles_rule : Text → RawRule → Checked RuleKind
  unfolding cycle_level check_glob
  cycles_rule rule raw = and_then (cycle_level rule raw.level) (λ level.
      and_then
        (elim raw.scope [
          | some glob ↦ check_glob G pattern_error rule (bytes "scope") glob
          | none ↦ accepted (bytes "**")
        ])
        (λ scope. accepted (no_cycles scope level)))

  unfoldable pub naming_rule : Text → RawRule → Checked RuleKind
  unfolding required_glob symbol_kind_filter
  naming_rule rule raw = and_then (symbol_kind_filter rule raw.only) (λ only.
      and_then (required_glob rule (bytes "symbols") raw.symbols) (λ symbols.
        and_then (required_glob rule (bytes "matches") raw.matches)
          (λ matches. accepted (naming_convention symbols matches only))))

  -- The `match` on the name of the kind.
  unfoldable pub build_kind : Text → Text → RawRule → Checked RuleKind
  unfolding from_to field_removal orphans_rule tested_rule cycles_rule naming_rule
      positive_threshold check_glob_list join_commas
  build_kind rule kind raw =
      if eqb kind (bytes "forbid-dependency")
      then from_to rule raw forbid_dependency
      else if eqb kind (bytes "forbid-reference")
      then from_to rule raw forbid_reference
      else if eqb kind (bytes "no-field-removal")
      then field_removal rule raw
      else if eqb kind (bytes "max-fan-in")
      then and_then (positive_threshold rule raw.threshold) (λ n. accepted (max_fan_in n))
      else if eqb kind (bytes "requires-dependency")
      then from_to rule raw requires_dependency
      else if eqb kind (bytes "no-orphans")
      then orphans_rule rule raw
      else if eqb kind (bytes "requires-test")
      then tested_rule rule raw
      else if eqb kind (bytes "no-cycles")
      then cycles_rule rule raw
      else if eqb kind (bytes "max-fan-out")
      then and_then (positive_threshold rule raw.threshold) (λ n. accepted (max_fan_out n))
      else if eqb kind (bytes "naming-convention")
      then naming_rule rule raw
      else if eqb kind (bytes "layers")
      then and_then (check_glob_list G pattern_error rule (bytes "layers") raw.layers)
          (λ l. accepted (layers l))
      else if eqb kind (bytes "independence")
      then and_then (check_glob_list G pattern_error rule (bytes "modules") raw.modules)
          (λ m. accepted (independence m))
      else rejected
          (invalid rule (bytes "unknown kind '" ++ (kind ++ (bytes "'." ++ expected_kinds))))

  unfoldable pub build : RawRule → ℕ → Checked Rule
  unfolding build_kind
  build raw index =
      let name = unwrap_or raw.name (bytes "rule #" ++ display (index + 1)) in
      elim raw.kind [
        | none ↦ rejected (invalid name (bytes "'kind' is required." ++ expected_kinds))
        | some kind_name ↦ and_then (build_kind name kind_name raw) (λ kind. accepted record {
          name = name;
          kind = kind;
          severity = unwrap_or raw.severity (default_severity kind);
        })
      ]

  -- The loop of `parse`: the names seen so far, and the index of the next rule.
  unfoldable pub build_all : List Text → ℕ → List RawRule → Checked (List Rule)
  unfolding build
  build_all seen index [] = accepted []
  build_all seen index (raw ∷ raws) = and_then (build raw index) (λ rule.
      if contains seen rule.name
      then rejected (invalid rule.name (bytes "a rule with this name is already defined"))
      else and_then (build_all (set_insert rule.name seen) (index + 1) raws)
          (λ rules. accepted (rule ∷ rules)))

  unfoldable pub parse : (Text → Text ⊎ RawFile) → Text → Checked Rules
  unfolding build_all
  parse from_str text = elim (from_str text) [
    | inl message ↦ rejected (syntax message)
    | inr raw ↦
        and_then (build_all [] 0 raw.rule)
          (λ rules. accepted record { rules = rules; suppress = raw.suppress })
  ]
