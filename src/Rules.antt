-- ===== src/Rules.antt =====
-- crates/openinvar-core/src/rules.rs: the rules that a repository declares.
pub mod Raw
pub mod Build
use open_invar.Prelude.{
  ℕ, ◌≡◌, Bool, true, false, not, Option, List, Map, Text, bytes, arith, Ord, ord_by, nat_ord,
  retain,
}

pub data Severity : Type 0 where
  warn error : Severity

abbrev pub severity_rank : Severity → ℕ
severity_rank warn = 0
severity_rank error = 1

pub severity_rank_inj : (a b : Severity) → severity_rank a ≡ severity_rank b → a ≡ b
severity_rank_inj a b h = ground arith

instance abbrev pub severity_ord : Ord Severity
severity_ord = ord_by nat_ord severity_rank severity_rank_inj

pub data CycleLevel : Type 0 where
  file_level module_level : CycleLevel

-- `only` is the name of a symbol kind, as the file spells it.
pub data RuleKind : Type 0 where
  forbid_dependency forbid_reference : (from to : Text) → RuleKind
  no_field_removal : (symbol : Text) → RuleKind
  max_fan_in : (threshold : ℕ) → RuleKind
  layers : (stack : List Text) → RuleKind
  independence : (modules : List Text) → RuleKind
  max_fan_out : (threshold : ℕ) → RuleKind
  no_cycles : (scope : Text) (level : CycleLevel) → RuleKind
  requires_dependency : (from to : Text) → RuleKind
  no_orphans : (scope : Text) (roots : List Text) → RuleKind
  requires_test : (symbols : Text) (only : Option Text) (new_only : Bool) → RuleKind
  naming_convention : (symbols matches : Text) (only : Option Text) → RuleKind

unfoldable pub default_severity : RuleKind → Severity
default_severity (max_fan_in t) = warn
default_severity (max_fan_out t) = warn
default_severity (no_orphans s r) = warn
default_severity _ = error

unfoldable pub kind_str : RuleKind → Text
kind_str (forbid_dependency f t) = bytes "forbid-dependency"
kind_str (forbid_reference f t) = bytes "forbid-reference"
kind_str (no_field_removal s) = bytes "no-field-removal"
kind_str (max_fan_in t) = bytes "max-fan-in"
kind_str (layers l) = bytes "layers"
kind_str (independence m) = bytes "independence"
kind_str (max_fan_out t) = bytes "max-fan-out"
kind_str (no_cycles s l) = bytes "no-cycles"
kind_str (requires_test s o n) = bytes "requires-test"
kind_str (requires_dependency f t) = bytes "requires-dependency"
kind_str (no_orphans s r) = bytes "no-orphans"
kind_str (naming_convention s m o) = bytes "naming-convention"

unfoldable pub needs_delta : RuleKind → Bool
needs_delta (no_field_removal s) = true
needs_delta (requires_test s o new_only) = new_only
needs_delta _ = false

pub record Rule : Type 0 where
  pub name : Text
  pub kind : RuleKind
  pub severity : Severity

pub record Rules : Type 0 where
  pub rules : List Rule
  pub suppress : Map Text Text

unfoldable pub without_delta : Rules → List Rule
without_delta r = retain (λ rule. not (needs_delta rule.kind)) r.rules

unfoldable pub needing_delta : Rules → List Rule
needing_delta r = retain (λ rule. needs_delta rule.kind) r.rules
