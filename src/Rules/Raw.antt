-- ===== src/Rules/Raw.antt =====
-- crates/openinvar-core/src/rules.rs: a rule as the file has it, and the checks on its fields. The glob
-- crate compiles patterns, and names what is wrong with one that does not compile.
use open_invar.Prelude.{
  is_blank, ℕ, suc, Bool, ltb, if◌then◌else◌, Option, none, some, List, [], ◌∷◌, ◌++◌, Map, Text,
  bytes, display, length, contains, set_insert, list_ord, nat_ord,
}
use open_invar.Rules.{Severity}
use open_invar.RuleEval.Edges.{Glob}

pub data RuleError : Type 0 where
  io syntax : Text → RuleError
  invalid : (rule reason : Text) → RuleError

pub data Checked {ℓ} (A : Type ℓ) : Type ℓ where
  accepted : A → Checked A
  rejected : RuleError → Checked A

-- The operator `?`.
abbrev pub and_then {ℓ κ} : {A : Type ℓ} {B : Type κ} → Checked A → (A → Checked B) → Checked B
and_then (accepted a) f = f a
and_then (rejected e) f = rejected e

-- `i64`
pub data ℤ : Type 0 where
  pos negsuc : ℕ → ℤ

pub record RawRule : Type 0 where
  pub name : Option Text
  pub kind : Option Text
  pub from : Option Text
  pub to : Option Text
  pub symbol : Option Text
  pub threshold : Option ℤ
  pub layers : Option (List Text)
  pub modules : Option (List Text)
  pub symbols : Option Text
  pub matches : Option Text
  pub only : Option Text
  pub scope : Option Text
  pub level : Option Text
  pub new_only : Option Bool
  pub roots : Option (List Text)
  pub severity : Option Severity

pub record RawFile : Type 0 where
  pub rule : List RawRule
  pub suppress : Map Text Text

abbrev pub known_kinds : List Text
known_kinds =
    bytes "forbid-dependency"
    ∷ bytes "forbid-reference"
    ∷ bytes "no-field-removal"
    ∷ bytes "max-fan-in"
    ∷ bytes "layers"
    ∷ bytes "independence"
    ∷ bytes "max-fan-out"
    ∷ bytes "naming-convention"
    ∷ bytes "no-cycles"
    ∷ bytes "requires-test"
    ∷ bytes "requires-dependency"
    ∷ bytes "no-orphans"
    ∷ []

abbrev pub known_symbol_kinds : List Text
known_symbol_kinds =
    bytes "class"
    ∷ bytes "interface"
    ∷ bytes "type_alias"
    ∷ bytes "function"
    ∷ bytes "method"
    ∷ bytes "property"
    ∷ bytes "variable"
    ∷ bytes "module"
    ∷ bytes "enum"
    ∷ bytes "enum_variant"
    ∷ []

-- `join(", ")`
unfoldable pub join_commas : List Text → Text
join_commas [] = []
join_commas (t ∷ []) = t
join_commas (t ∷ u ∷ ts) = t ++ (bytes ", " ++ join_commas (u ∷ ts))

abbrev pub quoted : Text → Text → Text
quoted field reason = bytes "'" ++ (field ++ (bytes "'" ++ reason))

unfoldable pub require {ℓ} : {A : Type ℓ} → Text → Text → Option A → Checked A
require rule field none =
    rejected (invalid rule (quoted field (bytes " is required for this kind")))
require rule field (some value) = accepted value

unfoldable pub symbol_kind_filter : Text → Option Text → Checked (Option Text)
unfolding join_commas
symbol_kind_filter rule none = accepted none
symbol_kind_filter rule (some kind) =
    if contains known_symbol_kinds kind
    then accepted (some kind)
    else rejected (
        invalid rule (
          bytes "unknown symbol kind '"
          ++ (kind ++ (bytes "' in 'only'. Expected one of: " ++ join_commas known_symbol_kinds))))

abbrev pub display_int : ℤ → Text
display_int (pos n) = display n
display_int (negsuc n) = bytes "-" ++ display (suc n)

unfoldable pub at_least_one : Text → ℤ → Checked ℕ
at_least_one rule (pos (suc n)) = accepted (suc n)
at_least_one rule t =
    rejected (invalid rule (bytes "'threshold' must be at least 1, got " ++ display_int t))

unfoldable pub positive_threshold : Text → Option ℤ → Checked ℕ
unfolding require at_least_one
positive_threshold rule raw = and_then (require rule (bytes "threshold") raw) (at_least_one rule)

module _ (G : Glob) (pattern_error : Text → Text) where
  unfoldable pub check_glob : Text → Text → Text → Checked Text
  unfolding is_blank
  check_glob rule field value =
      if is_blank value
      then rejected (invalid rule (quoted field (bytes " is empty")))
      else elim (G.compile? value) [
        | none ↦
            rejected
              (invalid rule (quoted field (bytes " is not a valid glob: " ++ pattern_error value)))
        | some p ↦ accepted value
      ]

  -- The loop of `check_glob_list` over the entries, with those already seen.
  unfoldable pub check_entries : Text → Text → List Text → List Text → Checked (List Text)
  unfolding check_glob
  check_entries rule field seen [] = accepted []
  check_entries rule field seen (value ∷ values) =
      let rest = check_entries rule field (set_insert value seen) values in
      and_then (check_glob rule field value) (λ pattern.
        if contains seen pattern
        then rejected (invalid rule (quoted field (bytes " lists '" ++ (value ++ bytes "' twice"))))
        else and_then rest (λ checked. accepted (pattern ∷ checked)))

  unfoldable pub check_glob_list : Text → Text → Option (List Text) → Checked (List Text)
  unfolding require check_entries
  check_glob_list rule field raw = and_then (require rule field raw) (λ values.
      if ltb (length values) 2
      then rejected (
          invalid rule (
            quoted field (
              bytes " needs at least 2 entries to mean anything, got " ++ display (length values))))
      else check_entries rule field [] values)

  -- The loop over `roots`.
  unfoldable pub check_roots : Text → List Text → Checked (List Text)
  unfolding check_glob
  check_roots rule [] = accepted []
  check_roots rule (value ∷ values) =
      let rest = check_roots rule values in
      and_then (check_glob rule (bytes "roots") value)
        (λ pattern. and_then rest (λ checked. accepted (pattern ∷ checked)))
