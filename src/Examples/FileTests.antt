-- ===== src/Examples/FileTests.antt =====
-- A rules file at concrete inputs.
use open_invar.Prelude.{
  is_blank, false, ◌≡◌, refl, none, some, [], ◌∷◌, Text, bytes, ◌⊎◌, inr, map, All, eqb, contains,
  set_insert,
}
use open_invar.Rules.{
  default_severity, Rule, Rules, error, warn, no_field_removal, forbid_dependency, max_fan_in,
}
use open_invar.Rules.Raw.{rejected, invalid, RawRule, RawFile, pos}
use open_invar.Rules.Build.{parse, build}
use open_invar.Rules.Build.Meaning.{IsMeaningful, Distinct}
use open_invar.Rules.Build.Accepted.{parse-IsMeaningful}
use open_invar.Examples.ListGraph.{prefix_glob}

abbrev pub no_error : Text → Text
no_error t = []

abbrev pub raw_rule : Text → RawRule
raw_rule kind = record {
  name = some kind;
  kind = some kind;
  from = some (bytes "core/");
  to = some (bytes "cli/");
  symbol = none;
  threshold = some (pos 3);
  layers = none;
  modules = none;
  symbols = none;
  matches = none;
  only = none;
  scope = none;
  level = none;
  new_only = none;
  roots = none;
  severity = none;
}

-- The file is read as a rule of the kind that it names, and one more.
abbrev from_str : Text → Text ⊎ RawFile
from_str text =
    inr (record { rule = raw_rule text ∷ raw_rule (bytes "max-fan-in") ∷ []; suppress = [] })

abbrev two_rules : Rules
two_rules = record {
  rules =
      record {
        name = bytes "forbid-dependency";
        kind = forbid_dependency (bytes "core/") (bytes "cli/");
        severity = error;
      }
      ∷ record { name = bytes "max-fan-in"; kind = max_fan_in 3; severity = warn }
      ∷ [];
  suppress = [];
}

same_name :
    parse prefix_glob no_error from_str (bytes "max-fan-in")
    ≡ rejected (invalid (bytes "max-fan-in") (bytes "a rule with this name is already defined"))
unfolding parse build eqb contains set_insert
same_name = refl

parse-IsMeaningful_example :
    All
      (λ (r : Rule).
        IsMeaningful prefix_glob r.kind
        ⊎ ((symbol : Text) × (r.kind ≡ no_field_removal symbol) × (is_blank symbol ≡ false)))
      two_rules.rules
    × Distinct (map (λ (r : Rule). r.name) two_rules.rules)
unfolding parse build eqb contains set_insert default_severity
parse-IsMeaningful_example =
    parse-IsMeaningful prefix_glob no_error (refl, refl) from_str (bytes "forbid-dependency")
      two_rules refl
