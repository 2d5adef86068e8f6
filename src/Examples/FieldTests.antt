-- ===== src/Examples/FieldTests.antt =====
-- The owner of a field at concrete inputs.
use open_invar.Prelude.{
  ℕ, ◌≡◌, ◌≢◌, false, strip_prefix, is_blank, eqb, arith, refl, none, some, List, [], ◌∷◌, Text,
  bytes, list_ord, nat_ord,
}
use open_invar.Ir.{Symbol, SymbolKind, class, property, rust}
use open_invar.RuleEval.Fields.{owner_of}
use open_invar.Delta.{GraphDelta}
use open_invar.Rules.Raw.{RawRule, accepted}
use open_invar.Rules.Build.{build}
use open_invar.RuleEval.Edges.{Glob}
use open_invar.RuleEval.Sweep.{satisfied}
use open_invar.RuleEval.Evaluate.{evaluate_one}
use open_invar.RuleEval.Fields.Uncompiled.{no_field_removal-uncompiled, removal_rule}
use open_invar.Examples.Sample.{backend, sample}
use open_invar.Examples.FileTests.{raw_rule, no_error}
use open_invar.Examples.RuleTests.{no_scc}

abbrev lines : SymbolKind → Text → ℕ → ℕ → Symbol
lines kind id first last = record {
  id = id;
  name = id;
  kind = kind;
  language = rust;
  file = bytes "a.rs";
  line_start = first;
  line_end = last;
  signature = none;
}

abbrev two_classes : List Symbol
two_classes =
    lines class (bytes "outer") 1 20
    ∷ lines class (bytes "inner") 3 9
    ∷ lines class (bytes "later") 12 14
    ∷ []

innermost :
    owner_of two_classes (lines property (bytes "f") 5 5) ≡ some (lines class (bytes "inner") 3 9)
unfolding owner_of
innermost = refl

-- A glob crate without wildcards, for which no pattern starts with `[`.
abbrev plain_glob : Glob
plain_glob = record {
  Pattern = Text;
  compile? = λ text. elim (strip_prefix text (bytes "[")) [ some rest ↦ none | none ↦ some text ];
  empty = [];
  matches = eqb;
}

no_match : (t : Text) → t ≢ [] → eqb [] t ≡ false
unfolding eqb
no_match [] h = absurd (h refl)
no_match (c ∷ t) h = refl

abbrev removal : RawRule
removal = record (raw_rule (bytes "no-field-removal")) { symbol = some (bytes "[a-") }

abbrev field_gone : GraphDelta
field_gone = record {
  added_symbols = [];
  removed_symbols = lines property (bytes "f") 5 5 ∷ [];
  continuities = [];
  signature_changes = [];
  added_edges = [];
  removed_edges = [];
}

no_field_removal-uncompiled_example :
    (build plain_glob no_error removal 0
      ≡ accepted (removal_rule plain_glob no_error (bytes "[a-") removal 0))
    × ((evaluate_one plain_glob no_scc backend sample
          (removal_rule plain_glob no_error (bytes "[a-") removal 0)
          []
          (some field_gone)).verdict
        ≡ satisfied)
unfolding is_blank
no_field_removal-uncompiled_example =
    no_field_removal-uncompiled plain_glob no_error (bytes "[a-") no_scc backend removal 0 sample []
      field_gone refl refl refl refl refl no_match
      ((λ e. ground (arith, e)), ((λ e. ground (arith, e)), ((λ e. ground (arith, e)), tt)))
