-- ===== src/RuleEval/Evaluate.antt =====
-- rule_eval.rs: the verdict on one rule, and the evaluation of a whole rules file.
pub mod Verdicts
pub mod Shuffle
pub mod Order
pub mod Gate
use open_invar.Prelude.{
  ℕ, Bool, true, false, not, ◌&&◌, Option, none, some, List, [], ◌∷◌, map, Text, bytes, ltb, length,
  if◌then◌else◌, is_some, retain, eqb, nat_ord, ord_by, Ord, ◌≡◌, arith,
}
use open_invar.Graph.{Backend, InvarGraph}
use open_invar.Delta.{GraphDelta}
use open_invar.Rules.{
  Severity, error, severity_ord, RuleKind, Rule, Rules, forbid_dependency, forbid_reference,
  no_field_removal, max_fan_in, layers, independence, max_fan_out, no_cycles, requires_dependency,
  no_orphans, requires_test, naming_convention, kind_str,
}
use open_invar.RuleEval.Edges.{Glob, Edge, edges}
use open_invar.RuleEval.Sweep.{
  Verdict, satisfied, violated, inconclusive, skipped, Violation, Uncertainty,
}
use open_invar.RuleEval.Forbid
use open_invar.RuleEval.Absence
use open_invar.RuleEval.Fan
use open_invar.RuleEval.Fields
use open_invar.RuleEval.Cycles

abbrev pub verdict_rank : Verdict → ℕ
verdict_rank satisfied = 0
verdict_rank violated = 1
verdict_rank inconclusive = 2
verdict_rank skipped = 3

pub verdict_rank_inj : (a b : Verdict) → verdict_rank a ≡ verdict_rank b → a ≡ b
verdict_rank_inj a b h = ground arith

instance abbrev pub verdict_ord : Ord Verdict
verdict_ord = ord_by nat_ord verdict_rank verdict_rank_inj

pub record RuleOutcome : Type 0 where
  pub rule : Text
  pub kind : Text
  pub severity : Severity
  pub verdict : Verdict
  pub violations : List Violation
  pub uncertainty : Option Uncertainty
  pub skipped_because : Option Text

pub record Evaluation : Type 0 where
  pub outcomes : List RuleOutcome

unfoldable pub blocking : Evaluation → List RuleOutcome
blocking e = retain (λ o. eqb o.verdict violated && eqb o.severity error) e.outcomes

-- `self.blocking().next().is_some()`
unfoldable pub should_fail : Evaluation → Bool
unfolding blocking
should_fail e = elim (blocking e) [ [] ↦ false | o ∷ os ↦ true ]

unfoldable pub inconclusives : Evaluation → List RuleOutcome
inconclusives e = retain (λ o. eqb o.verdict inconclusive) e.outcomes

unfoldable pub count_of : Evaluation → Verdict → ℕ
count_of e v = length (retain (λ o. eqb o.verdict v) e.outcomes)

-- What the `match` on the rule's kind gives: a reason to skip it, or what its evaluator found.
pub data Finding : Type 0 where
  skip : Text → Finding
  found : List Violation × Uncertainty → Finding
  definite : List Violation → Finding

-- "Violation beats uncertainty": the outcome from what was found.
unfoldable pub conclude : Rule → Finding → RuleOutcome
conclude rule (skip reason) = record {
  rule = rule.name;
  kind = kind_str rule.kind;
  severity = rule.severity;
  verdict = skipped;
  violations = [];
  uncertainty = none;
  skipped_because = some reason;
}
conclude rule (definite vs) = record {
  rule = rule.name;
  kind = kind_str rule.kind;
  severity = rule.severity;
  verdict = elim vs [ [] ↦ satisfied | v ∷ r ↦ violated ];
  violations = vs;
  uncertainty = none;
  skipped_because = none;
}
conclude rule (found (vs, u)) = record {
  rule = rule.name;
  kind = kind_str rule.kind;
  severity = rule.severity;
  verdict = elim vs [
    | [] ↦ if ltb 0 u.unresolved_edges then inconclusive else satisfied
    | v ∷ r ↦ violated
  ];
  violations = vs;
  uncertainty = elim vs [ [] ↦ if ltb 0 u.unresolved_edges then some u else none | v ∷ r ↦ none ];
  skipped_because = none;
}

module _ (G : Glob) (tarjan_scc : ℕ → List (ℕ × ℕ) → List (List ℕ)) (P : Backend)
    (g : InvarGraph P) where
  unfoldable pub findings_of : List Edge → Option GraphDelta → RuleKind → Finding
  findings_of es delta (forbid_dependency from to) =
      found (Forbid.forbid_edges G P g es from to true)
  findings_of es delta (forbid_reference from to) =
      found (Forbid.forbid_edges G P g es from to false)
  findings_of es delta (layers stack) = found (Forbid.layers G P g es stack)
  findings_of es delta (independence modules) = found (Forbid.independence G P g es modules)
  findings_of es delta (max_fan_in threshold) = found (Fan.max_fan_in P g es threshold)
  findings_of es delta (requires_dependency from to) =
      found (Absence.requires_dependency G P g es from to)
  findings_of es delta (no_orphans scope roots) = found (Absence.no_orphans G P g es scope roots)
  findings_of es delta (requires_test symbols only new_only) =
      if new_only && not (is_some delta)
      then skip (bytes "new_only needs two graphs to compare; none was supplied")
      else found (Absence.requires_test G P g es delta symbols only new_only)
  findings_of es delta (no_cycles scope level) =
      found (Cycles.no_cycles G tarjan_scc P g es scope level)
  findings_of es delta (max_fan_out threshold) = found (Fan.max_fan_out P g es threshold)
  findings_of es delta (naming_convention symbols pattern only) =
      definite (Absence.naming_convention G P g symbols pattern only)
  findings_of es none (no_field_removal symbol) =
      skip (bytes "needs two graphs to compare; none was supplied")
  findings_of es (some delta) (no_field_removal symbol) =
      definite (Fields.no_field_removal G P g delta symbol)

  unfoldable pub evaluate_one : Rule → List Edge → Option GraphDelta → RuleOutcome
  unfolding conclude
  evaluate_one rule all_edges delta = conclude rule (findings_of all_edges delta rule.kind)

  unfoldable pub evaluate : Rules → Option GraphDelta → Evaluation
  evaluate rules delta =
      let all_edges = edges P g in
      record { outcomes = map (λ rule. evaluate_one rule all_edges delta) rules.rules }
