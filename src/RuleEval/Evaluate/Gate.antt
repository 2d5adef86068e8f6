-- ===== src/RuleEval/Evaluate/Gate.antt =====
-- rule_eval.rs: when a gate built on an evaluation fails.
use open_invar.Prelude.{
  ℕ, ◌≡◌, refl, ◌↔◌, Bool, true, false, ◌&&◌, Option, List, [], ◌∷◌, map, retain, Any, arith, eqb,
  eqb_iff,
}
use open_invar.Graph.{Backend, InvarGraph}
use open_invar.Delta.{GraphDelta}
use open_invar.Rules.{Rules, Rule, error, severity_ord}
use open_invar.RuleEval.Edges.{Glob, Edge, edges}
use open_invar.RuleEval.Sweep.{violated}
use open_invar.RuleEval.Evaluate.{
  Finding, skip, found, definite, conclude, findings_of, RuleOutcome, evaluate_one, evaluate,
  should_fail, verdict_ord, blocking,
}

severity-conclude : (rule : Rule) (f : Finding) → (conclude rule f).severity ≡ rule.severity
unfolding conclude
severity-conclude rule (skip reason) = refl
severity-conclude rule (found p) = refl
severity-conclude rule (definite vs) = refl

abbrev blocks : RuleOutcome → Bool
blocks o = eqb o.verdict violated && eqb o.severity error

some_retained :
    (os : List RuleOutcome)
    → ((elim (retain blocks os) [ [] ↦ false | o ∷ r ↦ true ]) ≡ true)
      ↔ Any (λ o. blocks o ≡ true) os
some_retained [] = ground arith
some_retained (o ∷ os) = ground (arith, some_retained os)

module _ (G : Glob) (tarjan_scc : ℕ → List (ℕ × ℕ) → List (List ℕ)) (P : Backend)
    (g : InvarGraph P) where
  -- A rule of severity error that is violated on the graph.
  abbrev pub Blocks : List Edge → Option GraphDelta → Rule → Type 0
  Blocks es delta rule =
      (rule.severity ≡ error) × ((evaluate_one G tarjan_scc P g rule es delta).verdict ≡ violated)

  blocks_of :
      (es : List Edge) (delta : Option GraphDelta) (rule : Rule)
      → (blocks (evaluate_one G tarjan_scc P g rule es delta) ≡ true) ↔ Blocks es delta rule
  unfolding evaluate_one
  blocks_of es delta rule =
      let f = findings_of G tarjan_scc P g es delta rule.kind in
      ground (
        arith,
        severity-conclude rule f,
        eqb_iff (conclude rule f).verdict violated,
        eqb_iff (conclude rule f).severity error,
      )

  Any-blocks :
      (es : List Edge) (delta : Option GraphDelta) (rules : List Rule)
      → Any (λ o. blocks o ≡ true) (map (λ rule. evaluate_one G tarjan_scc P g rule es delta) rules)
        ↔ Any (Blocks es delta) rules
  Any-blocks es delta [] = ground arith
  Any-blocks es delta (rule ∷ rules) =
      ground (arith, blocks_of es delta rule, Any-blocks es delta rules)

  -- A gate on the evaluation of a rules file fails exactly when some rule of severity error is
  -- violated: neither a warning nor an inconclusive or skipped rule fails it.
  pub should_fail-evaluate :
      (rules : Rules) (delta : Option GraphDelta)
      → (should_fail (evaluate G tarjan_scc P g rules delta) ≡ true)
        ↔ Any (Blocks (edges P g) delta) rules.rules
  unfolding should_fail evaluate blocking
  should_fail-evaluate rules delta =
      let all_edges = edges P g in
      let run =
        some_retained
          (map (λ rule. evaluate_one G tarjan_scc P g rule all_edges delta) rules.rules) in
      let each = Any-blocks all_edges delta rules.rules in
      (λ h. each.0 (run.0 h), λ h. run.1 (each.1 h))
