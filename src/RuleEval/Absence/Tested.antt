-- ===== src/RuleEval/Absence/Tested.antt =====
-- rule_eval.rs: when `requires-test` holds.
use open_invar.Prelude.{
  ℕ, ◌+◌, ◌≡◌, refl, sym, ◌∙◌, ◌↔◌, ◌⊎◌, Bool, true, false, not, Option, none, some, List, [], ◌∷◌,
  foldl, Text, bytes, arith, Any, count_if, sort, values, filter_map, contains, contains-set_insert,
  eqb_iff, list_ord, nat_ord, map,
}
use open_invar.Ir.{SymbolId, Symbol, symbol_kind_ord}
use open_invar.Graph.{Backend, InvarGraph}
use open_invar.Delta.{GraphDelta}
use open_invar.SymbolId.{kind_suffix}
use open_invar.Rules.{Rule, requires_test}
use open_invar.RuleEval.Edges.{Glob, Edge, compile}
use open_invar.RuleEval.Sweep.{satisfied, violated, Violation, violation_ord}
use open_invar.RuleEval.Absence.{
  Reached, unreached, absence, orphan_turn, orphan_breach, is_file_symbol, naming_breach,
  only_allows, test_turn, test_breach, narrowed, orphan, misnamed, untested,
}
use open_invar.RuleEval.Absence
use open_invar.RuleEval.Absence.Verdicts.{absence-violated, absence-satisfied, pushed}
use open_invar.RuleEval.Evaluate.{evaluate_one, findings_of, found}

-- A `tests` edge of a resolved kind leads to the symbol; a `tests` edge of any kind leaves it.
abbrev pub Covered : List Edge → SymbolId → Type 0
Covered es id = Any (λ e. (e.kind_name ≡ bytes "tests") × (e.gate_safe ≡ true) × (id ≡ e.to)) es

abbrev pub IsTest : List Edge → SymbolId → Type 0
IsTest es id = Any (λ e. (e.kind_name ≡ bytes "tests") × (id ≡ e.from)) es

targets-tested :
    (id : SymbolId) (r : Reached) (es : List Edge)
    → (contains (foldl test_turn r es).targets id ≡ true)
      ↔ ((contains r.targets id ≡ true) ⊎ Covered es id)
unfolding test_turn
targets-tested id r [] = ground arith
targets-tested id r (e ∷ es) = ground (
  arith,
  contains-set_insert id e.to r.targets,
  eqb_iff e.kind_name (bytes "tests"),
  targets-tested id (test_turn r e) es,
)

tests-tested :
    (id : SymbolId) (r : Reached) (es : List Edge)
    → (contains (foldl test_turn r es).tests id ≡ true)
      ↔ ((contains r.tests id ≡ true) ⊎ IsTest es id)
unfolding test_turn
tests-tested id r [] = ground arith
tests-tested id r (e ∷ es) = ground (
  arith,
  contains-set_insert id e.from r.tests,
  eqb_iff e.kind_name (bytes "tests"),
  tests-tested id (test_turn r e) es,
)

structural-tested :
    (r : Reached) (es : List Edge)
    → (foldl test_turn r es).structural_edges
      ≡ r.structural_edges + count_if (λ (e : Edge). not e.gate_safe) es
unfolding test_turn
structural-tested r [] = omega arith
structural-tested r (e ∷ es) = ground (arith, structural-tested (test_turn r e) es)

unreached-tested :
    (id : SymbolId) (es : List Edge)
    → ((contains (foldl test_turn unreached es).targets id ≡ true) ↔ Covered es id)
      × ((contains (foldl test_turn unreached es).tests id ≡ true) ↔ IsTest es id)
unreached-tested id es =
    let start : contains unreached.targets id ≡ false = unfold contains in refl in
    (
      ground (arith, start, targets-tested id unreached es),
      ground (arith, start, tests-tested id unreached es),
    )

module _ (G : Glob) (P : Backend) (g : InvarGraph P) where
  -- A symbol in scope, of a kind that counts, not the symbol of its file, among the added ones where
  -- only those count, that is no test and that no resolved `tests` edge leads to.
  abbrev pub Untested : Text → Option Text → Option (List SymbolId) → List Edge → Symbol → Type 0
  Untested symbols only added es s =
      (G.matches (compile G symbols) s.file ≡ true)
      × (only_allows only (kind_suffix s.kind) ≡ true)
      × (is_file_symbol s ≡ false)
      × (elim added [ none ↦ false | some ids ↦ not (contains ids s.id) ] ≡ false)
      × (¬ Covered es s.id)
      × (¬ IsTest es s.id)

  test_breach-Untested :
      (symbols : Text) (only : Option Text) (added : Option (List SymbolId)) (es : List Edge)
      (s : Symbol)
      → ((v : Violation) × (test_breach G P g symbols only added (foldl test_turn unreached es) s
            ≡ some v))
        ↔ Untested symbols only added es s
  unfolding test_breach
  test_breach-Untested symbols only added es s =
      let (covered, is_test) = unreached-tested s.id es in
      (λ (v, h). ground arith, λ h. (untested s, ground arith))

module _ (G : Glob) (tarjan_scc : ℕ → List (ℕ × ℕ) → List (List ℕ)) (P : Backend) (g : InvarGraph P)
    (rule : Rule) (es : List Edge) (symbols : Text) (only : Option Text) where
  tested :
      (delta : Option GraphDelta) (new_only : Bool) (added : Option (List SymbolId))
      → narrowed new_only delta ≡ added
      → findings_of G tarjan_scc P g es delta rule.kind
        ≡ found (Absence.requires_test G P g es delta symbols only new_only)
      → (((evaluate_one G tarjan_scc P g rule es delta).verdict ≡ satisfied)
          ↔ (¬ Any (Untested G P g symbols only added es) (values g.symbols)))
        × (((evaluate_one G tarjan_scc P g rule es delta).verdict ≡ violated) ↔ (
            Any (Untested G P g symbols only added es) (values g.symbols)
            × (count_if (λ (e : Edge). not e.gate_safe) es ≡ 0)))
  unfolding evaluate_one Absence.requires_test
  tested delta new_only added same_added same_kind =
      let r = foldl test_turn unreached es in
      let f = test_breach G P g symbols only (narrowed new_only delta) r in
      let vs = sort (filter_map f (values g.symbols)) in
      let same =
        pushed f (Untested G P g symbols only (narrowed new_only delta) es)
          (test_breach-Untested G P g symbols only (narrowed new_only delta) es)
          (values g.symbols) in
      let counted : r.structural_edges ≡ count_if (λ (e : Edge). not e.gate_safe) es =
        structural-tested unreached es ∙ omega arith in
      let safe = absence-satisfied rule vs r in
      let bad = absence-violated rule vs r in
      rw (same_kind, ← same_added)
        (
          (λ h any_untested. safe.0 h (same.1 any_untested), λ n. safe.1 (λ x. n (same.0 x))),
          (
            λ h. (same.0 (bad.0 h).0, sym counted ∙ (bad.0 h).1),
            λ (open_one, none_weak). bad.1 (same.1 open_one, counted ∙ none_weak),
          ),
        )

  -- Without `new_only`, `requires-test` is satisfied exactly when no symbol of the scope is untested,
  -- and violated exactly when one is and every edge of the graph is resolved.
  pub requires_test-verdict :
      (delta : Option GraphDelta)
      → rule.kind ≡ requires_test symbols only false
      → (((evaluate_one G tarjan_scc P g rule es delta).verdict ≡ satisfied)
          ↔ (¬ Any (Untested G P g symbols only none es) (values g.symbols)))
        × (((evaluate_one G tarjan_scc P g rule es delta).verdict ≡ violated) ↔ (
            Any (Untested G P g symbols only none es) (values g.symbols)
            × (count_if (λ (e : Edge). not e.gate_safe) es ≡ 0)))
  unfolding findings_of narrowed
  requires_test-verdict delta kind = tested delta false none refl (rw kind refl)

  -- With `new_only` and a delta, `requires-test` is satisfied exactly when no symbol of the scope
  -- that the delta added is untested, and violated exactly when one is and every edge of the graph
  -- is resolved.
  pub requires_test-new_only :
      (delta : GraphDelta)
      → rule.kind ≡ requires_test symbols only true
      → (((evaluate_one G tarjan_scc P g rule es (some delta)).verdict ≡ satisfied) ↔ (
          ¬ Any
            (Untested G P g symbols only (some (map (λ (s : Symbol). s.id) delta.added_symbols)) es)
            (values g.symbols)))
        × (((evaluate_one G tarjan_scc P g rule es (some delta)).verdict ≡ violated) ↔ (
            Any
              (Untested G P g symbols only
                (some (map (λ (s : Symbol). s.id) delta.added_symbols))
                es)
              (values g.symbols)
            × (count_if (λ (e : Edge). not e.gate_safe) es ≡ 0)))
  unfolding findings_of narrowed
  requires_test-new_only delta kind =
      tested (some delta) true (some (map (λ (s : Symbol). s.id) delta.added_symbols)) refl
        (rw kind refl)
