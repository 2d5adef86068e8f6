-- ===== src/RuleEval/Absence/Orphans.antt =====
-- rule_eval.rs: when `no-orphans` holds.
use open_invar.Prelude.{
  ℕ, ◌+◌, ◌≡◌, refl, sym, ◌∙◌, ◌↔◌, ◌⊎◌, true, false, not, Option, some, List, [], ◌∷◌, foldl, Text,
  arith, Any, any, count_if, sort, values, filter_map, contains, contains-set_insert, list_ord,
  nat_ord,
}
use open_invar.Ir.{SymbolId, Symbol, symbol_kind_ord}
use open_invar.Graph.{Backend, InvarGraph}
use open_invar.Delta.{GraphDelta}
use open_invar.Rules.{Rule, no_orphans}
use open_invar.RuleEval.Edges.{Glob, Edge, compile}
use open_invar.RuleEval.Sweep.{satisfied, violated, Violation, violation_ord}
use open_invar.RuleEval.Absence.{
  Reached, unreached, absence, orphan_turn, orphan_breach, is_file_symbol, naming_breach,
  only_allows, test_turn, test_breach, narrowed, orphan, misnamed, untested,
}
use open_invar.RuleEval.Absence
use open_invar.RuleEval.Absence.Verdicts.{absence-violated, absence-satisfied, pushed, Referenced}
use open_invar.RuleEval.Evaluate.{evaluate_one, findings_of}

targets-orphan :
    (id : SymbolId) (r : Reached) (es : List Edge)
    → (contains (foldl orphan_turn r es).targets id ≡ true)
      ↔ ((contains r.targets id ≡ true) ⊎ Referenced es id)
unfolding orphan_turn
targets-orphan id r [] = ground arith
targets-orphan id r (e ∷ es) =
    ground (arith, contains-set_insert id e.to r.targets, targets-orphan id (orphan_turn r e) es)

targets-unreached :
    (id : SymbolId) (es : List Edge)
    → (contains (foldl orphan_turn unreached es).targets id ≡ true) ↔ Referenced es id
targets-unreached id es =
    let start : contains unreached.targets id ≡ false = unfold contains in refl in
    ground (arith, start, targets-orphan id unreached es)

structural-orphan :
    (r : Reached) (es : List Edge)
    → (foldl orphan_turn r es).structural_edges
      ≡ r.structural_edges + count_if (λ (e : Edge). not e.gate_safe) es
unfolding orphan_turn
structural-orphan r [] = omega arith
structural-orphan r (e ∷ es) = ground (arith, structural-orphan (orphan_turn r e) es)

module _ (G : Glob) (P : Backend) (g : InvarGraph P) where
  -- A symbol in scope, in no root and not the symbol of its file, that no resolved edge leads to.
  abbrev pub Orphan : Text → List Text → List Edge → Symbol → Type 0
  Orphan scope roots es s =
      (G.matches (compile G scope) s.file ≡ true)
      × (any (λ root. G.matches (compile G root) s.file) roots ≡ false)
      × (is_file_symbol s ≡ false)
      × (¬ Referenced es s.id)

  orphan_breach-Orphan :
      (scope : Text) (roots : List Text) (es : List Edge) (s : Symbol)
      → ((v : Violation) × (orphan_breach G P g scope roots (foldl orphan_turn unreached es) s
            ≡ some v))
        ↔ Orphan scope roots es s
  unfolding orphan_breach
  orphan_breach-Orphan scope roots es s = (
    λ (v, h). ground (arith, targets-unreached s.id es),
    λ h. (orphan s, ground (arith, targets-unreached s.id es)),
  )

module _ (G : Glob) (tarjan_scc : ℕ → List (ℕ × ℕ) → List (List ℕ)) (P : Backend) (g : InvarGraph P)
    (rule : Rule) (es : List Edge) (delta : Option GraphDelta) (scope : Text) (roots : List Text)
    (kind : rule.kind ≡ no_orphans scope roots) where
  -- `no-orphans` is satisfied exactly when the scope has no orphan, and violated exactly when it
  -- has one and every edge of the graph is resolved.
  pub no_orphans-verdict :
      (((evaluate_one G tarjan_scc P g rule es delta).verdict ≡ satisfied)
        ↔ (¬ Any (Orphan G P g scope roots es) (values g.symbols)))
      × (((evaluate_one G tarjan_scc P g rule es delta).verdict ≡ violated) ↔ (
          Any (Orphan G P g scope roots es) (values g.symbols)
          × (count_if (λ (e : Edge). not e.gate_safe) es ≡ 0)))
  unfolding evaluate_one findings_of Absence.no_orphans
  no_orphans-verdict =
      let r = foldl orphan_turn unreached es in
      let f = orphan_breach G P g scope roots r in
      let vs = sort (filter_map f (values g.symbols)) in
      let same =
        pushed f (Orphan G P g scope roots es) (orphan_breach-Orphan G P g scope roots es)
          (values g.symbols) in
      let counted : r.structural_edges ≡ count_if (λ (e : Edge). not e.gate_safe) es =
        structural-orphan unreached es ∙ omega arith in
      let safe = absence-satisfied rule vs r in
      let bad = absence-violated rule vs r in
      rw kind (
        (λ h any_orphan. safe.0 h (same.1 any_orphan), λ n. safe.1 (λ x. n (same.0 x))),
        (
          λ h. (same.0 (bad.0 h).0, sym counted ∙ (bad.0 h).1),
          λ (orphan, none_weak). bad.1 (same.1 orphan, counted ∙ none_weak),
        ),
      )
