-- ===== src/RuleEval/Fan/Judge.antt =====
-- rule_eval.rs: what the loop over the candidates of `max-fan-in` and `max-fan-out` concludes.
use open_invar.Prelude.{
  ℕ, ◌+◌, ◌<◌, ◌≤◌, ◌≡◌, ◌↔◌, Bool, List, [], ◌∷◌, foldl, Text, length, length-append,
  length-sort_by, sort, count_if, All, Any, arith, ltb, if◌then◌else◌, cmp, foldl,
}
use open_invar.Ir.{SymbolId}
use open_invar.Graph.{Backend, InvarGraph}
use open_invar.Rules.{Rule}
use open_invar.RuleEval.Sweep.{
  Violation, violation_ord, Uncertainty, satisfied, violated, Tally, no_tally,
}
use open_invar.RuleEval.Evaluate.{found, conclude}
use open_invar.RuleEval.Fan.{fan_turn, judge_counts, breach_at}

verdict-found :
    (rule : Rule) (vs : List Violation) (u : Uncertainty)
    → (((conclude rule (found (vs, u))).verdict ≡ violated) ↔ (0 < length vs))
      × (((conclude rule (found (vs, u))).verdict ≡ satisfied)
          ↔ ((length vs ≡ 0) × (u.unresolved_edges ≡ 0)))
unfolding conclude
verdict-found rule [] u = ground arith
verdict-found rule (v ∷ vs) u = ground arith

module _ (P : Backend) (g : InvarGraph P) (threshold : ℕ) (strong uncertain : SymbolId → ℕ)
    (text : ℕ → Text) where
  abbrev over : SymbolId → Bool
  over id = ltb threshold (strong id)

  -- The uncertain references of the ids that only these put over the threshold.
  abbrev doubt : List SymbolId → ℕ
  doubt [] = 0
  doubt (id ∷ ids) =
      (if ltb threshold (strong id)
        then 0
        else if ltb threshold (strong id + uncertain id)
        then uncertain id
        else 0)
      + doubt ids

  abbrev run : Tally → List SymbolId → Tally
  run t ids = foldl (fan_turn P g threshold strong uncertain text) t ids

  turn :
      (t : Tally) (id : SymbolId)
      → (length (fan_turn P g threshold strong uncertain text t id).violations
          ≡ length t.violations + (if over id then 1 else 0))
        × ((fan_turn P g threshold strong uncertain text t id).unresolved_edges
            ≡ t.unresolved_edges + doubt (id ∷ []))
  unfolding fan_turn
  turn t id = ground (arith, length-append t.violations (breach_at P g id (text (strong id)) ∷ []))

  run-counts :
      (t : Tally) (ids : List SymbolId)
      → (length (run t ids).violations ≡ length t.violations + count_if over ids)
        × ((run t ids).unresolved_edges ≡ t.unresolved_edges + doubt ids)
  run-counts t [] = (omega arith, omega arith)
  run-counts t (id ∷ ids) =
      let next = fan_turn P g threshold strong uncertain text t id in
      let (a, b) = turn t id in
      let (c, d) = run-counts next ids in (omega (arith, a, c), omega (arith, b, d))

  Any-over : (ids : List SymbolId) → (0 < count_if over ids) ↔ Any (λ id. threshold < strong id) ids
  Any-over [] = ground arith
  Any-over (id ∷ ids) = ground (arith, Any-over ids)

  All-under :
      (ids : List SymbolId)
      → ((count_if over ids ≡ 0) × (doubt ids ≡ 0))
        ↔ All (λ id. strong id + uncertain id ≤ threshold) ids
  All-under [] = ground arith
  All-under (id ∷ ids) = ground (arith, All-under ids)

  -- Violated where some candidate has too many certain references, and satisfied where none has too
  -- many even with the uncertain ones.
  pub verdict-judge_counts :
      (rule : Rule) (ids : List SymbolId)
      → (((conclude rule (found (judge_counts P g threshold strong uncertain text ids))).verdict
            ≡ violated)
          ↔ Any (λ id. threshold < strong id) ids)
        × (((conclude rule (found (judge_counts P g threshold strong uncertain text ids))).verdict
              ≡ satisfied)
            ↔ All (λ id. strong id + uncertain id ≤ threshold) ids)
  unfolding judge_counts
  verdict-judge_counts rule ids =
      let t = run no_tally ids in
      let (a, b) = run-counts no_tally ids in
      let said =
        verdict-found rule (sort t.violations)
          (record { unresolved_edges = t.unresolved_edges; files = t.unresolved_files }) in
      ground (
        arith,
        said,
        a,
        b,
        length-sort_by (cmp {A = Violation}) t.violations,
        Any-over ids,
        All-under ids,
      )
