-- ===== src/RuleEval/Evaluate/Order.antt =====
-- rule_eval.rs: the evaluation, where the parallel scan has added the edges in another order and the
-- maps list the symbols in another order.
use open_invar.Prelude.{
  ℕ, Bool, true, false, ◌≡◌, refl, ap, Option, none, some, List, foldl, Text, sort, sort-perm,
  filter_map, values, get, arith, list_ord, nat_ord,
}
use mathlib.Core.Path.{fun_ext}
use mathlib.Core.List.{Permᴰ}
use open_invar.Ir.{SymbolId, Symbol}
use open_invar.Graph.{Backend, InvarGraph}
use open_invar.Delta.{GraphDelta}
use open_invar.Rules.{
  Rules, Rule, RuleKind, forbid_dependency, forbid_reference, layers, independence, max_fan_in,
  max_fan_out, no_cycles, requires_dependency, no_orphans, requires_test, naming_convention,
  no_field_removal, CycleLevel,
}
use open_invar.RuleEval.Edges.{Glob, Edge, edges, edge_rows, scope_path}
use open_invar.RuleEval.Sweep.{Tally, sweep, Violation, violation_ord}
use open_invar.RuleEval.Evaluate.{findings_of, evaluate_one, evaluate, found, definite, conclude}
use open_invar.RuleEval.Evaluate.Shuffle.{
  In-Permᴰ, symm, stored_as, filter_map-Permᴰ, values-Permᴰ, get-Permᴰ,
}
use open_invar.Delta.Compute.Keyed.{IsKeyed}
use open_invar.RuleEval.Forbid
use open_invar.RuleEval.Absence
use open_invar.RuleEval.Fan
use open_invar.RuleEval.Cycles
use open_invar.RuleEval.Fields.Order.{no_field_removal-same}

-- The violations of symbols are sorted, so that their order is forgotten.
sorted_breaches :
    (f : Symbol → Option Violation) {xs ys : List Symbol}
    → Permᴰ xs ys
    → sort (filter_map f xs) ≡ sort (filter_map f ys)
sorted_breaches f p = sort-perm (filter_map-Permᴰ f p)

module _ (G : Glob) (tarjan_scc : ℕ → List (ℕ × ℕ) → List (List ℕ)) (P : Backend)
    (g h : InvarGraph P) (same : (id : SymbolId) → get g.symbols id ≡ get h.symbols id)
    (moved : Permᴰ (values g.symbols) (values h.symbols)) (keyed : IsKeyed g.symbols) where
  scope_path-same : (id : SymbolId) → scope_path P g id ≡ scope_path P h id
  unfolding scope_path
  scope_path-same id = rw (scope_path, same id) refl

  forbid_edges-same :
      (es : List Edge) (from to : Text) (only : Bool)
      → Forbid.forbid_edges G P g es from to only ≡ Forbid.forbid_edges G P h es from to only
  unfolding Forbid.forbid_edges Forbid.forbid_judge Forbid.forbidden
  forbid_edges-same es from to only =
      ap (λ judge. sweep judge es)
        (fun_ext (λ (e : Edge). ground (arith, scope_path-same e.from, scope_path-same e.to)))

  layers-same :
      (es : List Edge) (stack : List Text)
      → Forbid.layers G P g es stack ≡ Forbid.layers G P h es stack
  unfolding Forbid.layers Forbid.layers_judge Forbid.upward Forbid.group_of
  layers-same es stack =
      ap (λ judge. sweep judge es)
        (fun_ext (λ (e : Edge). ground (arith, scope_path-same e.from, scope_path-same e.to)))

  independence-same :
      (es : List Edge) (modules : List Text)
      → Forbid.independence G P g es modules ≡ Forbid.independence G P h es modules
  unfolding Forbid.independence Forbid.independence_judge Forbid.dependent Forbid.group_of
  independence-same es modules =
      ap (λ judge. sweep judge es)
        (fun_ext (λ (e : Edge). ground (arith, scope_path-same e.from, scope_path-same e.to)))

  cycle_turn-same :
      (scope : Text) (level : CycleLevel) (s : Cycles.CycleScan) (e : Edge)
      → Cycles.cycle_turn G tarjan_scc P g scope level s e
        ≡ Cycles.cycle_turn G tarjan_scc P h scope level s e
  unfolding Cycles.cycle_turn
  cycle_turn-same scope level s e = ground (arith, scope_path-same e.from, scope_path-same e.to)

  no_cycles-same :
      (es : List Edge) (scope : Text) (level : CycleLevel)
      → Cycles.no_cycles G tarjan_scc P g es scope level
        ≡ Cycles.no_cycles G tarjan_scc P h es scope level
  unfolding Cycles.no_cycles
  no_cycles-same es scope level =
      rw (fun_ext (λ s. fun_ext (λ e. cycle_turn-same scope level s e))) refl

  requires_turn-same :
      (from to : Text) (s : Absence.Seen) (e : Edge)
      → Absence.requires_turn G P g from to s e ≡ Absence.requires_turn G P h from to s e
  unfolding Absence.requires_turn
  requires_turn-same from to s e = ground (arith, scope_path-same e.from, scope_path-same e.to)

  requires_dependency-same :
      (es : List Edge) (from to : Text)
      → Absence.requires_dependency G P g es from to ≡ Absence.requires_dependency G P h es from to
  unfolding Absence.requires_dependency Absence.requires_breach
  requires_dependency-same es from to =
      let s = foldl (Absence.requires_turn G P h from to) Absence.unseen es in
      rw
        (
          fun_ext (λ s. fun_ext (λ e. requires_turn-same from to s e)),
          sorted_breaches (Absence.requires_breach G P h from to s) moved,
        )
        refl

  no_orphans-same :
      (es : List Edge) (scope : Text) (roots : List Text)
      → Absence.no_orphans G P g es scope roots ≡ Absence.no_orphans G P h es scope roots
  unfolding Absence.no_orphans Absence.orphan_breach
  no_orphans-same es scope roots =
      let r = foldl Absence.orphan_turn Absence.unreached es in
      rw (sorted_breaches (Absence.orphan_breach G P h scope roots r) moved) refl

  requires_test-same :
      (es : List Edge) (delta : Option GraphDelta) (symbols : Text) (only : Option Text)
      (new : Bool)
      → Absence.requires_test G P g es delta symbols only new
        ≡ Absence.requires_test G P h es delta symbols only new
  unfolding Absence.requires_test Absence.test_breach
  requires_test-same es delta symbols only new =
      let r = foldl Absence.test_turn Absence.unreached es in
      rw
        (sorted_breaches (Absence.test_breach G P h symbols only (Absence.narrowed new delta) r)
          moved)
        refl

  naming_convention-same :
      (symbols pattern : Text) (only : Option Text)
      → Absence.naming_convention G P g symbols pattern only
        ≡ Absence.naming_convention G P h symbols pattern only
  unfolding Absence.naming_convention Absence.naming_breach
  naming_convention-same symbols pattern only =
      rw (sorted_breaches (Absence.naming_breach G P h symbols pattern only) moved) refl

  breach_at-same :
      (id : SymbolId) (text : Text) → Fan.breach_at P g id text ≡ Fan.breach_at P h id text
  unfolding Fan.breach_at
  breach_at-same id text = rw (Fan.breach_at, same id) refl

  fan_turn-same :
      (threshold : ℕ) (strong uncertain : SymbolId → ℕ) (text : ℕ → Text) (t : Tally)
      (id : SymbolId)
      → Fan.fan_turn P g threshold strong uncertain text t id
        ≡ Fan.fan_turn P h threshold strong uncertain text t id
  unfolding Fan.fan_turn
  fan_turn-same threshold strong uncertain text t id =
      ground (arith, same id, breach_at-same id (text (strong id)))

  judge_counts-same :
      (threshold : ℕ) (strong uncertain : SymbolId → ℕ) (text : ℕ → Text) (ids : List SymbolId)
      → Fan.judge_counts P g threshold strong uncertain text ids
        ≡ Fan.judge_counts P h threshold strong uncertain text ids
  unfolding Fan.judge_counts
  judge_counts-same threshold strong uncertain text ids =
      rw (fun_ext (λ t. fun_ext (λ id. fan_turn-same threshold strong uncertain text t id))) refl

  max_fan_in-same :
      (es : List Edge) (threshold : ℕ)
      → Fan.max_fan_in P g es threshold ≡ Fan.max_fan_in P h es threshold
  unfolding Fan.max_fan_in
  max_fan_in-same es threshold = search judge_counts-same

  max_fan_out-same :
      (es : List Edge) (threshold : ℕ)
      → Fan.max_fan_out P g es threshold ≡ Fan.max_fan_out P h es threshold
  unfolding Fan.max_fan_out
  max_fan_out-same es threshold = search judge_counts-same

  findings_of-same :
      (es : List Edge) (delta : Option GraphDelta) (k : RuleKind)
      → findings_of G tarjan_scc P g es delta k ≡ findings_of G tarjan_scc P h es delta k
  unfolding findings_of
  findings_of-same es delta (forbid_dependency from to) =
      ap found (forbid_edges-same es from to true)
  findings_of-same es delta (forbid_reference from to) =
      ap found (forbid_edges-same es from to false)
  findings_of-same es delta (layers stack) = ap found (layers-same es stack)
  findings_of-same es delta (independence modules) = ap found (independence-same es modules)
  findings_of-same es delta (max_fan_in threshold) = ap found (max_fan_in-same es threshold)
  findings_of-same es delta (max_fan_out threshold) = ap found (max_fan_out-same es threshold)
  findings_of-same es delta (requires_dependency from to) =
      ap found (requires_dependency-same es from to)
  findings_of-same es delta (no_orphans scope roots) = ap found (no_orphans-same es scope roots)
  findings_of-same es delta (requires_test symbols only new_only) =
      rw (requires_test-same es delta symbols only new_only) refl
  findings_of-same es delta (no_cycles scope level) = ap found (no_cycles-same es scope level)
  findings_of-same es delta (naming_convention symbols pattern only) =
      ap definite (naming_convention-same symbols pattern only)
  findings_of-same es none (no_field_removal symbol) = refl
  findings_of-same es (some d) (no_field_removal symbol) = ap definite (
      no_field_removal-same G P symbol g h (λ id s. stored_as g.symbols id s keyed)
        (λ s. (In-Permᴰ s moved, In-Permᴰ s (symm moved))) d)

  evaluate_one-same :
      (es : List Edge) (delta : Option GraphDelta) (rule : Rule)
      → evaluate_one G tarjan_scc P g rule es delta ≡ evaluate_one G tarjan_scc P h rule es delta
  unfolding evaluate_one
  evaluate_one-same es delta rule = ap (conclude rule) (findings_of-same es delta rule.kind)

-- The evaluation of a rules file does not depend on any order: with one delta, or with none, two
-- graphs whose maps hold the same symbols, each once and under its id, and whose edges have the same rows
-- get equal evaluations, the lists of violations included, whatever the order in which the maps list
-- their symbols and the graphs their edges.
pub evaluate-order :
    (G : Glob) (tarjan_scc : ℕ → List (ℕ × ℕ) → List (List ℕ)) (P : Backend) (g h : InvarGraph P)
    (rules : Rules) (delta : Option GraphDelta)
    → IsKeyed g.symbols
    → IsKeyed h.symbols
    → Permᴰ g.symbols h.symbols
    → Permᴰ (edge_rows P g) (edge_rows P h)
    → evaluate G tarjan_scc P g rules delta ≡ evaluate G tarjan_scc P h rules delta
unfolding evaluate edges
evaluate-order G tarjan_scc P g h rules delta keyed keyed' shuffled moved =
    let es = edges P h in
    let same =
      evaluate_one-same G tarjan_scc P g h
        (λ id. get-Permᴰ g.symbols h.symbols id keyed keyed' shuffled) (values-Permᴰ shuffled)
        keyed in
    rw (sort-perm moved, fun_ext (λ rule. same es delta rule)) refl
