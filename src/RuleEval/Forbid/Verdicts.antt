-- ===== src/RuleEval/Forbid/Verdicts.antt =====
-- rule_eval.rs: when `forbid-dependency`, `forbid-reference`, `layers` and `independence` hold.
use open_invar.Prelude.{
  ℕ, ◌≡◌, ◌≢◌, refl, ◌↔◌, inl, inr, ◌<◌, Bool, true, false, Option, some, List, Text, arith, Any,
  All, Any-map, All-map, Any-sort_by, All-sort_by, sort, cmp,
}
use open_invar.Graph.{Backend, InvarGraph}
use open_invar.Delta.{GraphDelta}
use open_invar.Rules.{
  Rule, RuleKind, Severity, forbid_dependency, forbid_reference, layers, independence,
}
use open_invar.RuleEval.Edges.{Glob, Edge, compile, scope_path, edges, edge_rows, edge_ord}
use open_invar.RuleEval.Sweep.{Verdict, satisfied, violated, Judged, sweep, pass, weak}
use open_invar.RuleEval.Forbid
use open_invar.RuleEval.Forbid.{
  forbid_judge, forbidden, layers_judge, upward, group_of, independence_judge, dependent,
}
use open_invar.RuleEval.Evaluate.{evaluate_one, findings_of, found}
use open_invar.RuleEval.Evaluate.Verdicts.{Breached, judged-cases, violated-sweep, satisfied-sweep}

module _ (G : Glob) (P : Backend) (g : InvarGraph P) where
  -- The path of an id is one that a glob accepts.
  abbrev pub Under : Text → Text → Type 0
  Under glob id =
      (path : Text) × (scope_path P g id ≡ some path) × (G.matches (compile G glob) path ≡ true)

  -- A resolved edge from one scope to the other, of a kind that counts.
  abbrev pub Crosses : Text → Text → Bool → Edge → Type 0
  Crosses from to dependency_only e =
      (dependency_only ≡ true → e.is_dependency ≡ true)
      × (e.gate_safe ≡ true)
      × Under from e.from
      × Under to e.to

  forbid_judge-Crosses :
      (from to : Text) (d : Bool) (e : Edge)
      → Breached (forbid_judge G P g from to d) e ↔ Crosses from to d e
  unfolding forbid_judge
  forbid_judge-Crosses from to d e = (
    λ (v, h). ground arith,
    λ (k, s, (source, p, m), (target, q, n)).
        (forbidden G P g from to e source target, ground arith),
  )

  -- An edge that the rule has cleared: out of a source in scope it is resolved, and leads elsewhere.
  abbrev pub Clears : Text → Text → Bool → Edge → Type 0
  Clears from to dependency_only e =
      (dependency_only ≡ true → e.is_dependency ≡ true)
      → Under from e.from
      → (e.gate_safe ≡ true) × (¬ Under to e.to)

  forbid_judge-weak :
      (from to : Text) (d : Bool) (e : Edge)
      → forbid_judge G P g from to d e ≡ weak
      → (d ≡ true → e.is_dependency ≡ true) × (e.gate_safe ≡ false) × Under from e.from
  unfolding forbid_judge
  forbid_judge-weak from to d e h = ground arith

  forbid_judge-Clears :
      (from to : Text) (d : Bool) (e : Edge)
      → (forbid_judge G P g from to d e ≡ pass) ↔ Clears from to d e
  forbid_judge-Clears from to d e = (
    unfold forbid_judge in λ h k (source, p, m). ground arith,
    λ c. elim (judged-cases (forbid_judge G P g from to d e)) [
      | inl h ↦ h
      | inr (inl h) ↦ let (k, s, under) = forbid_judge-weak from to d e h in cc (s, (c k under).0)
      | inr (inr b) ↦
          let (k, s, under, target) = (forbid_judge-Crosses from to d e).0 b in
          absurd ((c k under).1 target)
    ],
  )

  -- A dependency on resolved evidence from a path in layer `i` to one in an earlier layer `j`.
  abbrev pub Climbs : List Text → Edge → Type 0
  Climbs stack e =
      (e.is_dependency ≡ true)
      × (e.gate_safe ≡ true)
      × (source : Text) × (scope_path P g e.from ≡ some source)
      × (i : ℕ) × (group_of G P g stack source ≡ some i)
      × (target : Text) × (scope_path P g e.to ≡ some target)
      × (j : ℕ) × (group_of G P g stack target ≡ some j)
      × (j < i)

  layers_judge-Climbs :
      (stack : List Text) (e : Edge) → Breached (layers_judge G P g stack) e ↔ Climbs stack e
  unfolding layers_judge
  layers_judge-Climbs stack e = (
    λ (v, h). ground arith,
    λ (d, s, source, p, i, m, target, q, j, n, lt).
        (upward G P g stack e source i target j, ground arith),
  )

  -- A reference on resolved evidence from a path in module `i` to one in another module `j`.
  abbrev pub Couples : List Text → Edge → Type 0
  Couples modules e =
      (e.gate_safe ≡ true)
      × (source : Text) × (scope_path P g e.from ≡ some source)
      × (i : ℕ) × (group_of G P g modules source ≡ some i)
      × (target : Text) × (scope_path P g e.to ≡ some target)
      × (j : ℕ) × (group_of G P g modules target ≡ some j)
      × (i ≢ j)

  independence_judge-Couples :
      (modules : List Text) (e : Edge)
      → Breached (independence_judge G P g modules) e ↔ Couples modules e
  unfolding independence_judge
  independence_judge-Couples modules e = (
    λ (v, h). ground arith,
    λ (s, source, p, i, m, target, q, j, n, ne).
        (dependent G P g modules e source i target j, ground arith),
  )

module _ (G : Glob) (tarjan_scc : ℕ → List (ℕ × ℕ) → List (List ℕ)) (P : Backend)
    (g : InvarGraph P) where
  abbrev verdict_on : Rule → Option GraphDelta → Verdict
  verdict_on rule delta = (evaluate_one G tarjan_scc P g rule (edges P g) delta).verdict

  module _ (name : Text) (severity : Severity) (delta : Option GraphDelta) where
    abbrev rule_of : RuleKind → Rule
    rule_of kind = record { name = name; kind = kind; severity = severity }

    violated-rows :
        (kind : RuleKind) (judge : Edge → Judged) (Q : Edge → Type 0)
        → findings_of G tarjan_scc P g (edges P g) delta kind ≡ found (sweep judge (edges P g))
        → ((e : Edge) → Breached judge e ↔ Q e)
        → (verdict_on (rule_of kind) delta ≡ violated) ↔ Any Q (edge_rows P g)
    unfolding evaluate_one edges findings_of
    violated-rows kind judge Q found_by same =
        let es = sort (edge_rows P g) in
        let said = violated-sweep judge (rule_of kind) es in
        let sorted = Any-sort_by Q cmp (edge_rows P g) in
        (
          λ h.
              sorted.0
                (Any-map (Breached judge) Q es (λ e. (same e).0) (said.0 (rw found_by at h))),
          λ h. rw found_by (said.1 (Any-map Q (Breached judge) es (λ e. (same e).1) (sorted.1 h))),
        )

    satisfied-rows :
        (kind : RuleKind) (judge : Edge → Judged) (Q : Edge → Type 0)
        → findings_of G tarjan_scc P g (edges P g) delta kind ≡ found (sweep judge (edges P g))
        → ((e : Edge) → (judge e ≡ pass) ↔ Q e)
        → (verdict_on (rule_of kind) delta ≡ satisfied) ↔ All Q (edge_rows P g)
    unfolding evaluate_one edges findings_of
    satisfied-rows kind judge Q found_by same =
        let es = sort (edge_rows P g) in
        let said = satisfied-sweep judge (rule_of kind) es in
        let sorted = All-sort_by Q cmp (edge_rows P g) in
        (
          λ h.
              sorted.0
                (All-map (λ e. judge e ≡ pass) Q es (λ e. (same e).0) (said.0 (rw found_by at h))),
          λ h.
              rw found_by
                (said.1 (All-map Q (λ e. judge e ≡ pass) es (λ e. (same e).1) (sorted.1 h))),
        )

    -- `forbid-dependency` is violated exactly when a resolved import or re-export of the graph runs
    -- from a path in the one scope to a path in the other, and satisfied exactly when each such
    -- edge that leaves the first scope is resolved and leads elsewhere.
    pub forbid_dependency-verdict :
        (from to : Text)
        → ((verdict_on (rule_of (forbid_dependency from to)) delta ≡ violated)
            ↔ Any (Crosses G P g from to true) (edge_rows P g))
          × ((verdict_on (rule_of (forbid_dependency from to)) delta ≡ satisfied)
              ↔ All (Clears G P g from to true) (edge_rows P g))
    unfolding findings_of Forbid.forbid_edges
    forbid_dependency-verdict from to = (
      violated-rows (forbid_dependency from to) (forbid_judge G P g from to true)
          (Crosses G P g from to true) refl (forbid_judge-Crosses G P g from to true),
      satisfied-rows (forbid_dependency from to) (forbid_judge G P g from to true)
          (Clears G P g from to true) refl (forbid_judge-Clears G P g from to true),
    )

    -- `forbid-reference` is violated exactly when a resolved edge of any kind runs from a path in
    -- the one scope to a path in the other, and satisfied exactly when each edge that leaves the
    -- first scope is resolved and leads elsewhere.
    pub forbid_reference-verdict :
        (from to : Text)
        → ((verdict_on (rule_of (forbid_reference from to)) delta ≡ violated)
            ↔ Any (Crosses G P g from to false) (edge_rows P g))
          × ((verdict_on (rule_of (forbid_reference from to)) delta ≡ satisfied)
              ↔ All (Clears G P g from to false) (edge_rows P g))
    unfolding findings_of Forbid.forbid_edges
    forbid_reference-verdict from to = (
      violated-rows (forbid_reference from to) (forbid_judge G P g from to false)
          (Crosses G P g from to false) refl (forbid_judge-Crosses G P g from to false),
      satisfied-rows (forbid_reference from to) (forbid_judge G P g from to false)
          (Clears G P g from to false) refl (forbid_judge-Clears G P g from to false),
    )

    -- `layers` is violated exactly when a resolved dependency runs from a path of one layer to a
    -- path of an earlier one.
    pub layers-violated :
        (stack : List Text)
        → (verdict_on (rule_of (layers stack)) delta ≡ violated)
          ↔ Any (Climbs G P g stack) (edge_rows P g)
    unfolding findings_of Forbid.layers
    layers-violated stack =
        violated-rows (layers stack) (layers_judge G P g stack) (Climbs G P g stack) refl
          (layers_judge-Climbs G P g stack)

    -- `independence` is violated exactly when a resolved reference runs from a path of one module
    -- to a path of another.
    pub independence-violated :
        (modules : List Text)
        → (verdict_on (rule_of (independence modules)) delta ≡ violated)
          ↔ Any (Couples G P g modules) (edge_rows P g)
    unfolding findings_of Forbid.independence
    independence-violated modules =
        violated-rows (independence modules) (independence_judge G P g modules)
          (Couples G P g modules) refl (independence_judge-Couples G P g modules)
