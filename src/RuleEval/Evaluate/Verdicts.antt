-- ===== src/RuleEval/Evaluate/Verdicts.antt =====
-- rule_eval.rs: what an outcome says, whichever evaluator ran.
use open_invar.Prelude.{
  ℕ, ◌≡◌, ◌≢◌, refl, ◌↔◌, ◌⊎◌, inl, inr, ◌<◌, Bool, true, false, not, ◌&&◌, Option, none, some,
  List, [], ◌∷◌, arith, In, Any, All, count_if, is_some, Any-map, sym, ◌∙◌, subst,
}
use mathlib.Core.Logic.{⊎_elim}
use open_invar.Graph.{Backend, InvarGraph}
use open_invar.Delta.{GraphDelta}
use open_invar.Rules.{Rule, RuleKind, needs_delta, requires_test, no_field_removal}
use open_invar.RuleEval.Edges.{Glob, Edge}
use open_invar.RuleEval.Sweep.{
  satisfied, violated, inconclusive, skipped, Violation, Uncertainty, Judged, pass, weak, breach,
  is_weak, sweep, In-sweep, unresolved-sweep,
}
use open_invar.RuleEval.Evaluate.{
  RuleOutcome, Finding, skip, found, definite, conclude, findings_of, evaluate_one,
}

-- What the comments on the fields of `RuleOutcome` promise.
pub record IsCoherent (o : RuleOutcome) : Type 0 where
  pub breaches : (o.verdict ≡ violated) ↔ (o.violations ≢ [])
  pub doubts : (o.verdict ≡ inconclusive) ↔ (is_some o.uncertainty ≡ true)
  pub counted : (u : Uncertainty) → o.uncertainty ≡ some u → 0 < u.unresolved_edges
  pub reasons : (o.verdict ≡ skipped) ↔ (is_some o.skipped_because ≡ true)

conclude-IsCoherent : (rule : Rule) (f : Finding) → IsCoherent (conclude rule f)
unfolding conclude
conclude-IsCoherent rule (skip reason) = ground arith
conclude-IsCoherent rule (found (vs, u)) = ground arith
conclude-IsCoherent rule (definite vs) = ground arith

abbrev is_skip : Finding → Bool
is_skip (skip reason) = true
is_skip (found p) = false
is_skip (definite vs) = false

skipped-conclude :
    (rule : Rule) (f : Finding) → ((conclude rule f).verdict ≡ skipped) ↔ (is_skip f ≡ true)
unfolding conclude
skipped-conclude rule (skip reason) = ground arith
skipped-conclude rule (found (vs, u)) = ground arith
skipped-conclude rule (definite vs) = ground arith

pub violated-found :
    (rule : Rule) (p : List Violation × Uncertainty)
    → ((conclude rule (found p)).verdict ≡ violated) ↔ ((v : Violation) × In v p.0)
unfolding conclude
violated-found rule ([], u) = ground arith
violated-found rule (v ∷ vs, u) = (λ _. (v, inl refl), λ _. refl)

pub satisfied-found :
    (rule : Rule) (p : List Violation × Uncertainty)
    → ((conclude rule (found p)).verdict ≡ satisfied) ↔ ((p.0 ≡ []) × (p.1.unresolved_edges ≡ 0))
unfolding conclude
satisfied-found rule ([], u) = ground arith
satisfied-found rule (v ∷ vs, u) = ground arith

pub judged-cases : (j : Judged) → (j ≡ pass) ⊎ (j ≡ weak) ⊎ ((v : Violation) × (j ≡ breach v))
judged-cases pass = inl refl
judged-cases weak = inr (inl refl)
judged-cases (breach v) = inr (inr (v, refl))

module _ (judge : Edge → Judged) where
  abbrev pub Breached : Edge → Type 0
  Breached e = (v : Violation) × (judge e ≡ breach v)

  Any-Breached :
      (v : Violation) (es : List Edge) → Any (λ e. judge e ≡ breach v) es → Any Breached es
  Any-Breached v es = Any-map (λ e. judge e ≡ breach v) Breached es (λ e h. (v, h))

  breach_of :
      (es : List Edge) → Any Breached es → (v : Violation) × Any (λ e. judge e ≡ breach v) es
  breach_of [] h = absurd h
  breach_of (e ∷ es) (inl (v, h)) = (v, inl h)
  breach_of (e ∷ es) (inr r) = let (v, h) = breach_of es r in (v, inr h)

  pass_of : (j : Judged) → is_weak j ≡ false → ((v : Violation) → j ≢ breach v) → j ≡ pass
  pass_of pass h n = refl
  pass_of weak h n = cc
  pass_of (breach v) h n = absurd (n v refl)

  All-pass :
      (es : List Edge)
      → (¬ Any Breached es)
      → count_if (λ e. is_weak (judge e)) es ≡ 0
      → All (λ e. judge e ≡ pass) es
  All-pass [] n c = tt
  All-pass (e ∷ es) n c = (
    pass_of (judge e) (ground arith) (λ v h. n (inl (v, h))),
    All-pass es (λ r. n (inr r)) (ground arith),
  )

  none_of_pass :
      (es : List Edge)
      → All (λ e. judge e ≡ pass) es
      → (¬ Any Breached es) × (count_if (λ e. is_weak (judge e)) es ≡ 0)
  none_of_pass [] a = (λ h. h, refl)
  none_of_pass (e ∷ es) a =
      let (n, c) = none_of_pass es a.1 in (⊎_elim (λ (v, h). cc (a.0, h)) n, ground (arith, a.0, c))

  nil_of_none : (vs : List Violation) → ((v : Violation) → ¬ In v vs) → vs ≡ []
  nil_of_none [] n = refl
  nil_of_none (v ∷ vs) n = absurd (n v (inl refl))

  -- A swept rule is violated exactly when some edge is a breach.
  pub violated-sweep :
      (rule : Rule) (es : List Edge)
      → ((conclude rule (found (sweep judge es))).verdict ≡ violated) ↔ Any Breached es
  violated-sweep rule es =
      let said = violated-found rule (sweep judge es) in
      (
        λ h. let (v, m) = said.0 h in Any-Breached v es ((In-sweep judge v es).0 m),
        λ h. let (v, m) = breach_of es h in said.1 (v, (In-sweep judge v es).1 m),
      )

  -- It is satisfied exactly when every edge was examined and passed.
  pub satisfied-sweep :
      (rule : Rule) (es : List Edge)
      → ((conclude rule (found (sweep judge es))).verdict ≡ satisfied)
        ↔ All (λ e. judge e ≡ pass) es
  satisfied-sweep rule es =
      let said = satisfied-found rule (sweep judge es) in
      (
        λ h.
            All-pass es
              (λ b.
                let (v, m) = breach_of es b in
                subst (In v) (said.0 h).0 ((In-sweep judge v es).1 m))
              (sym (unresolved-sweep judge es) ∙ (said.0 h).1),
        λ a.
            let (n, c) = none_of_pass es a in
            said.1 (
              nil_of_none (sweep judge es).0
                  (λ v m. n (Any-Breached v es ((In-sweep judge v es).0 m))),
              unresolved-sweep judge es ∙ c,
            ),
      )

module _ (G : Glob) (tarjan_scc : ℕ → List (ℕ × ℕ) → List (List ℕ)) (P : Backend)
    (g : InvarGraph P) where
  is_skip-findings_of :
      (es : List Edge) (delta : Option GraphDelta) (k : RuleKind)
      → is_skip (findings_of G tarjan_scc P g es delta k) ≡ (needs_delta k && not (is_some delta))
  unfolding findings_of needs_delta
  is_skip-findings_of es delta (requires_test symbols only new_only) = ground arith
  is_skip-findings_of es none (no_field_removal symbol) = refl
  is_skip-findings_of es (some d) (no_field_removal symbol) = refl
  is_skip-findings_of es delta _ = refl

  -- Every outcome is coherent: the verdict is `Violated` exactly when there are violations, and
  -- `Inconclusive` exactly when there is an uncertainty, which then counts an edge at least; it is
  -- `Skipped` exactly when a reason is given.
  pub evaluate_one-IsCoherent :
      (rule : Rule) (es : List Edge) (delta : Option GraphDelta)
      → IsCoherent (evaluate_one G tarjan_scc P g rule es delta)
  unfolding evaluate_one
  evaluate_one-IsCoherent rule es delta =
      conclude-IsCoherent rule (findings_of G tarjan_scc P g es delta rule.kind)

  -- A rule is skipped exactly when it needs a delta and none is there.
  pub evaluate_one-skipped :
      (rule : Rule) (es : List Edge) (delta : Option GraphDelta)
      → ((evaluate_one G tarjan_scc P g rule es delta).verdict ≡ skipped)
        ↔ ((needs_delta rule.kind ≡ true) × (delta ≡ none))
  unfolding evaluate_one
  evaluate_one-skipped rule es delta = ground (
    arith,
    skipped-conclude rule (findings_of G tarjan_scc P g es delta rule.kind),
    is_skip-findings_of es delta rule.kind,
  )
