-- ===== src/RuleEval/Absence/Verdicts.antt =====
-- rule_eval.rs: the verdicts of the rules on what is missing.
use open_invar.Prelude.{
  ◌≡◌, refl, ◌↔◌, inl, inr, true, Option, some, List, [], ◌∷◌, arith, In, Any, Any-map, sort, cmp,
  filter_map, In-filter_map, In-sort_by, list_ord, nat_ord,
}
use open_invar.Ir.{SymbolId, Symbol}
use open_invar.Rules.{Rule}
use open_invar.RuleEval.Edges.{Edge}
use open_invar.RuleEval.Sweep.{satisfied, violated, Violation, violation_ord}
use open_invar.RuleEval.Absence.{Reached, absence}
use open_invar.RuleEval.Evaluate.{conclude, found, definite}

pub absence-violated :
    (rule : Rule) (vs : List Violation) (r : Reached)
    → ((conclude rule (found (absence vs r))).verdict ≡ violated)
      ↔ (((v : Violation) × In v vs) × (r.structural_edges ≡ 0))
unfolding conclude absence
absence-violated rule [] r = ground arith
absence-violated rule (v ∷ vs) r = (λ h. ((v, inl refl), ground arith), λ h. ground arith)

pub absence-satisfied :
    (rule : Rule) (vs : List Violation) (r : Reached)
    → ((conclude rule (found (absence vs r))).verdict ≡ satisfied) ↔ (¬ ((v : Violation) × In v vs))
unfolding conclude absence
absence-satisfied rule [] r = (λ h x. absurd x.1, λ n. refl)
absence-satisfied rule (v ∷ vs) r = (λ h. absurd (ground arith), λ n. absurd (n (v, inl refl)))

pub definite-violated :
    (rule : Rule) (vs : List Violation)
    → ((conclude rule (definite vs)).verdict ≡ violated) ↔ ((v : Violation) × In v vs)
unfolding conclude
definite-violated rule [] = ground arith
definite-violated rule (v ∷ vs) = (λ h. (v, inl refl), λ h. refl)

pub definite-satisfied :
    (rule : Rule) (vs : List Violation)
    → ((conclude rule (definite vs)).verdict ≡ satisfied) ↔ (¬ ((v : Violation) × In v vs))
unfolding conclude
definite-satisfied rule [] = (λ h x. absurd x.1, λ n. refl)
definite-satisfied rule (v ∷ vs) = (λ h. absurd (ground arith), λ n. absurd (n (v, inl refl)))

-- A loop over the symbols that pushes a violation for those with a property finds one exactly when
-- some symbol has it.
module _ (f : Symbol → Option Violation) (Q : Symbol → Type 0)
    (same : (s : Symbol) → ((v : Violation) × (f s ≡ some v)) ↔ Q s) where
  pick : (xs : List Symbol) → Any Q xs → (v : Violation) × Any (λ s. f s ≡ some v) xs
  pick [] h = absurd h
  pick (s ∷ xs) (inl q) = let (v, e) = (same s).1 q in (v, inl e)
  pick (s ∷ xs) (inr r) = let (v, e) = pick xs r in (v, inr e)

  pub pushed : (xs : List Symbol) → ((v : Violation) × In v (sort (filter_map f xs))) ↔ Any Q xs
  pushed xs = (
    λ (v, m).
        Any-map (λ s. f s ≡ some v) Q xs (λ s e. (same s).0 (v, e))
          ((In-filter_map f v xs).0 ((In-sort_by cmp v (filter_map f xs)).0 m)),
    λ h.
        let (v, e) = pick xs h in
        (v, (In-sort_by cmp v (filter_map f xs)).1 ((In-filter_map f v xs).1 e)),
  )

-- Some resolved edge leads to the symbol.
abbrev pub Referenced : List Edge → SymbolId → Type 0
Referenced es id = Any (λ e. (e.gate_safe ≡ true) × (id ≡ e.to)) es
