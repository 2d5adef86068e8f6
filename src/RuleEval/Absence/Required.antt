-- ===== src/RuleEval/Absence/Required.antt =====
-- rule_eval.rs: when `requires-dependency` holds.
use open_invar.Prelude.{
  ℕ, ◌≡◌, ◌≢◌, refl, subst, ◌↔◌, ◌⊎◌, inl, inr, true, false, Option, some, List, [], ◌∷◌, foldl,
  Text, arith, Any, In, sort, values, filter_map, contains, contains-set_insert, list_ord, nat_ord,
  Option-cases,
}
use mathlib.Core.Logic.{⊎_elim}
use open_invar.Ir.{SymbolId, Symbol, symbol_kind_ord}
use open_invar.Graph.{Backend, InvarGraph}
use open_invar.Delta.{GraphDelta}
use open_invar.Rules.{Rule, requires_dependency}
use open_invar.RuleEval.Edges.{Glob, Edge, compile, scope_path}
use open_invar.RuleEval.Sweep.{satisfied, violated, Violation, violation_ord, Uncertainty}
use open_invar.RuleEval.Absence.{
  Seen, unseen, requires_turn, requires_breach, is_file_symbol, missing,
}
use open_invar.RuleEval.Absence
use open_invar.RuleEval.Absence.Verdicts.{pushed}
use open_invar.RuleEval.Evaluate.{evaluate_one, findings_of}
use open_invar.RuleEval.Evaluate.Verdicts.{violated-found, satisfied-found}
use open_invar.RuleEval.Forbid.Verdicts.{Under}

nothing : (id : SymbolId) → contains [] id ≡ false
unfolding contains
nothing id = refl

nil_of : (vs : List Violation) → ((v : Violation) → ¬ In v vs) → vs ≡ []
nil_of [] n = refl
nil_of (v ∷ vs) n = absurd (n v (inl refl))

module _ (G : Glob) (P : Backend) (g : InvarGraph P) (from to : Text) where
  -- A resolved edge out of the symbol, from the one scope into the other.
  abbrev pub Fulfils : SymbolId → Edge → Type 0
  Fulfils id e =
      (id ≡ e.from) × (Under G P g from e.from × ((e.gate_safe ≡ true) × Under G P g to e.to))

  -- A weaker edge out of the scope.
  abbrev pub Wavers : Edge → Type 0
  Wavers e = Under G P g from e.from × (e.gate_safe ≡ false)

  abbrev turn : Seen → Edge → Seen
  turn = requires_turn G P g from to

  found-turn :
      (id : SymbolId) (s : Seen) (e : Edge)
      → (contains (turn s e).found id ≡ true) ↔ ((contains s.found id ≡ true) ⊎ Fulfils id e)
  unfolding requires_turn
  found-turn id s e = (
    λ h. ground (arith, contains-set_insert id e.from s.found),
    ⊎_elim (λ h. ground (arith, contains-set_insert id e.from s.found))
        (λ (same, ((p, q, m), (safe, (p', q', m')))).
          ground (arith, contains-set_insert id e.from s.found)),
  )

  unproven-turn :
      (id : SymbolId) (s : Seen) (e : Edge)
      → (contains (turn s e).unproven id ≡ true)
        ↔ ((contains s.unproven id ≡ true) ⊎ ((id ≡ e.from) × Wavers e))
  unfolding requires_turn
  unproven-turn id s e = (
    λ h. ground (arith, contains-set_insert id e.from s.unproven),
    ⊎_elim (λ h. ground (arith, contains-set_insert id e.from s.unproven))
        (λ (same, ((p, q, m), weak)). ground (arith, contains-set_insert id e.from s.unproven)),
  )

  unresolved-turn :
      (s : Seen) (e : Edge)
      → ((turn s e).unresolved_edges ≡ 0) ↔ ((s.unresolved_edges ≡ 0) × (¬ Wavers e))
  unfolding requires_turn
  unresolved-turn s e = (
    λ h. (ground arith, λ ((p, q, m), weak). ground arith),
    λ (none_yet, n). elim (Option-cases (scope_path P g e.from)) [
      | inl nowhere ↦ ground arith
      | inr (p, q) ↦
          let strong : G.matches (compile G from) p ≡ true → e.gate_safe ≢ false =
            λ m weak. n ((p, q, m), weak) in
          ground (arith, strong)
    ],
  )

  abbrev scanned : Seen → List Edge → Seen
  scanned s es = foldl turn s es

  found-scanned :
      (id : SymbolId) (s : Seen) (es : List Edge)
      → (contains (scanned s es).found id ≡ true)
        ↔ ((contains s.found id ≡ true) ⊎ Any (Fulfils id) es)
  found-scanned id s [] = ground arith
  found-scanned id s (e ∷ es) =
      let here = found-turn id s e in
      let rest = found-scanned id (turn s e) es in
      (
        λ h. ⊎_elim (λ k. ⊎_elim inl (λ f. inr (inl f)) (here.0 k)) (λ r. inr (inr r)) (rest.0 h),
        ⊎_elim (λ k. rest.1 (inl (here.1 (inl k))))
            (⊎_elim (λ f. rest.1 (inl (here.1 (inr f)))) (λ r. rest.1 (inr r))),
      )

  unproven-scanned :
      (id : SymbolId) (s : Seen) (es : List Edge)
      → (contains (scanned s es).unproven id ≡ true)
        ↔ ((contains s.unproven id ≡ true) ⊎ Any (λ e. (id ≡ e.from) × Wavers e) es)
  unproven-scanned id s [] = ground arith
  unproven-scanned id s (e ∷ es) =
      let here = unproven-turn id s e in
      let rest = unproven-scanned id (turn s e) es in
      (
        λ h. ⊎_elim (λ k. ⊎_elim inl (λ f. inr (inl f)) (here.0 k)) (λ r. inr (inr r)) (rest.0 h),
        ⊎_elim (λ k. rest.1 (inl (here.1 (inl k))))
            (⊎_elim (λ f. rest.1 (inl (here.1 (inr f)))) (λ r. rest.1 (inr r))),
      )

  unresolved-scanned :
      (s : Seen) (es : List Edge)
      → ((scanned s es).unresolved_edges ≡ 0) ↔ ((s.unresolved_edges ≡ 0) × (¬ Any Wavers es))
  unresolved-scanned s [] = (λ h. (h, λ x. x), λ h. h.0)
  unresolved-scanned s (e ∷ es) =
      let here = unresolved-turn s e in
      let rest = unresolved-scanned (turn s e) es in
      (
        λ h. let (k, n) = rest.0 h in ((here.0 k).0, ⊎_elim (here.0 k).1 n),
        λ (k, n). rest.1 (here.1 (k, λ w. n (inl w)), λ r. n (inr r)),
      )

  -- A symbol in scope, not the symbol of its file, with no edge that fulfils the requirement and none
  -- that might.
  abbrev pub Lacks : List Edge → Symbol → Type 0
  Lacks es s =
      (G.matches (compile G from) s.file ≡ true)
      × (is_file_symbol s ≡ false)
      × (¬ Any (Fulfils s.id) es)
      × (¬ Any (λ e. (s.id ≡ e.from) × Wavers e) es)

  found-unseen :
      (id : SymbolId) (es : List Edge)
      → (contains (scanned unseen es).found id ≡ true) ↔ Any (Fulfils id) es
  found-unseen id es =
      let all = found-scanned id unseen es in
      (
        λ h. ⊎_elim (λ k. absurd (ground (arith, nothing id, k))) (λ f. f) (all.0 h),
        λ f. all.1 (inr f),
      )

  unproven-unseen :
      (id : SymbolId) (es : List Edge)
      → (contains (scanned unseen es).unproven id ≡ true) ↔ Any (λ e. (id ≡ e.from) × Wavers e) es
  unproven-unseen id es =
      let all = unproven-scanned id unseen es in
      (
        λ h. ⊎_elim (λ k. absurd (ground (arith, nothing id, k))) (λ f. f) (all.0 h),
        λ f. all.1 (inr f),
      )

  requires_breach-Lacks :
      (es : List Edge) (s : Symbol)
      → ((v : Violation) × (requires_breach G P g from to (scanned unseen es) s ≡ some v))
        ↔ Lacks es s
  unfolding requires_breach
  requires_breach-Lacks es s =
      let f = found-unseen s.id es in
      let u = unproven-unseen s.id es in
      (λ (v, h). ground (arith, f, u), λ h. (missing to s, ground (arith, f, u)))

module _ (G : Glob) (tarjan_scc : ℕ → List (ℕ × ℕ) → List (List ℕ)) (P : Backend) (g : InvarGraph P)
    (rule : Rule) (es : List Edge) (delta : Option GraphDelta) (from to : Text)
    (kind : rule.kind ≡ requires_dependency from to) where
  -- `requires-dependency` is violated exactly when some symbol lacks the dependency and has no weaker
  -- edge that might be it, and satisfied exactly when there is no such symbol and no weaker edge
  -- leaves the scope.
  pub requires_dependency-verdict :
      (((evaluate_one G tarjan_scc P g rule es delta).verdict ≡ violated)
        ↔ Any (Lacks G P g from to es) (values g.symbols))
      × (((evaluate_one G tarjan_scc P g rule es delta).verdict ≡ satisfied) ↔ (
          (¬ Any (Lacks G P g from to es) (values g.symbols)) × (¬ Any (Wavers G P g from to) es)))
  unfolding evaluate_one findings_of Absence.requires_dependency
  requires_dependency-verdict =
      let s = scanned G P g from to unseen es in
      let f = requires_breach G P g from to s in
      let vs = sort (filter_map f (values g.symbols)) in
      let same =
        pushed f (Lacks G P g from to es) (requires_breach-Lacks G P g from to es)
          (values g.symbols) in
      let left = unresolved-scanned G P g from to unseen es in
      let outcome : List Violation × Uncertainty =
        (vs, record { unresolved_edges = s.unresolved_edges; files = s.unresolved_files }) in
      let bad = violated-found rule outcome in
      let safe = satisfied-found rule outcome in
      rw kind (
        (λ h. same.0 (bad.0 h), λ h. bad.1 (same.1 h)),
        (
          λ h.
              let (empty, zero_left) = safe.0 h in
              (λ x. let (v, m) = same.1 x in subst (In v) empty m, (left.0 zero_left).1),
          λ (n, no_weak). safe.1 (nil_of vs (λ v m. n (same.0 (v, m))), left.1 (refl, no_weak)),
        ),
      )
