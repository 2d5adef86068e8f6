-- ===== src/RuleEval/Fan/Inbound.antt =====
-- rule_eval.rs: `max-fan-in` against a count of the inbound edges.
use open_invar.Prelude.{
  ℕ, ◌+◌, ◌<◌, ◌≤◌, ◌≡◌, ◌↔◌, ◌⊎◌, inl, inr, Bool, true, false, not, ◌&&◌, Option, List, [], ◌∷◌,
  foldl, Text, display, ◌++◌, bytes, count_if, All, In, Any-witness, All-at, All-every, Bool-cases,
  ltb, arith, if◌then◌else◌, Map, get, keys, eqb, eqb_iff, unwrap_or, get-tree_insert, In-keys,
  set_insert, In-set_insert, Any-of_In, list_ord, nat_ord,
}
use open_invar.Ir.{SymbolId}
use open_invar.Graph.{Backend, InvarGraph}
use open_invar.SymbolId.{is_external_package}
use open_invar.Delta.{GraphDelta}
use open_invar.Rules.{Rule, max_fan_in}
use open_invar.RuleEval.Edges.{Glob, Edge}
use open_invar.RuleEval.Sweep.{satisfied, violated}
use open_invar.RuleEval.Evaluate.{evaluate_one, findings_of}
use open_invar.RuleEval.Fan.{Counts, no_counts, bump, fan_in_turn, candidates}
use open_invar.RuleEval.Fan
use open_invar.RuleEval.Fan.Judge.{verdict-judge_counts}

In-inserted :
    (id : SymbolId) (s ids : List SymbolId)
    → In id (foldl (λ t i. set_insert i t) s ids) ↔ (In id s ⊎ In id ids)
In-inserted id s [] = ground arith
In-inserted id s (i ∷ ids) =
    ground (arith, In-inserted id (set_insert i s) ids, In-set_insert id i s)

pub In-candidates :
    {V : Type 0} (c : Counts V) (id : SymbolId)
    → In id (candidates c) ↔ (In id (keys c.resolved) ⊎ In id (keys c.weaker))
unfolding candidates
In-candidates c id = ground (
  arith,
  In-inserted id [] (keys c.resolved),
  In-inserted id (foldl (λ t i. set_insert i t) [] (keys c.resolved)) (keys c.weaker),
)

-- The edges to a symbol, resolved ones or weaker ones; external packages are not counted.
abbrev pub into : Bool → SymbolId → Edge → Bool
into safe id e =
    not (is_external_package e.to)
    && ((if safe then e.gate_safe else not e.gate_safe) && eqb e.to id)

abbrev counted : Map SymbolId ℕ → SymbolId → ℕ
counted m id = unwrap_or (get m id) 0

counted-bump :
    (m : Map SymbolId ℕ) (k id : SymbolId)
    → counted (bump m k) id ≡ counted m id + (if eqb k id then 1 else 0)
unfolding bump
counted-bump m k id = ground (arith, get-tree_insert m k id (counted m k + 1), eqb_iff k id)

turn :
    (c : Counts ℕ) (e : Edge) (id : SymbolId)
    → (counted (fan_in_turn c e).resolved id
        ≡ counted c.resolved id + (if into true id e then 1 else 0))
      × (counted (fan_in_turn c e).weaker id
          ≡ counted c.weaker id + (if into false id e then 1 else 0))
unfolding fan_in_turn
turn c e id = ground (arith, counted-bump c.resolved e.to id, counted-bump c.weaker e.to id)

run :
    (c : Counts ℕ) (es : List Edge) (id : SymbolId)
    → (counted (foldl fan_in_turn c es).resolved id
        ≡ counted c.resolved id + count_if (into true id) es)
      × (counted (foldl fan_in_turn c es).weaker id
          ≡ counted c.weaker id + count_if (into false id) es)
run c [] id = (omega arith, omega arith)
run c (e ∷ es) id =
    let (a, b) = turn c e id in
    let (p, q) = run (fan_in_turn c e) es id in (omega (arith, a, p), omega (arith, b, q))

tallied-counts :
    (es : List Edge) (id : SymbolId)
    → (counted (foldl fan_in_turn no_counts es).resolved id ≡ count_if (into true id) es)
      × (counted (foldl fan_in_turn no_counts es).weaker id ≡ count_if (into false id) es)
unfolding get
tallied-counts es id = let (a, b) = run no_counts es id in (omega (arith, a), omega (arith, b))

module _ (G : Glob) (tarjan_scc : ℕ → List (ℕ × ℕ) → List (List ℕ)) (P : Backend) (g : InvarGraph P)
    (rule : Rule) (es : List Edge) (delta : Option GraphDelta) (threshold : ℕ)
    (kind : rule.kind ≡ max_fan_in threshold) where
  abbrev tallied : Counts ℕ
  tallied = foldl fan_in_turn no_counts es

  abbrev total : SymbolId → ℕ
  total id = count_if (into true id) es + count_if (into false id) es

  is_candidate : (id : SymbolId) → 0 < total id → In id (candidates tallied)
  is_candidate id some_edge =
      let (a, b) = tallied-counts es id in
      ground (
        arith,
        In-candidates tallied id,
        In-keys tallied.resolved id,
        In-keys tallied.weaker id,
        a,
        b,
        some_edge,
      )

  abbrev resolved : SymbolId → ℕ
  resolved = counted tallied.resolved

  abbrev weaker : SymbolId → ℕ
  weaker = counted tallied.weaker

  abbrev text : ℕ → Text
  text n = display n ++ (bytes " inbound references, limit is " ++ display threshold)

  at_most :
      (id : SymbolId)
      → All (λ id. resolved id + weaker id ≤ threshold) (candidates tallied)
      → total id ≤ threshold
  at_most id every = elim (Bool-cases (ltb 0 (total id))) [
    | inl some_edge ↦
        let within =
          All-at (λ id. resolved id + weaker id ≤ threshold) id (candidates tallied) every
            (is_candidate id (ground arith)) in
        omega (arith, within, tallied-counts es id)
    | inr no_edge ↦ ground arith
  ]

  -- `max-fan-in` is violated exactly when more resolved edges lead to some symbol than the
  -- threshold allows, and satisfied exactly when no symbol has more inbound edges than that,
  -- resolved or not; edges to external packages do not count.
  pub max_fan_in-verdict :
      (((evaluate_one G tarjan_scc P g rule es delta).verdict ≡ violated)
        ↔ ((id : SymbolId) × (threshold < count_if (into true id) es)))
      × (((evaluate_one G tarjan_scc P g rule es delta).verdict ≡ satisfied) ↔ (
          (id : SymbolId) → count_if (into true id) es + count_if (into false id) es ≤ threshold))
  unfolding evaluate_one findings_of Fan.max_fan_in
  max_fan_in-verdict =
      let said =
        verdict-judge_counts P g threshold resolved weaker text rule (candidates tallied) in
      rw kind (
        (
          λ h.
              let (id, more) =
                Any-witness (λ id. threshold < resolved id) (candidates tallied) (said.0.0 h) in
              (id, omega (arith, more, (tallied-counts es id).0)),
          λ (id, more). said.0.1 (
              Any-of_In (λ id. threshold < resolved id) id (candidates tallied)
                (omega (arith, more, (tallied-counts es id).0))
                (is_candidate id (omega (arith, more)))),
        ),
        (
          λ h id. at_most id (said.1.0 h),
          λ f. said.1.1 (
              All-every (λ id. resolved id + weaker id ≤ threshold) (candidates tallied)
                (λ id. omega (arith, f id, tallied-counts es id))),
        ),
      )
