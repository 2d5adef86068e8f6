-- ===== src/RuleEval/Fan.antt =====
-- rule_eval.rs: `max-fan-in` counts edges, `max-fan-out` counts distinct targets.
pub mod Judge
pub mod Inbound
use open_invar.Prelude.{
  ℕ, ◌+◌, not, none, some, List, [], ◌∷◌, ◌++◌, foldl, Map, Text, bytes, display, ltb,
  if◌then◌else◌, length, get, tree_insert, keys, unwrap_or, set_insert, sort, retain, contains,
  list_ord, nat_ord,
}
use open_invar.Ir.{SymbolId}
use open_invar.Graph.{Backend, InvarGraph}
use open_invar.SymbolId.{is_external_package}
use open_invar.RuleEval.Edges.{Edge}
use open_invar.RuleEval.Sweep.{Violation, violation_ord, Uncertainty, Tally, no_tally}

-- Counters by symbol: one for resolved edges, one for weaker ones.
pub record Counts (V : Type 0) : Type 0 where
  pub resolved : Map SymbolId V
  pub weaker : Map SymbolId V

abbrev pub no_counts : {V : Type 0} → Counts V
no_counts = record { resolved = []; weaker = [] }

-- `*counter.entry(key).or_default() += 1`
unfoldable pub bump : Map SymbolId ℕ → SymbolId → Map SymbolId ℕ
bump m k = tree_insert m k (unwrap_or (get m k) 0 + 1)

-- `counter.entry(key).or_default().insert(target)`
unfoldable pub reach :
    Map SymbolId (List SymbolId) → SymbolId → SymbolId → Map SymbolId (List SymbolId)
reach m k target = tree_insert m k (set_insert target (unwrap_or (get m k) []))

unfoldable pub fan_in_turn : Counts ℕ → Edge → Counts ℕ
unfolding bump
fan_in_turn c edge =
    if is_external_package edge.to
    then c
    else if edge.gate_safe
    then record c { resolved = bump c.resolved edge.to }
    else record c { weaker = bump c.weaker edge.to }

unfoldable pub fan_out_turn : Counts (List SymbolId) → Edge → Counts (List SymbolId)
unfolding reach
fan_out_turn c edge =
    if is_external_package edge.to
    then c
    else if edge.gate_safe
    then record c { resolved = reach c.resolved edge.from edge.to }
    else record c { weaker = reach c.weaker edge.from edge.to }

-- The ids that either counter holds, in their order.
unfoldable pub candidates : {V : Type 0} → Counts V → List SymbolId
candidates c =
    foldl (λ s id. set_insert id s) (foldl (λ s id. set_insert id s) [] (keys c.resolved))
      (keys c.weaker)

module _ (P : Backend) (g : InvarGraph P) where
  -- Where a breach is reported: at the symbol, or at its id where the graph has no symbol.
  unfoldable pub breach_at : SymbolId → Text → Violation
  breach_at id text = elim (get g.symbols id) [
    | some symbol ↦ record {
      file = symbol.file;
      line = symbol.line_start;
      symbol = id;
      detail = text;
    }
    | none ↦ record { file = id; line = 0; symbol = id; detail = text }
  ]

  -- What both loops over the candidates do with a strong and an uncertain count.
  unfoldable pub fan_turn :
      ℕ → (SymbolId → ℕ) → (SymbolId → ℕ) → (ℕ → Text) → Tally → SymbolId → Tally
  unfolding breach_at
  fan_turn threshold strong uncertain text t id =
      if ltb threshold (strong id)
      then record t { violations = t.violations ++ breach_at id (text (strong id)) ∷ [] }
      else if ltb threshold (strong id + uncertain id)
      then record t {
        unresolved_edges = t.unresolved_edges + uncertain id;
        unresolved_files = elim (get g.symbols id) [
          | some symbol ↦ set_insert symbol.file t.unresolved_files
          | none ↦ t.unresolved_files
        ];
      }
      else t

  unfoldable pub judge_counts :
      ℕ
      → (SymbolId → ℕ)
      → (SymbolId → ℕ)
      → (ℕ → Text)
      → List SymbolId
      → List Violation × Uncertainty
  unfolding fan_turn
  judge_counts threshold strong uncertain text ids =
      let t = foldl (fan_turn threshold strong uncertain text) no_tally ids in
      (
        sort t.violations,
        record { unresolved_edges = t.unresolved_edges; files = t.unresolved_files },
      )

  -- "{strong} inbound references, limit is {threshold}"
  unfoldable pub max_fan_in : List Edge → ℕ → List Violation × Uncertainty
  unfolding fan_in_turn candidates judge_counts
  max_fan_in all_edges threshold =
      let c = foldl fan_in_turn no_counts all_edges in
      judge_counts threshold (λ id. unwrap_or (get c.resolved id) 0)
        (λ id. unwrap_or (get c.weaker id) 0)
        (λ n. display n ++ (bytes " inbound references, limit is " ++ display threshold))
        (candidates c)

  -- "reaches {strong} distinct symbols, limit is {threshold}". A weaker target that is reached on
  -- resolved evidence too is not counted again.
  unfoldable pub max_fan_out : List Edge → ℕ → List Violation × Uncertainty
  unfolding fan_out_turn candidates judge_counts
  max_fan_out all_edges threshold =
      let c = foldl fan_out_turn no_counts all_edges in
      let known = λ (id : SymbolId). unwrap_or (get c.resolved id) [] in
      judge_counts threshold (λ id. length (known id))
        (λ id. length (retain (λ t. not (contains (known id) t)) (unwrap_or (get c.weaker id) [])))
        (λ n.
          bytes "reaches "
          ++ (display n ++ (bytes " distinct symbols, limit is " ++ display threshold)))
        (candidates c)
