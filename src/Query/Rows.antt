-- ===== src/Query/Rows.antt =====
-- crates/openinvar-core/src/query.rs: the rows that a query answers with, and what is said of the edges of
-- the whole graph.
use open_invar.Prelude.{
  ℕ, Bool, true, false, not, ◌||◌, ◌==◌, if◌then◌else◌, Option, none, some, List, [], ◌∷◌, ◌++◌,
  foldl, any, all, retain, map, Text, get, eqb, cmp, then_cmp, sort_by, contains, set_insert,
  Ordering, nat_ord, list_ord, option_ord, pair_ord,
}
use open_invar.Ir.{SymbolId, RelationshipKind, Resolution, is_gate_safe, relationship_kind_ord}
use open_invar.Petgraph.{EdgeReference}
use open_invar.Graph.{Backend, InvarGraph, RelationshipMeta}
use open_invar.RuleEval.Edges.{kind_name}

pub record QueryEdge : Type 0 where
  pub from : SymbolId
  pub to : SymbolId
  pub kind : RelationshipKind
  pub resolution : Resolution
  pub file : Text
  pub line : ℕ
  pub alias : Option Text
  pub properties_accessed : List Text
  pub context : Text
  pub hop : ℕ

-- The comparison that `dedupe_edges` sorts by.
unfoldable pub row_cmp : QueryEdge → QueryEdge → Ordering
row_cmp a b = then_cmp (cmp a.hop b.hop) (
    then_cmp (cmp a.file b.file) (
      then_cmp (cmp a.line b.line) (
        then_cmp (cmp a.to b.to) (
          then_cmp (cmp (kind_name a.kind) (kind_name b.kind))
            (then_cmp (cmp a.alias b.alias) (cmp a.from b.from))))))

-- What rows are identified by.
abbrev pub row_key : QueryEdge → Text × (Text × (ℕ × (Option Text × Text)))
row_key e = (e.to, (e.file, (e.line, (e.alias, kind_name e.kind))))

-- `retain(|edge| seen.insert(key))`
unfoldable pub first_of_each :
    List (Text × (Text × (ℕ × (Option Text × Text)))) → List QueryEdge → List QueryEdge
first_of_each seen [] = []
first_of_each seen (e ∷ es) =
    let rest = first_of_each (set_insert (row_key e) seen) es in
    if contains seen (row_key e) then rest else e ∷ rest

unfoldable pub dedupe_edges : List QueryEdge → List QueryEdge
unfolding row_cmp first_of_each
dedupe_edges edges = first_of_each [] (sort_by row_cmp edges)

-- The last piece of a text that is split at `.` and `:`.
unfoldable pub last_segment : Text → Text → Text
last_segment current [] = current
last_segment current (c ∷ t) =
    let fresh = last_segment [] t in
    let longer = last_segment (current ++ c ∷ []) t in if c == 46 || c == 58 then fresh else longer

module _ (P : Backend) (g : InvarGraph P) where
  -- The weights of all edges: `edge_references().map(|e| e.weight())`.
  abbrev pub metas : List RelationshipMeta
  metas = map (λ (e : EdgeReference RelationshipMeta). e.weight) (P.edge_references g.graph)

  unfoldable pub structural_files : List Text
  structural_files =
      foldl (λ files (m : RelationshipMeta). set_insert m.file files) []
        (retain (λ (m : RelationshipMeta). not (is_gate_safe m.resolution)) metas)

  -- The loop returns at the first weak edge; a graph without edges is not safe.
  unfoldable pub all_gate_safe : Bool
  all_gate_safe = elim metas [
    | [] ↦ false
    | m ∷ ms ↦ all (λ (m : RelationshipMeta). is_gate_safe m.resolution) (m ∷ ms)
  ]

  unfoldable pub kinds_present : List RelationshipKind
  kinds_present = foldl (λ kinds (m : RelationshipMeta). set_insert m.kind kinds) [] metas

  -- A qualified name is compared by its last segment; of an unknown symbol any alias counts.
  unfoldable pub is_renamed : QueryEdge → Bool
  unfolding last_segment
  is_renamed edge = elim edge.alias [
    | none ↦ false
    | some alias ↦ elim (get g.symbols edge.to) [
      | some symbol ↦ not (eqb (last_segment [] alias) symbol.name)
      | none ↦ true
    ]
  ]

  unfoldable pub partition_by_alias : List QueryEdge → List QueryEdge × List QueryEdge
  unfolding is_renamed
  partition_by_alias [] = ([], [])
  partition_by_alias (e ∷ es) =
      let (direct, aliased) = partition_by_alias es in
      if is_renamed e then (direct, e ∷ aliased) else (e ∷ direct, aliased)

  unfoldable pub is_aliased_only_property : List QueryEdge → Text → Bool
  unfolding is_renamed
  is_aliased_only_property edges property =
      let touching =
        retain (λ (e : QueryEdge). any (λ p. eqb p property) e.properties_accessed) edges in
      elim touching [ [] ↦ false | e ∷ es ↦ all is_renamed (e ∷ es) ]
