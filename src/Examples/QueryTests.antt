-- ===== src/Examples/QueryTests.antt =====
-- Queries at concrete inputs.
use open_invar.Prelude.{
  ℕ, zero, suc, ◌<◌, ◌≤◌, ◌≡◌, refl, ◌↔◌, true, Option, none, some, List, [], ◌∷◌, All, In, Text,
  bytes, length, get_elem?, get, eqb, sort_by, set_insert, contains, arith, unwrap_or, nat_ord,
  list_ord,
}
use open_invar.Ir.{SymbolId, imports, tests, resolved, structural, meets}
use open_invar.Petgraph.{IsCompact, incoming, outgoing}
use open_invar.Graph.{RelationshipMeta}
use open_invar.Index.{Result, ok, err}
use open_invar.Index.Yields.{Yields}
use open_invar.Coverage.{by_file, overall, no_edges}
use open_invar.Coverage.Sums.{by_file-overall, part_of, edges_of, sum_of}
use open_invar.Query.Mask.{RelationshipKindMask, from_kinds, all_kinds, all_bits}
use open_invar.Query.Mask
use open_invar.Query.Mask.Sets.{from_kinds_refines}
use open_invar.Query.Rows.{QueryEdge, dedupe_edges}
use open_invar.Query.Traverse.{traverse, walk, start, search_from, greatest_depth}
use open_invar.Query.Traverse.Ends.{traverse_ends}
use open_invar.Query.Traverse.Walks.{traverse-IsSound, IsSound}
use open_invar.Query.Traverse.Fits.{search_from-Fits, Fits}
use open_invar.RuleEval.Edges.{kind_name}
use open_invar.Query.Rows.{row_key}
use open_invar.Query.Traverse.{permitted, neighbor}
use open_invar.Query.Traverse.Walks.{Walk, here, step}
use open_invar.Query.Traverse.Complete.{traverse_complete}
use open_invar.Petgraph.{EdgeReference}
use open_invar.Prelude.{Any, inl}
use open_invar.Examples.ListGraph.{list_petgraph, reference}
use open_invar.Examples.Sample.{meta_of, core, cli}
use open_invar.Examples.Sample.{backend, sample, lib_id}

below_length : {A : Type 0} (xs : List A) (i : ℕ) (a : A) → get_elem? xs i ≡ some a → i < length xs
below_length [] i a h = ground (arith, h)
below_length (x ∷ xs) zero a h = ground arith
below_length (x ∷ xs) (suc i) a h = ground (arith, below_length xs i a h)

pub list_petgraph-IsCompact : (N E : Type 0) → IsCompact (list_petgraph N E)
list_petgraph-IsCompact N E = record { node_weight_below = λ g i n h. below_length g.nodes i n h }

abbrev rows_of : Result (List QueryEdge) → List QueryEdge
rows_of (ok rows) = rows
rows_of (err e) = []

abbrev every_kind : RelationshipKindMask
every_kind = record { bits = 511 }

-- What leads to `core/lib.rs` in two steps.
abbrev into_lib : List QueryEdge
into_lib = rows_of (traverse backend sample incoming every_kind resolved lib_id 2)

length-into_lib : length into_lib ≡ 3
unfolding traverse get eqb Mask.contains meets contains set_insert dedupe_edges sort_by
length-into_lib = refl

traverse-IsSound_example : All (IsSound backend sample incoming every_kind resolved 1 2) into_lib
unfolding traverse get eqb Mask.contains meets contains set_insert dedupe_edges sort_by
traverse-IsSound_example =
    traverse-IsSound backend sample incoming every_kind resolved lib_id 1 2 into_lib refl refl

abbrev depth_two : Option ℕ
depth_two = some 2

search_from-Fits_example :
    Yields
      (λ rows. All (Fits backend sample every_kind resolved 2) rows × (2 ≤ greatest_depth))
      (search_from backend sample incoming (bytes "run") none depth_two every_kind resolved)
search_from-Fits_example =
    search_from-Fits backend sample incoming (bytes "run") none depth_two every_kind resolved

traverse_ends_example :
    (walk backend sample outgoing every_kind structural 9 3
        (start backend sample outgoing every_kind structural 0)
      ≡ walk backend sample outgoing every_kind structural 4 3
          (start backend sample outgoing every_kind structural 0))
    × Yields
        (λ s. s.queue ≡ [])
        (walk backend sample outgoing every_kind structural 4 3
          (start backend sample outgoing every_kind structural 0))
traverse_ends_example =
    traverse_ends backend (list_petgraph-IsCompact SymbolId RelationshipMeta) sample outgoing
      every_kind structural 0 3 9 (omega arith)

from_kinds_refines_example :
    ((Mask.contains (from_kinds (imports ∷ tests ∷ [])) tests ≡ true)
      ↔ In tests (imports ∷ tests ∷ []))
    × ((from_kinds (imports ∷ tests ∷ [])).bits < 512)
from_kinds_refines_example = from_kinds_refines (imports ∷ tests ∷ []) tests

by_file-overall_example :
    ((file : Text)
      → part_of resolved (unwrap_or (get (by_file backend sample) file) no_edges)
        ≡ edges_of file resolved (backend.edge_weights sample.graph))
    × (sum_of (part_of resolved) (by_file backend sample)
        ≡ part_of resolved (overall backend sample))
by_file-overall_example = by_file-overall backend sample resolved

-- `cli/main.rs` imports `core/lib.rs`, which imports it back.
abbrev to_lib : EdgeReference RelationshipMeta
to_lib = reference 0 (record { source = 0; target = 1; weight = meta_of imports resolved cli 1 })

abbrev to_main : EdgeReference RelationshipMeta
to_main = reference 2 (record { source = 1; target = 0; weight = meta_of imports resolved core 2 })

to_lib-permitted : permitted backend sample incoming every_kind resolved to_lib ≡ true
unfolding permitted Mask.contains meets
to_lib-permitted = refl

to_main-permitted : permitted backend sample incoming every_kind resolved to_main ≡ true
unfolding permitted Mask.contains meets
to_main-permitted = refl

one_step : Walk backend sample incoming every_kind resolved 1 0 1
unfolding neighbor
one_step = step to_lib here (inl refl) to_lib-permitted

traverse_complete_example :
    (to : SymbolId) × ((backend.node_weight sample.graph 0 ≡ some to)
      × Any (λ (q : QueryEdge). row_key q ≡ (to, (core, (2, (none, kind_name imports))))) into_lib)
unfolding traverse get eqb Mask.contains meets contains set_insert dedupe_edges sort_by
traverse_complete_example =
    traverse_complete backend (list_petgraph-IsCompact SymbolId RelationshipMeta) sample incoming
      every_kind resolved lib_id 1 2 0 1 into_lib to_main refl refl one_step (omega arith)
      (inl refl) to_main-permitted
