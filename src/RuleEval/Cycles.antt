-- ===== src/RuleEval/Cycles.antt =====
-- rule_eval.rs: `no-cycles`. `tarjan_scc` of the petgraph crate is a parameter, over the number of
-- nodes and the list of edges that the code adds.
pub mod Walk
use open_invar.Prelude.{
  ℕ, zero, suc, ◌+◌, not, ◌&&◌, Option, none, some, List, [], ◌∷◌, ◌++◌, foldl, Text, bytes, rfind,
  take, if◌then◌else◌, length, get_elem?, position, unwrap_or, contains, set_insert, sort, eqb, leb,
  filter_map, list_ord, nat_ord, pair_ord,
}
use open_invar.Rules.{CycleLevel, file_level, module_level}
use open_invar.Graph.{Backend, InvarGraph}
use open_invar.RuleEval.Edges.{Glob, Edge, compile, scope_path}
use open_invar.RuleEval.Sweep.{Violation, violation_ord, Uncertainty}

unfoldable pub cycle_node : Text → CycleLevel → Text
cycle_node path file_level = path
cycle_node path module_level = elim (rfind path (bytes "/")) [
  | some cut ↦ take cut path
  | none ↦ bytes "."
]

pub record CycleScan : Type 0 where
  pub nodes : List Text
  pub resolved_pairs : List (Text × Text)
  pub uncertain_nodes : List Text
  pub unresolved_edges : ℕ
  pub unresolved_files : List Text

abbrev pub no_scan : CycleScan
no_scan = record {
  nodes = [];
  resolved_pairs = [];
  uncertain_nodes = [];
  unresolved_edges = 0;
  unresolved_files = [];
}

-- `edges.iter().find(…)`: the first edge from `current` to a member that was not walked yet.
unfoldable pub next_member : List Text → Text → List Text → Text → List (Text × Text) → Option Text
next_member inside start seen current [] = none
next_member inside start seen current ((from, to) ∷ pairs) =
    let rest = next_member inside start seen current pairs in
    if eqb from current && (contains inside to && (not (eqb to start) && not (contains seen to)))
    then some to
    else rest

-- The members behind `current` on the walk. A turn marks one more member, so as many turns as
-- there are members are enough.
unfoldable pub walk_on : ℕ → List Text → Text → List Text → Text → List (Text × Text) → List Text
unfolding next_member
walk_on zero inside start seen current pairs = []
walk_on (suc fuel) inside start seen current pairs =
    elim (next_member inside start seen current pairs) [
      | none ↦ []
      | some node ↦ node ∷ walk_on fuel inside start (set_insert node seen) node pairs
    ]

-- `walk.join(" -> ")`
unfoldable pub join_arrows : List Text → Text
join_arrows [] = []
join_arrows (t ∷ []) = t
join_arrows (t ∷ u ∷ ts) = t ++ (bytes " -> " ++ join_arrows (u ∷ ts))

-- The entry is `members[0]`; the caller passes two members or more.
unfoldable pub cycle_path : List Text → List (Text × Text) → Text
unfolding walk_on join_arrows
cycle_path members pairs =
    let start = unwrap_or (get_elem? members 0) [] in
    join_arrows
      (start ∷ (walk_on (length members) members start (start ∷ []) start pairs ++ start ∷ []))

unfoldable pub cycle_breach : List (Text × Text) → List Text → Option Violation
unfolding cycle_path
cycle_breach pairs members =
    let entry = unwrap_or (get_elem? members 0) [] in
    if leb 2 (length members)
    then some record {
      file = entry;
      line = 0;
      symbol = entry;
      detail = bytes "dependency cycle: " ++ cycle_path members pairs;
    }
    else none

-- Node numbers back to names, and names to numbers: `indexed` and `index_of`.
unfoldable pub names_of : List Text → List ℕ → List Text
names_of nodes component = sort (filter_map (λ i. get_elem? nodes i) component)

unfoldable pub numbered : List Text → List (Text × Text) → List (ℕ × ℕ)
numbered nodes [] = []
numbered nodes ((from, to) ∷ pairs) = elim (position (eqb from) nodes) [
  | none ↦ numbered nodes pairs
  | some a ↦ elim (position (eqb to) nodes) [
    | none ↦ numbered nodes pairs
    | some b ↦ (a, b) ∷ numbered nodes pairs
  ]
]

module _ (G : Glob) (tarjan_scc : ℕ → List (ℕ × ℕ) → List (List ℕ)) (P : Backend)
    (g : InvarGraph P) where
  unfoldable pub cycle_turn : Text → CycleLevel → CycleScan → Edge → CycleScan
  unfolding cycle_node
  cycle_turn scope level s edge =
      if not edge.is_dependency then s else elim (scope_path P g edge.from) [
        | none ↦ s
        | some from_path ↦
            if not (G.matches (compile G scope) from_path)
            then s
            else let from_node = cycle_node from_path level in
              let seen_from = set_insert from_node s.nodes in
              if not edge.gate_safe
              then record s {
                nodes = seen_from;
                uncertain_nodes = set_insert from_node s.uncertain_nodes;
                unresolved_edges = s.unresolved_edges + 1;
                unresolved_files = set_insert edge.file s.unresolved_files;
              }
              else elim (scope_path P g edge.to) [
                | none ↦ record s { nodes = seen_from }
                | some to_path ↦
                    if not (G.matches (compile G scope) to_path)
                    then record s { nodes = seen_from }
                    else let to_node = cycle_node to_path level in
                      record s {
                        nodes = set_insert to_node seen_from;
                        resolved_pairs =
                            if eqb from_node to_node
                            then s.resolved_pairs
                            else set_insert (from_node, to_node) s.resolved_pairs;
                      }
              ]
      ]

  unfoldable pub no_cycles : List Edge → Text → CycleLevel → List Violation × Uncertainty
  unfolding cycle_turn cycle_breach names_of numbered
  no_cycles all_edges scope level =
      let s = foldl (cycle_turn scope level) no_scan all_edges in
      let components = tarjan_scc (length s.nodes) (numbered s.nodes s.resolved_pairs) in
      (
        sort (
            filter_map (λ component. cycle_breach s.resolved_pairs (names_of s.nodes component))
              components),
        record { unresolved_edges = s.unresolved_edges; files = s.unresolved_files },
      )
