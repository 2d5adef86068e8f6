-- ===== src/TestImpact.antt =====
-- crates/openinvar-core/src/test_impact.rs: which tests exercise a change.
pub mod Reach
pub mod Cover
pub mod Exercised
use open_invar.Prelude.{
  ℕ, zero, suc, ◌+◌, ltb, Bool, true, false, not, ◌&&◌, ◌||◌, ◌==◌, if◌then◌else◌, Option, none,
  some, List, [], ◌∷◌, ◌++◌, foldl, map, any, count_if, retain, length, Map, Text, get, tree_insert,
  unwrap_or, contains, set_insert, eqb, dedup, sort, Ord, ord_by, ◌≡◌, ap, arith, nat_ord, list_ord,
  pair_ord, bool_ord,
}
use open_invar.Ir.{
  SymbolId, Symbol, Resolution, RelationshipKind, tests, meets, is_gate_safe, relationship_kind_ord,
}
use open_invar.Petgraph.{EdgeReference, incoming}
use open_invar.Graph.{Backend, InvarGraph, RelationshipMeta}
use open_invar.Query.Rows.{structural_files}

pub record CoveringTest : Type 0 where
  pub symbol : SymbolId
  pub file : Text
  pub covers : List SymbolId
  pub gate_safe : Bool

abbrev pub TestFields : Type 0
TestFields = Text × (Text × (List Text × Bool))

abbrev pub test_fields : CoveringTest → TestFields
test_fields t = (t.symbol, (t.file, (t.covers, t.gate_safe)))

abbrev of_test_fields : TestFields → CoveringTest
of_test_fields (symbol, (file, (covers, gate_safe))) = record {
  symbol = symbol;
  file = file;
  covers = covers;
  gate_safe = gate_safe;
}

-- The derived order goes by the fields, in the order of their declaration.
instance abbrev pub covering_test_ord : Ord CoveringTest
covering_test_ord = ord_by pair_ord test_fields (λ a b h. ap of_test_fields h)

pub data Gap : Type 0 where
  structural_regions uncovered_symbols structural_evidence : ℕ → Gap

abbrev pub gap_key : Gap → ℕ × ℕ
gap_key (structural_regions n) = (0, n)
gap_key (uncovered_symbols n) = (1, n)
gap_key (structural_evidence n) = (2, n)

pub gap_key_inj : (a b : Gap) → gap_key a ≡ gap_key b → a ≡ b
gap_key_inj a b h = ground arith

instance abbrev pub gap_ord : Ord Gap
gap_ord = ord_by pair_ord gap_key gap_key_inj

pub record TestSelection : Type 0 where
  pub tests : List CoveringTest
  pub modified_tests : List CoveringTest
  pub uncovered : List SymbolId
  pub gaps : List Gap

abbrev pub default_selection : TestSelection
default_selection = record { tests = []; modified_tests = []; uncovered = []; gaps = [] }

-- `files`
unfoldable pub files : TestSelection → List Text
files selection = foldl (λ names (t : CoveringTest). set_insert t.file names) [] selection.tests

unfoldable pub is_trustworthy : TestSelection → Bool
is_trustworthy selection = elim selection.gaps [ [] ↦ true | gap ∷ gaps ↦ false ]

abbrev pub Origins : Type 0
Origins = Map SymbolId (List SymbolId)

-- `set.extend(more)`
unfoldable pub extend : List SymbolId → List SymbolId → List SymbolId
extend set [] = set
extend set (id ∷ more) = extend (set_insert id set) more

-- `origins.get(id).cloned().unwrap_or_default()`
abbrev pub origins_of : Origins → SymbolId → List SymbolId
origins_of origins id = unwrap_or (get origins id) []

pub record Level : Type 0 where
  pub origins : Origins
  pub next : List SymbolId

module _ (P : Backend) (g : InvarGraph P) (min_resolution : Resolution) where
  -- The walk goes over edges other than `tests`, at the threshold or above it.
  unfoldable pub walks : EdgeReference RelationshipMeta → Bool
  walks edge = not (eqb edge.weight.kind tests) && meets edge.weight.resolution min_resolution

  -- A symbol is taken up again only when it learned something.
  unfoldable pub learn : List SymbolId → Level → SymbolId → Level
  unfolding extend
  learn carried s source =
      let entry = origins_of s.origins source in
      let grown = extend entry carried in
      record {
        origins = tree_insert s.origins source grown;
        next = if length grown == length entry then s.next else s.next ++ source ∷ [];
      }

  -- The body of the loop over the edges.
  unfoldable pub carry : List SymbolId → Level → EdgeReference RelationshipMeta → Level
  unfolding walks learn
  carry carried s edge =
      let carried_over : Level = elim (P.node_weight g.graph edge.source) [
        | none ↦ s
        | some source ↦ learn carried s source
      ] in
      if walks edge then carried_over else s

  unfoldable pub carry_all : List SymbolId → Level → List (EdgeReference RelationshipMeta) → Level
  unfolding carry
  carry_all carried s [] = s
  carry_all carried s (edge ∷ edges) = carry_all carried (carry carried s edge) edges

  -- The body of the loop over the frontier.
  unfoldable pub expand : Level → SymbolId → Level
  unfolding carry_all
  expand s id = elim (get g.node_index id) [
    | none ↦ s
    | some node ↦ carry_all (origins_of s.origins id) s (P.edges_directed g.graph node incoming)
  ]

  unfoldable pub expand_all : Level → List SymbolId → Level
  unfolding expand
  expand_all s [] = s
  expand_all s (id ∷ frontier) = expand_all (expand s id) frontier

  -- `for _ in 0..depth`, which stops early when no symbol learned anything.
  unfoldable pub levels : ℕ → Origins → List SymbolId → Origins
  unfolding expand_all
  levels zero origins frontier = origins
  levels (suc depth) origins frontier =
      let s = expand_all (record { origins = origins; next = [] }) frontier in
      elim s.next [ [] ↦ s.origins | id ∷ ids ↦ levels depth s.origins (dedup (sort (id ∷ ids))) ]

  -- Each root is an origin of itself.
  unfoldable pub rooted : Origins → List SymbolId → Origins
  rooted origins [] = origins
  rooted origins (root ∷ roots) =
      rooted (tree_insert origins root (set_insert root (origins_of origins root))) roots

  unfoldable pub reverse_reachable : List SymbolId → ℕ → Origins
  unfolding levels rooted
  reverse_reachable roots depth = levels depth (rooted [] roots) roots

abbrev pub ByTest : Type 0
ByTest = Map SymbolId (List SymbolId × Bool)

module _ (P : Backend) (g : InvarGraph P) where
  -- The body of the loop over all edges.
  unfoldable pub with_test : Origins → ByTest → EdgeReference RelationshipMeta → ByTest
  unfolding extend
  with_test reachable by_test edge =
      let found : ByTest = elim (P.node_weight g.graph edge.source) [
        | none ↦ by_test
        | some from ↦ elim (P.node_weight g.graph edge.target) [
          | none ↦ by_test
          | some to ↦ elim (get reachable to) [
            | none ↦ by_test
            | some origins ↦
                let entry = unwrap_or (get by_test from) ([], true) in
                tree_insert by_test from
                  (extend entry.0 origins, entry.1 && is_gate_safe edge.weight.resolution)
          ]
        ]
      ] in
      if eqb edge.weight.kind tests then found else by_test

  unfoldable pub with_tests : Origins → ByTest → List (EdgeReference RelationshipMeta) → ByTest
  unfolding with_test
  with_tests reachable by_test [] = by_test
  with_tests reachable by_test (edge ∷ edges) =
      with_tests reachable (with_test reachable by_test edge) edges

  unfoldable pub covering_test : SymbolId → List SymbolId → Bool → CoveringTest
  covering_test symbol covers gate_safe = record {
    symbol = symbol;
    file = elim (get g.symbols symbol) [ none ↦ [] | some s ↦ s.file ];
    covers = covers;
    gate_safe = gate_safe;
  }

  -- The loop over the tests found: those that cover the change, and those that it modified.
  unfoldable pub sort_out : List SymbolId → ByTest → List CoveringTest × List CoveringTest
  unfolding covering_test
  sort_out changed [] = ([], [])
  sort_out changed ((symbol, (covers, gate_safe)) ∷ rest) =
      let (covering, modified) = sort_out changed rest in
      let entry = covering_test symbol covers gate_safe in
      if contains changed symbol then (covering, entry ∷ modified) else (entry ∷ covering, modified)

  -- `covered`
  unfoldable pub covered_by : List SymbolId → List CoveringTest → List SymbolId
  unfolding extend
  covered_by covered [] = covered
  covered_by covered (t ∷ ts) = covered_by (extend covered t.covers) ts

  unfoldable pub gaps_of : ℕ → ℕ → ℕ → List Gap
  gaps_of structural uncovered evidence = sort (
      (if ltb 0 structural then structural_regions structural ∷ [] else [])
      ++ (if ltb 0 uncovered then uncovered_symbols uncovered ∷ [] else [])
      ++ (if ltb 0 evidence then structural_evidence evidence ∷ [] else []))

  unfoldable pub select_some : List SymbolId → ℕ → Resolution → TestSelection
  unfolding reverse_reachable with_tests sort_out covered_by gaps_of structural_files
  select_some changed depth min_resolution =
      let reachable = reverse_reachable P g min_resolution changed depth in
      let (covering, modified_tests) =
        sort_out changed (with_tests reachable [] (P.edge_references g.graph)) in
      let covered = covered_by [] covering in
      let uncovered =
        retain (λ id. not (any (λ (t : CoveringTest). eqb t.symbol id) modified_tests))
          (retain (λ id. not (contains covered id)) changed) in
      let weak = count_if (λ (t : CoveringTest). not t.gate_safe) covering in
      record {
        tests = sort covering;
        modified_tests = sort modified_tests;
        uncovered = uncovered;
        gaps = gaps_of (length (structural_files P g)) (length uncovered) weak;
      }

  unfoldable pub select : List SymbolId → ℕ → Resolution → TestSelection
  unfolding select_some
  select changed depth min_resolution = elim changed [
    | [] ↦ default_selection
    | id ∷ ids ↦ select_some (id ∷ ids) depth min_resolution
  ]
