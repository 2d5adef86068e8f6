-- ===== src/TestImpact/Exercised.antt =====
-- crates/openinvar-core/src/test_impact.rs: every symbol that a test is said to cover is one that changed,
-- and the test leads to it.
use open_invar.Prelude.{
  ℕ, Bool, true, sym, subst, inl, inr, List, [], ◌∷◌, All, All-map, All-at, All-of_In, All-sort_by,
  All-tree_insert, In, get, get-In, unwrap_or, contains, cmp, eqb, eqb_iff, Bool-cases,
  Option-cases, List-cases, arith, nat_ord, list_ord, pair_ord, bool_ord,
}
use open_invar.Ir.{SymbolId, Resolution, tests, relationship_kind_ord}
use open_invar.Petgraph.{EdgeReference}
use open_invar.Graph.{Backend, InvarGraph, RelationshipMeta}
use open_invar.TestImpact.{
  CoveringTest, covering_test_ord, TestSelection, Origins, ByTest, with_test, with_tests,
  covering_test, sort_out, reverse_reachable, select, select_some,
}
use open_invar.TestImpact.Cover.{some_selected}
use open_invar.TestImpact.Reach.{Exercises, Known, IsTraced, All-extend, reverse_reachable-IsTraced}

module _ (P : Backend) (g : InvarGraph P) (min_resolution : Resolution)
    (changed : List SymbolId) where
  -- Symbols that changed and that a test leads to.
  abbrev pub Told : SymbolId → List SymbolId → Type 0
  Told test covers = All (λ o. In o changed × Exercises P g min_resolution test o) covers

  abbrev IsTold : ByTest → Type 0
  IsTold by_test =
      All (λ (entry : SymbolId × (List SymbolId × Bool)). Told entry.0 entry.1.0) by_test

  entry-Told :
      (by_test : ByTest) (test : SymbolId)
      → IsTold by_test
      → Told test (unwrap_or (get by_test test) ([], true)).0
  entry-Told by_test test h = elim (Option-cases (get by_test test)) [
    | inl missing ↦ rw missing tt
    | inr (entry, there) ↦ rw there (
        All-at (λ (entry : SymbolId × (List SymbolId × Bool)). Told entry.0 entry.1.0) (test, entry)
          by_test h (get-In by_test test entry there))
  ]

  module _ (reachable : Origins) (traced : IsTraced P g min_resolution changed reachable) where
    with_test-IsTold :
        (by_test : ByTest) (e : EdgeReference RelationshipMeta)
        → In e (P.edge_references g.graph)
        → IsTold by_test
        → IsTold (with_test P g reachable by_test e)
    unfolding with_test
    with_test-IsTold by_test e m h = elim (Bool-cases (eqb e.weight.kind tests)) [
      | inr other ↦ rw (with_test, other) h
      | inl is_test ↦ elim (Option-cases (P.node_weight g.graph e.source)) [
        | inl missing ↦ rw (with_test, is_test, missing) h
        | inr (from, source) ↦ elim (Option-cases (P.node_weight g.graph e.target)) [
          | inl missing ↦ rw (with_test, is_test, source, missing) h
          | inr (to, target) ↦ elim (Option-cases (get reachable to)) [
            | inl missing ↦ rw (with_test, is_test, source, target, missing) h
            | inr (origins, there) ↦
                rw (with_test, is_test, source, target, there)
                  (let known =
                      All-at
                        (λ (entry : SymbolId × List SymbolId).
                          Known P g min_resolution changed entry.0 entry.1)
                        (to, origins) reachable traced (get-In reachable to origins there) in
                    All-tree_insert _ by_test from _ h (
                      All-extend P g min_resolution changed _
                        (unwrap_or (get by_test from) ([], true)).0 origins
                        (entry-Told by_test from h)
                        (All-map _ _ origins
                          (λ o k. (
                            k.0,
                            record {
                              edge = e;
                              target = to;
                              there = m;
                              kind = (eqb_iff e.weight.kind tests).0 is_test;
                              from = source;
                              to = target;
                              reaches = k.1;
                            },
                          ))
                          known)))
          ]
        ]
      ]
    ]

    with_tests-IsTold :
        (by_test : ByTest) (es : List (EdgeReference RelationshipMeta))
        → All (λ e. In e (P.edge_references g.graph)) es
        → IsTold by_test
        → IsTold (with_tests P g reachable by_test es)
    unfolding with_tests
    with_tests-IsTold by_test [] m h = h
    with_tests-IsTold by_test (e ∷ es) m h =
        with_tests-IsTold (with_test P g reachable by_test e) es m.1
          (with_test-IsTold by_test e m.0 h)

  abbrev TellsOf : CoveringTest → Type 0
  TellsOf t = Told t.symbol t.covers

  sort_out-told :
      (by_test : ByTest)
      → IsTold by_test
      → All TellsOf (sort_out P g changed by_test).0 × All TellsOf (sort_out P g changed by_test).1
  unfolding sort_out covering_test
  sort_out-told [] h = (tt, tt)
  sort_out-told ((symbol, (covers, gate_safe)) ∷ m) h =
      let rest = sort_out-told m h.1 in
      elim (Bool-cases (contains changed symbol)) [
        | inl is_changed ↦ rw (sort_out, is_changed) (rest.0, (h.0, rest.1))
        | inr kept ↦ rw (sort_out, kept) ((h.0, rest.0), rest.1)
      ]

  abbrev AllTold : TestSelection → Type 0
  AllTold s = All TellsOf s.tests × All TellsOf s.modified_tests

  select_some-told : (depth : ℕ) → AllTold (select_some P g changed depth min_resolution)
  unfolding select_some
  select_some-told depth =
      let by_test =
        with_tests P g (reverse_reachable P g min_resolution changed depth) []
          (P.edge_references g.graph) in
      let es = P.edge_references g.graph in
      let traced = reverse_reachable-IsTraced P g min_resolution changed depth in
      let (told, told') =
        sort_out-told by_test (with_tests-IsTold _ traced [] es (All-of_In _ es (λ e m. m)) tt) in
      ((All-sort_by TellsOf cmp _).1 told, (All-sort_by TellsOf cmp _).1 told')

  -- Whatever the depth, each symbol that a selected or a modified test is said to cover changed, and the
  -- test has a `tests` edge to a symbol that leads to it over edges of other kinds which meet the threshold.
  pub select-exercised :
      (depth : ℕ)
      → let s = select P g changed depth min_resolution in
        All (λ (t : CoveringTest). Told t.symbol t.covers) s.tests
        × All (λ (t : CoveringTest). Told t.symbol t.covers) s.modified_tests
  unfolding select
  select-exercised depth = elim (List-cases changed) [
    | inl empty ↦ rw (select, empty) (tt, tt)
    | inr (x, xs, there) ↦
        subst AllTold
          (sym (
            some_selected P g changed depth min_resolution (λ empty. ground (arith, there, empty))))
          (select_some-told depth)
  ]
