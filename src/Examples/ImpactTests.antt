-- ===== src/Examples/ImpactTests.antt =====
-- The tests that cover a change, at concrete inputs.
use open_invar.Prelude.{
  ◌≡◌, ◌≢◌, refl, List, [], ◌∷◌, Text, bytes, get, eqb, All, length, arith, set_insert, contains,
  sort_by, tree_insert, nat_ord, list_ord,
}
use open_invar.Ir.{SymbolId, calls, tests, resolved, meets}
use open_invar.Graph.{InvarGraph}
use open_invar.TestImpact.{CoveringTest, select, reverse_reachable, origins_of}
use open_invar.TestImpact.Cover.{select-IsHonest, IsHonest}
use open_invar.TestImpact.Exercised.{select-exercised, Told}
use open_invar.Examples.Sample.{backend, sample, symbol_at, meta_of, main_id, lib_id, cli, core}

abbrev test_id : SymbolId
test_id = bytes "tests/main.rs::runs::function"

abbrev test_file : Text
test_file = bytes "tests/main.rs"

-- `runs` tests `main`, which calls `run`.
abbrev tested : InvarGraph backend
tested = record sample {
  graph = record {
    nodes = main_id ∷ lib_id ∷ test_id ∷ [];
    links =
        record { source = 0; target = 1; weight = meta_of calls resolved cli 5 }
        ∷ record { source = 2; target = 0; weight = meta_of tests resolved test_file 4 }
        ∷ [];
  };
  node_index = (main_id, 0) ∷ (lib_id, 1) ∷ (test_id, 2) ∷ [];
  symbols =
      (main_id, symbol_at main_id (bytes "main") cli)
      ∷ (lib_id, symbol_at lib_id (bytes "run") core)
      ∷ (test_id, symbol_at test_id (bytes "runs") test_file)
      ∷ [];
}

abbrev changed : List SymbolId
changed = lib_id ∷ []

some_changed : changed ≢ []
some_changed h = ground (arith, h)

one_test : length (select backend tested changed 1 resolved).tests ≡ 1
unfolding select sort_by eqb get meets tree_insert set_insert contains
one_test = refl

select-IsHonest_example :
    IsHonest backend tested changed lib_id (select backend tested changed 1 resolved)
select-IsHonest_example = select-IsHonest backend tested changed 1 resolved lib_id some_changed

select-exercised_example :
    All
      (λ (t : CoveringTest). Told backend tested resolved changed t.symbol t.covers)
      (select backend tested changed 1 resolved).tests
    × All
        (λ (t : CoveringTest). Told backend tested resolved changed t.symbol t.covers)
        (select backend tested changed 1 resolved).modified_tests
select-exercised_example = select-exercised backend tested resolved changed 1

-- `a` is called by `b`, and `b` by `c`. With a depth of one, `c` is two steps from `a`.
abbrev chain : InvarGraph backend
chain = record sample {
  graph = record {
    nodes = bytes "a" ∷ bytes "b" ∷ bytes "c" ∷ [];
    links =
        record { source = 1; target = 0; weight = meta_of calls resolved cli 1 }
        ∷ record { source = 2; target = 1; weight = meta_of calls resolved cli 2 }
        ∷ [];
  };
  node_index = (bytes "a", 0) ∷ (bytes "b", 1) ∷ (bytes "c", 2) ∷ [];
}

-- When `a` and `b` change, `c` is traced to both within one level, as `b` comes after `a`.
two_steps_in_one :
    origins_of (reverse_reachable backend chain resolved (bytes "a" ∷ bytes "b" ∷ []) 1) (bytes "c")
    ≡ bytes "a" ∷ bytes "b" ∷ []
unfolding reverse_reachable sort_by eqb get meets tree_insert set_insert contains
two_steps_in_one = refl
