-- ===== src/Examples/CycleTests.antt =====
-- The walk of a cycle at concrete inputs.
use open_invar.Prelude.{
  ◌≡◌, refl, List, [], ◌∷◌, Text, bytes, length, eqb, contains, set_insert, arith,
}
use open_invar.RuleEval.Cycles.{cycle_path, walk_on, next_member, join_arrows}
use open_invar.RuleEval.Cycles.Walk.{IsWalk, walk_on_enough, walk_on-IsWalk}

abbrev three : List Text
three = bytes "a" ∷ bytes "b" ∷ bytes "c" ∷ []

-- Two cycles that share `b`, and no edge from `c` to `a`.
abbrev shared : List (Text × Text)
shared =
    (bytes "a", bytes "b")
    ∷ (bytes "b", bytes "a")
    ∷ (bytes "b", bytes "c")
    ∷ (bytes "c", bytes "b")
    ∷ []

names_a_missing_edge : cycle_path three shared ≡ bytes "a -> b -> c -> a"
unfolding cycle_path next_member walk_on join_arrows eqb contains set_insert
names_a_missing_edge = refl

walk_on_enough_example :
    walk_on 9 three (bytes "a") (bytes "a" ∷ []) (bytes "a") shared
    ≡ walk_on (length three) three (bytes "a") (bytes "a" ∷ []) (bytes "a") shared
walk_on_enough_example = walk_on_enough three (bytes "a") 9 shared (omega arith)

walk_on-IsWalk_example :
    IsWalk three
      (bytes "a")
      shared
      (bytes "a")
      (walk_on 3 three (bytes "a") (bytes "a" ∷ []) (bytes "a") shared)
walk_on-IsWalk_example = walk_on-IsWalk three (bytes "a") 3 (bytes "a" ∷ []) (bytes "a") shared
