-- ===== src/RuleEval/Cycles/Walk.antt =====
-- rule_eval.rs: the walk of `cycle_path`.
use open_invar.Prelude.{
  ℕ, zero, suc, ◌≤◌, ◌≡◌, ◌≢◌, refl, inl, inr, true, false, some, List, [], ◌∷◌, Text, In, arith,
  eqb_iff, contains, contains_iff, unseen, unseen_lt, unseen-length, set_insert, length,
  Option-cases, list_ord, nat_ord,
}
use open_invar.RuleEval.Cycles.{next_member, walk_on}

-- Each step goes along an edge to a member other than the start.
abbrev pub IsWalk : List Text → Text → List (Text × Text) → Text → List Text → Type 0
IsWalk members start pairs current [] = Unit
IsWalk members start pairs current (node ∷ nodes) =
    In (current, node) pairs
    × (In node members × ((node ≢ start) × IsWalk members start pairs node nodes))

module _ (members : List Text) (start : Text) where
  next_member_lem :
      (seen : List Text) (current node : Text) (pairs : List (Text × Text))
      → next_member members start seen current pairs ≡ some node
      → (In (current, node) pairs × (node ≢ start))
        × ((contains members node ≡ true) × (contains seen node ≡ false))
  unfolding next_member
  next_member_lem seen current node [] h = ground arith
  next_member_lem seen current node ((from, to) ∷ pairs) h =
      ground
        (arith, next_member_lem seen current node pairs, eqb_iff from current, eqb_iff to start, h)

  enough :
      (fuel more : ℕ) (seen : List Text) (current : Text) (pairs : List (Text × Text))
      → unseen seen members ≤ fuel
      → fuel ≤ more
      → walk_on more members start seen current pairs
        ≡ walk_on fuel members start seen current pairs
  unfolding walk_on
  enough zero zero seen current pairs few le = refl
  enough (suc fuel) zero seen current pairs few le = absurd (omega arith)
  enough zero (suc more) seen current pairs few le =
      elim (Option-cases (next_member members start seen current pairs)) [
        | inl stuck ↦ rw (walk_on, stuck) refl
        | inr (node, next) ↦
            let (_, (member, new)) = next_member_lem seen current node pairs next in
            absurd (
              omega (
                arith,
                few,
                unseen_lt seen node members new ((contains_iff members node).0 member),
              ))
      ]
  enough (suc fuel) (suc more) seen current pairs few le =
      elim (Option-cases (next_member members start seen current pairs)) [
        | inl stuck ↦ rw (walk_on, stuck) refl
        | inr (node, next) ↦
            let (_, (member, new)) = next_member_lem seen current node pairs next in
            let fewer = unseen_lt seen node members new ((contains_iff members node).0 member) in
            rw
              (
                walk_on,
                next,
                enough fuel more (set_insert node seen) node pairs (omega (arith, few, fewer))
                    (omega (arith, le)),
              )
              refl
      ]

  -- In the walk of `cycle_path` as many turns as there are members are enough: with more turns the
  -- walk is the same.
  pub walk_on_enough :
      (more : ℕ) (pairs : List (Text × Text))
      → length members ≤ more
      → walk_on more members start (start ∷ []) start pairs
        ≡ walk_on (length members) members start (start ∷ []) start pairs
  walk_on_enough more pairs le =
      enough (length members) more (start ∷ []) start pairs (unseen-length (start ∷ []) members) le

  -- Each step of the walk of `cycle_path` goes along an edge to a member other than the start.
  pub walk_on-IsWalk :
      (fuel : ℕ) (seen : List Text) (current : Text) (pairs : List (Text × Text))
      → IsWalk members start pairs current (walk_on fuel members start seen current pairs)
  unfolding walk_on
  walk_on-IsWalk zero seen current pairs = tt
  walk_on-IsWalk (suc fuel) seen current pairs =
      elim (Option-cases (next_member members start seen current pairs)) [
        | inl stuck ↦ rw (walk_on, stuck) tt
        | inr (node, next) ↦
            let ((edge, other), (member, new)) = next_member_lem seen current node pairs next in
            rw (walk_on, next)
              (
                edge,
                (
                  (contains_iff members node).0 member,
                  (other, walk_on-IsWalk fuel (set_insert node seen) node pairs),
                ),
              )
      ]
