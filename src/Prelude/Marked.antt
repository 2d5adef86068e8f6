-- ===== src/Prelude/Marked.antt =====
-- How many elements of a list are not in a set yet: what decreases when a loop marks one more.
use Prim.Native.Nat.{ℕ, zero, suc, ◌+◌, ◌≤◌, ◌<◌}
use mathlib.Core.Path.{◌≡◌}
use mathlib.Core.Logic.{◌⊎◌, inl, inr}
use mathlib.Core.Bool.{false, not}
use mathlib.Core.List.{List, [], ◌∷◌}
use native.Mathlib.Omega.{arith}
use open_invar.Prelude.Lists.{length, count_if, In, below, below_onto}
use open_invar.Prelude.Order.{Ord}
use open_invar.Prelude.Assoc.{contains, set_insert, contains-set_insert}

module _ {A : Type 0} ⦃o : Ord A⦄ where
  abbrev pub unseen : List A → List A → ℕ
  unseen seen xs = count_if (λ x. not (contains seen x)) xs

  pub unseen_le :
      (seen : List A) (a : A) (xs : List A) → unseen (set_insert a seen) xs ≤ unseen seen xs
  unseen_le seen a [] = omega arith
  unseen_le seen a (x ∷ xs) = ground (arith, unseen_le seen a xs, contains-set_insert x a seen)

  pub unseen_lt :
      (seen : List A) (a : A) (xs : List A)
      → contains seen a ≡ false
      → In a xs
      → unseen (set_insert a seen) xs < unseen seen xs
  unseen_lt seen a [] new m = absurd m
  unseen_lt seen a (x ∷ xs) new (inl same) =
      ground (arith, unseen_le seen a xs, contains-set_insert x a seen, same, new)
  unseen_lt seen a (x ∷ xs) new (inr m) =
      ground (arith, unseen_lt seen a xs new m, contains-set_insert x a seen)

  pub unseen-length : (seen xs : List A) → unseen seen xs ≤ length xs
  unseen-length seen [] = omega arith
  unseen-length seen (x ∷ xs) = ground (arith, unseen-length seen xs)

In-below_onto : (i n : ℕ) (rest : List ℕ) → (i < n) ⊎ In i rest → In i (below_onto n rest)
In-below_onto i zero rest (inl h) = absurd (omega arith)
In-below_onto i zero rest (inr m) = m
In-below_onto i (suc n) rest h = In-below_onto i n (n ∷ rest) (ground arith)

-- The numbers below `n` are all listed.
pub In-below : (i n : ℕ) → i < n → In i (below n)
In-below i n h = In-below_onto i n [] (inl h)

length-below_onto : (n : ℕ) (rest : List ℕ) → length (below_onto n rest) ≡ n + length rest
length-below_onto zero rest = omega arith
length-below_onto (suc n) rest = omega (arith, length-below_onto n (n ∷ rest))

pub length-below : (n : ℕ) → length (below n) ≡ n
length-below n = omega (arith, length-below_onto n [])
