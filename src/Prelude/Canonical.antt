-- ===== src/Prelude/Canonical.antt =====
-- Sorted lists without repetitions: two of them with the same elements are the same.
use Prim.Native.Nat.{Ordering}
use mathlib.Core.Path.{◌≡◌, ◌∙◌, refl, sym, subst}
use mathlib.Core.Logic.{◌↔◌, ◌⊎◌, inl, inr, ⊎_elim}
use mathlib.Core.Bool.{true, false}
use mathlib.Core.List.{List, [], ◌∷◌}
use native.Mathlib.Omega.{arith}
use open_invar.Prelude.Tests.{if◌then◌else◌, Bool-cases}
use open_invar.Prelude.Lists.{All, All-map, All-of_In, All-at, In}
use open_invar.Prelude.Order.{Ord, cmp, cmp_refl, eqb, eqb_iff}
use open_invar.Prelude.Sort.{sort, IsSorted, sort-IsSorted, is_le, In-sort_by}
use open_invar.Prelude.Assoc.{dedup}

module _ {A : Type 0} ⦃o : Ord A⦄ where
  -- Each element stands before all that follow.
  abbrev pub IsAscending : List A → Type 0
  IsAscending [] = Unit
  IsAscending (x ∷ xs) = All (λ y. cmp x y ≡ Ordering.lt) xs × IsAscending xs

  -- One step of `dedup`, for any list that stands for the rest.
  abbrev joined : A → List A → List A
  joined x rest = elim rest [ [] ↦ x ∷ [] | y ∷ ys ↦ if eqb x y then x ∷ ys else x ∷ y ∷ ys ]

  In-joined : (a x : A) (rest : List A) → In a (joined x rest) ↔ ((a ≡ x) ⊎ In a rest)
  In-joined a x [] = ground arith
  In-joined a x (y ∷ ys) = ground (arith, eqb_iff x y)

  pub In-dedup : (a : A) (xs : List A) → In a (dedup xs) ↔ In a xs
  In-dedup a [] = ground arith
  In-dedup a (x ∷ xs) = ground (arith, In-joined a x (dedup xs), In-dedup a xs)

  above_of_le : (x : A) (y : A) → is_le (cmp x y) ≡ true → eqb x y ≡ false → cmp x y ≡ Ordering.lt
  unfolding eqb
  above_of_le x y le other = ground (arith, le, other)

  joined-IsAscending :
      (x : A) (rest : List A)
      → All (λ y. is_le (cmp x y) ≡ true) rest
      → IsAscending rest
      → IsAscending (joined x rest)
  joined-IsAscending x [] le h = (tt, tt)
  joined-IsAscending x (y ∷ ys) le h = elim (Bool-cases (eqb x y)) [
    | inl same ↦
        rw same
          (subst (λ z. All (λ w. cmp z w ≡ Ordering.lt) ys) (sym ((eqb_iff x y).0 same)) h.0, h.1)
    | inr other ↦
        let above = above_of_le x y le.0 other in
        rw other ((above, All-map _ _ ys (λ z next. o.cmp_trans x y z above next) h.0), h)
  ]

  dedup-IsAscending : (xs : List A) → IsSorted xs → IsAscending (dedup xs)
  dedup-IsAscending [] h = tt
  dedup-IsAscending (x ∷ xs) h =
      joined-IsAscending x (dedup xs)
        (All-of_In _ (dedup xs)
          (λ y i. All-at (λ y. is_le (cmp x y) ≡ true) y xs h.0 ((In-dedup y xs).0 i)))
        (dedup-IsAscending xs h.1)

  not_below : (x : A) (xs : List A) → All (λ y. cmp x y ≡ Ordering.lt) xs → In x xs → ⊥
  not_below x xs h i = ground (arith, cmp_refl x, All-at (λ y. cmp x y ≡ Ordering.lt) x xs h i)

  -- The first of two such lists with the same elements is the first of the other.
  same_head :
      (x y : A) (xs ys : List A)
      → IsAscending (x ∷ xs)
      → IsAscending (y ∷ ys)
      → In x (y ∷ ys)
      → In y (x ∷ xs)
      → x ≡ y
  same_head x y xs ys h k (inl e) j = e
  same_head x y xs ys h k (inr i) (inl e) = sym e
  same_head x y xs ys h k (inr i) (inr j) = absurd (
      ground (
        arith,
        cmp_refl x,
        o.cmp_trans x y x (All-at (λ z. cmp x z ≡ Ordering.lt) y xs h.0 j)
            (All-at (λ z. cmp y z ≡ Ordering.lt) x ys k.0 i),
      ))

  pub ascending_same :
      (xs ys : List A) → IsAscending xs → IsAscending ys → ((a : A) → In a xs ↔ In a ys) → xs ≡ ys
  ascending_same [] [] h k same = refl
  ascending_same [] (y ∷ ys) h k same = absurd ((same y).1 (inl refl))
  ascending_same (x ∷ xs) [] h k same = absurd ((same x).0 (inl refl))
  ascending_same (x ∷ xs) (y ∷ ys) h k same =
      let e = same_head x y xs ys h k ((same x).0 (inl refl)) ((same y).1 (inl refl)) in
      rw
        (
          e,
          ascending_same xs ys h.1 k.1 (λ a. (
            λ i.
                ⊎_elim (λ f. absurd (not_below x xs h.0 (subst (λ b. In b xs) (f ∙ sym e) i)))
                  (λ j. j) ((same a).0 (inr i)),
            λ i.
                ⊎_elim (λ f. absurd (not_below y ys k.0 (subst (λ b. In b ys) (f ∙ e) i))) (λ j. j)
                  ((same a).1 (inr i)),
          )),
        )
        refl

  -- What is sorted and freed of repetitions depends on the elements alone.
  pub dedup-sort :
      (xs ys : List A) → ((a : A) → In a xs ↔ In a ys) → dedup (sort xs) ≡ dedup (sort ys)
  dedup-sort xs ys same =
      ascending_same (dedup (sort xs)) (dedup (sort ys))
        (dedup-IsAscending (sort xs) (sort-IsSorted xs))
        (dedup-IsAscending (sort ys) (sort-IsSorted ys))
        (λ a. ground (
          arith,
          In-dedup a (sort xs),
          In-dedup a (sort ys),
          In-sort_by cmp a xs,
          In-sort_by cmp a ys,
          same a,
        ))
