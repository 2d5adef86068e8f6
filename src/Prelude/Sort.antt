-- ===== src/Prelude/Sort.antt =====
-- Sorting by a comparison: a stable insertion sort stands for `sort_by`, and sorted lists without
-- repetition for `BTreeSet`.
use Prim.Native.Nat.{suc, Ordering}
use mathlib.Core.Path.{◌≡◌, refl, ap, ◌∙◌}
use mathlib.Core.Logic.{◌↔◌, ◌⊎◌, inl, inr}
use mathlib.Core.Bool.{Bool, true, false}
use mathlib.Core.List.{List, [], ◌∷◌, Permᴰ}
use native.Mathlib.Omega.{arith}
use open_invar.Prelude.Tests.{if◌then◌else◌, Bool-cases}
use open_invar.Prelude.Lists.{length, In, All, Any}
use open_invar.Prelude.Order.{Ord, cmp, cmp_refl}

-- `x` may stand before `y`
abbrev pub is_le : Ordering → Bool
is_le Ordering.gt = false
is_le Ordering.eq = true
is_le Ordering.lt = true

module _ {ℓ} {A : Type ℓ} where
  unfoldable pub insert_by : (A → A → Ordering) → A → List A → List A
  insert_by c x [] = x ∷ []
  insert_by c x (y ∷ ys) =
      let rest = insert_by c x ys in if is_le (c x y) then x ∷ y ∷ ys else y ∷ rest

  unfoldable pub sort_by : (A → A → Ordering) → List A → List A
  unfolding insert_by
  sort_by c [] = []
  sort_by c (x ∷ xs) = insert_by c x (sort_by c xs)

  pub length-insert_by :
      (c : A → A → Ordering) (x : A) (ys : List A) → length (insert_by c x ys) ≡ suc (length ys)
  unfolding insert_by
  length-insert_by c x [] = refl
  length-insert_by c x (y ∷ ys) = ground (arith, length-insert_by c x ys)

  pub length-sort_by : (c : A → A → Ordering) (xs : List A) → length (sort_by c xs) ≡ length xs
  unfolding sort_by
  length-sort_by c [] = refl
  length-sort_by c (x ∷ xs) = length-insert_by c x (sort_by c xs) ∙ ap suc (length-sort_by c xs)

  pub Any-insert_by :
      (P : A → Type 0) (c : A → A → Ordering) (x : A) (ys : List A)
      → Any P (insert_by c x ys) ↔ (P x ⊎ Any P ys)
  unfolding insert_by
  Any-insert_by P c x [] = (λ h. h, λ h. h)
  Any-insert_by P c x (y ∷ ys) = ground (arith, Any-insert_by P c x ys)

  -- Sorting neither drops nor invents an element.
  pub Any-sort_by :
      (P : A → Type 0) (c : A → A → Ordering) (xs : List A) → Any P (sort_by c xs) ↔ Any P xs
  unfolding sort_by
  Any-sort_by P c [] = (λ h. h, λ h. h)
  Any-sort_by P c (x ∷ xs) = ground (arith, Any-insert_by P c x (sort_by c xs), Any-sort_by P c xs)

module _ {ℓ κ} {A : Type ℓ} (P : A → Type κ) (c : A → A → Ordering) where
  All-insert_iff : (x : A) (ys : List A) → All P (insert_by c x ys) ↔ (P x × All P ys)
  unfolding insert_by
  All-insert_iff x [] = (λ h. h, λ h. h)
  All-insert_iff x (y ∷ ys) = elim (Bool-cases (is_le (c x y))) [
    | inl le ↦ rw le (λ h. h, λ h. h)
    | inr gt ↦
        let rest = All-insert_iff x ys in
        rw gt (λ h. ((rest.0 h.1).0, (h.0, (rest.0 h.1).1)), λ h. (h.1.0, rest.1 (h.0, h.1.1)))
  ]

  pub All-sort_by : (xs : List A) → All P (sort_by c xs) ↔ All P xs
  unfolding sort_by
  All-sort_by [] = (λ h. h, λ h. h)
  All-sort_by (x ∷ xs) =
      let here = All-insert_iff x (sort_by c xs) in
      let rest = All-sort_by xs in
      (λ h. ((here.0 h).0, rest.0 (here.0 h).1), λ h. here.1 (h.0, rest.1 h.1))

pub In-Any : {A : Type 0} (a : A) (xs : List A) → In a xs ↔ Any (λ x. a ≡ x) xs
In-Any a [] = (λ h. h, λ h. h)
In-Any a (x ∷ xs) = ground (arith, In-Any a xs)

pub In-sort_by :
    {A : Type 0} (c : A → A → Ordering) (a : A) (xs : List A) → In a (sort_by c xs) ↔ In a xs
In-sort_by c a xs =
    ground (arith, In-Any a xs, In-Any a (sort_by c xs), Any-sort_by (λ x. a ≡ x) c xs)

module _ {ℓ} {A : Type ℓ} ⦃o : Ord A⦄ where
  -- `sort()`
  abbrev pub sort : List A → List A
  sort xs = sort_by cmp xs

  -- No element stands before one that is below it.
  abbrev pub IsSorted : List A → Type 0
  IsSorted [] = Unit
  IsSorted (x ∷ xs) = All (λ y. is_le (cmp x y) ≡ true) xs × IsSorted xs

  le_trans_cmp :
      (x y z : A) → is_le (cmp x y) ≡ true → is_le (cmp y z) ≡ true → is_le (cmp x z) ≡ true
  le_trans_cmp x y z h k = ground (arith, o.cmp-eq x y, o.cmp-eq y z, o.cmp_trans x y z, cmp_refl x)

  le_total_cmp : (x y : A) → is_le (cmp x y) ≡ false → is_le (cmp y x) ≡ true
  le_total_cmp x y h = ground (arith, o.cmp_swap x y)

  le_antisymm_cmp : (x y : A) → is_le (cmp x y) ≡ true → is_le (cmp y x) ≡ true → x ≡ y
  le_antisymm_cmp x y h k = ground (arith, o.cmp-eq x y, o.cmp_swap x y)

  All-le_trans :
      (x y : A) (ys : List A)
      → is_le (cmp x y) ≡ true
      → All (λ z. is_le (cmp y z) ≡ true) ys
      → All (λ z. is_le (cmp x z) ≡ true) ys
  All-le_trans x y [] h k = tt
  All-le_trans x y (z ∷ ys) h k = (le_trans_cmp x y z h k.0, All-le_trans x y ys h k.1)

  All-insert_by {κ} :
      (P : A → Type κ) (x : A) (ys : List A) → P x → All P ys → All P (insert_by cmp x ys)
  unfolding insert_by
  All-insert_by P x [] p h = (p, tt)
  All-insert_by P x (y ∷ ys) p h = elim (Bool-cases (is_le (cmp x y))) [
    | inl le ↦ rw le (p, h)
    | inr gt ↦ rw gt (h.0, All-insert_by P x ys p h.1)
  ]

  insert_by-IsSorted : (x : A) (ys : List A) → IsSorted ys → IsSorted (insert_by cmp x ys)
  unfolding insert_by
  insert_by-IsSorted x [] h = (tt, tt)
  insert_by-IsSorted x (y ∷ ys) h = elim (Bool-cases (is_le (cmp x y))) [
    | inl le ↦ rw le ((le, All-le_trans x y ys le h.0), h)
    | inr gt ↦ rw gt (
      All-insert_by (λ z. is_le (cmp y z) ≡ true) x ys (le_total_cmp x y gt) h.0,
      insert_by-IsSorted x ys h.1,
    )
  ]

  pub sort-IsSorted : (xs : List A) → IsSorted (sort xs)
  unfolding sort_by
  sort-IsSorted [] = tt
  sort-IsSorted (x ∷ xs) = insert_by-IsSorted x (sort xs) (sort-IsSorted xs)

  insert_comm :
      (x y : A) (zs : List A)
      → insert_by cmp x (insert_by cmp y zs) ≡ insert_by cmp y (insert_by cmp x zs)
  unfolding insert_by
  insert_comm x y [] = ground (arith, o.cmp_swap x y, o.cmp-eq x y)
  insert_comm x y (z ∷ zs) = ground (
    arith,
    o.cmp_swap x y,
    o.cmp-eq x y,
    le_trans_cmp x y z,
    le_trans_cmp y x z,
    insert_comm x y zs,
  )

  -- The sorted list depends on what is in the list, and not on its order.
  pub sort-perm : {xs ys : List A} → Permᴰ xs ys → sort xs ≡ sort ys
  unfolding sort_by
  sort-perm Permᴰ.nil = refl
  sort-perm (Permᴰ.cons {a} {b} {l₁} {l₂} e p) = rw (e, sort-perm p) refl
  sort-perm (Permᴰ.swap {a} {b} {a'} {b'} {l} e f) = rw (e, f) (insert_comm b' a' (sort l))
  sort-perm (Permᴰ.trans p q) = sort-perm p ∙ sort-perm q
