-- ===== src/Prelude/Assoc.antt =====
-- Maps and sets by key: association lists for `DashMap` and `HashMap`, whose order of iteration no
-- code may rely on, and lists in the order of their keys for `BTreeMap` and `BTreeSet`.
use Prim.Native.Nat.{Ordering}
use mathlib.Core.Path.{◌≡◌, refl}
use mathlib.Core.Logic.{◌↔◌, ◌⊎◌}
use mathlib.Core.Bool.{Bool, true}
use mathlib.Core.Option.{Option, none, some}
use mathlib.Core.List.{List, [], ◌∷◌}
use native.Mathlib.Omega.{arith}
use open_invar.Prelude.Tests.{if◌then◌else◌, is_some}
use open_invar.Prelude.Lists.{In, any}
use open_invar.Prelude.Order.{Ord, cmp, cmp_refl, eqb, eqb_iff}

abbrev pub Map {ℓ κ} : Type ℓ → Type κ → Type (ℓ ⊔ κ)
Map K V = List (K × V)

module _ {ℓ κ} {K : Type ℓ} {V : Type κ} ⦃o : Ord K⦄ where
  -- `map.get(key)`
  unfoldable pub get : Map K V → K → Option V
  get [] k = none
  get ((j, v) ∷ m) k = if eqb j k then some v else get m k

  -- `map.contains_key(key)`
  abbrev pub contains_key : Map K V → K → Bool
  contains_key m k = is_some (get m k)

  -- `map.insert(key, value)`: in place for a key that is there.
  unfoldable pub insert : Map K V → K → V → Map K V
  insert [] k v = (k, v) ∷ []
  insert ((j, w) ∷ m) k v = if eqb j k then (k, v) ∷ m else (j, w) ∷ insert m k v

  -- `map.remove(key)`
  unfoldable pub remove : Map K V → K → Map K V
  remove [] k = []
  remove ((j, w) ∷ m) k = let rest = remove m k in if eqb j k then rest else (j, w) ∷ rest

  -- `BTreeMap::insert`: a new key goes to its place in the order.
  unfoldable pub tree_insert : Map K V → K → V → Map K V
  tree_insert [] k v = (k, v) ∷ []
  tree_insert ((j, w) ∷ m) k v = elim (cmp k j) [
    | Ordering.lt ↦ (k, v) ∷ (j, w) ∷ m
    | Ordering.eq ↦ (k, v) ∷ m
    | Ordering.gt ↦ (j, w) ∷ tree_insert m k v
  ]

  pub get-insert :
      (m : Map K V) (k j : K) (v : V) → get (insert m k v) j ≡ (if eqb k j then some v else get m j)
  unfolding get insert
  get-insert [] k j v = refl
  get-insert ((i, w) ∷ m) k j v =
      ground (arith, eqb_iff i k, eqb_iff i j, eqb_iff k j, get-insert m k j v)

  pub get-insert_self : (m : Map K V) (k : K) (v : V) → get (insert m k v) k ≡ some v
  get-insert_self m k v = rw (get-insert m k k v, (eqb_iff k k).1 refl) refl

  pub get-remove :
      (m : Map K V) (k j : K) → get (remove m k) j ≡ (if eqb k j then none else get m j)
  unfolding get remove
  get-remove [] k j = ground arith
  get-remove ((i, w) ∷ m) k j =
      ground (arith, eqb_iff i k, eqb_iff i j, eqb_iff k j, get-remove m k j)

-- `map.keys()` and `map.values()`
abbrev pub keys {ℓ κ} : {K : Type ℓ} {V : Type κ} → Map K V → List K
keys [] = []
keys ((k, v) ∷ m) = k ∷ keys m

abbrev pub values {ℓ κ} : {K : Type ℓ} {V : Type κ} → Map K V → List V
values [] = []
values ((k, v) ∷ m) = v ∷ values m

-- `entry(key).and_modify(f).or_insert(v)`
abbrev pub upsert {ℓ κ} :
    {K : Type ℓ} {V : Type κ} ⦃o : Ord K⦄ → Map K V → K → (V → V) → V → Map K V
upsert m k f v = insert m k (elim (get m k) [ none ↦ v | some w ↦ f w ])

-- `dedup()`: of equal neighbours the first stays.
abbrev pub dedup {ℓ} : {A : Type ℓ} ⦃o : Ord A⦄ → List A → List A
dedup [] = []
dedup (x ∷ xs) =
    let rest = dedup xs in
    elim rest [ [] ↦ x ∷ [] | y ∷ ys ↦ if eqb x y then x ∷ ys else x ∷ y ∷ ys ]

module _ {A : Type 0} ⦃o : Ord A⦄ where
  -- `iter().any(|x| x == a)`, `set.contains(a)`
  unfoldable pub contains : List A → A → Bool
  contains xs a = any (λ x. eqb x a) xs

  -- `BTreeSet::insert`
  unfoldable pub set_insert : A → List A → List A
  set_insert a [] = a ∷ []
  set_insert a (x ∷ xs) = elim (cmp a x) [
    | Ordering.lt ↦ a ∷ x ∷ xs
    | Ordering.eq ↦ x ∷ xs
    | Ordering.gt ↦ x ∷ set_insert a xs
  ]

  pub contains_iff : (xs : List A) (a : A) → (contains xs a ≡ true) ↔ In a xs
  unfolding contains
  contains_iff [] a = (λ h. cc, λ h. absurd h)
  contains_iff (x ∷ xs) a = ground (arith, eqb_iff x a, contains_iff xs a)

  pub In-set_insert : (b a : A) (xs : List A) → In b (set_insert a xs) ↔ ((b ≡ a) ⊎ In b xs)
  unfolding set_insert
  In-set_insert b a [] = (λ h. h, λ h. h)
  In-set_insert b a (x ∷ xs) = ground (arith, o.cmp-eq a x, In-set_insert b a xs)

  pub contains-set_insert :
      (b a : A) (xs : List A)
      → (contains (set_insert a xs) b ≡ true) ↔ ((b ≡ a) ⊎ (contains xs b ≡ true))
  contains-set_insert b a xs =
      ground (arith, contains_iff xs b, contains_iff (set_insert a xs) b, In-set_insert b a xs)

module _ {K V : Type 0} ⦃o : Ord K⦄ where
  pub get-tree_insert :
      (m : Map K V) (k j : K) (v : V)
      → get (tree_insert m k v) j ≡ (if eqb k j then some v else get m j)
  unfolding get tree_insert
  get-tree_insert [] k j v = refl
  get-tree_insert ((i, w) ∷ m) k j v = ground (
    arith,
    o.cmp-eq k i,
    cmp_refl k,
    eqb_iff k i,
    eqb_iff i j,
    eqb_iff k j,
    get-tree_insert m k j v,
  )

  pub In-keys : (m : Map K V) (k : K) → In k (keys m) ↔ (is_some (get m k) ≡ true)
  unfolding get
  In-keys [] k = ground arith
  In-keys ((i, w) ∷ m) k = ground (arith, eqb_iff i k, In-keys m k)
