-- ===== src/Prelude/Lists.antt =====
-- Lists under native numbers, Boolean scans of a list, and predicates on a list by recursion.
use Prim.Native.Nat.{ℕ, zero, suc, ◌+◌}
use mathlib.Core.Path.{◌≡◌, refl, subst, sym}
use mathlib.Core.Logic.{◌⊎◌, inl, inr, ◌↔◌, ⊎_elim}
use mathlib.Core.Bool.{Bool, true, false, ◌||◌, ◌&&◌}
use mathlib.Core.List.{List, [], ◌∷◌, ◌++◌}
use mathlib.Core.Option.{Option, none, some}
use native.Mathlib.Omega.{arith}
use open_invar.Prelude.Tests.{if◌then◌else◌, Bool-cases}

module _ {ℓ} {A : Type ℓ} where
  abbrev pub length : List A → ℕ
  length [] = 0
  length (x ∷ xs) = suc (length xs)

  abbrev pub get_elem? : List A → ℕ → Option A
  get_elem? [] i = none
  get_elem? (x ∷ xs) zero = some x
  get_elem? (x ∷ xs) (suc i) = get_elem? xs i

  -- `iter().any(test)`
  abbrev pub any : (A → Bool) → List A → Bool
  any test [] = false
  any test (x ∷ xs) = test x || any test xs

  -- `iter().all(test)`
  abbrev pub all : (A → Bool) → List A → Bool
  all test [] = true
  all test (x ∷ xs) = test x && all test xs

  -- `retain(test)`, and `filter(test)` over an iterator
  abbrev pub retain : (A → Bool) → List A → List A
  retain test [] = []
  retain test (x ∷ xs) = let rest = retain test xs in if test x then x ∷ rest else rest

  -- the number of elements that pass a test
  abbrev pub count_if : (A → Bool) → List A → ℕ
  count_if test [] = 0
  count_if test (x ∷ xs) = (if test x then 1 else 0) + count_if test xs

  -- `iter().position(test)`: the index of the first element that passes.
  abbrev pub position : (A → Bool) → List A → Option ℕ
  position test [] = none
  position test (x ∷ xs) =
      let rest = position test xs in
      if test x then some 0 else elim rest [ none ↦ none | some i ↦ some (suc i) ]

  pub length-append : (xs ys : List A) → length (xs ++ ys) ≡ length xs + length ys
  length-append [] ys = omega arith
  length-append (x ∷ xs) ys = omega (arith, length-append xs ys)

-- `filter_map(f)` over an iterator
abbrev pub filter_map {ℓ κ} : {A : Type ℓ} {B : Type κ} → (A → Option B) → List A → List B
filter_map f [] = []
filter_map f (x ∷ xs) = let rest = filter_map f xs in elim (f x) [ none ↦ rest | some y ↦ y ∷ rest ]

-- The numbers below `n`, in their order, put before `rest`.
abbrev pub below_onto : ℕ → List ℕ → List ℕ
below_onto zero rest = rest
below_onto (suc n) rest = below_onto n (n ∷ rest)

abbrev pub below : ℕ → List ℕ
below n = below_onto n []

-- Predicates by recursion, which compute to tuples and sums.
abbrev pub All {ℓ κ} : {A : Type ℓ} → (A → Type κ) → List A → Type κ
All P [] = Unit
All P (x ∷ xs) = P x × All P xs

abbrev pub Any {ℓ} : {A : Type ℓ} → (A → Type 0) → List A → Type 0
Any P [] = ⊥
Any P (x ∷ xs) = P x ⊎ Any P xs

abbrev pub In : {A : Type 0} → A → List A → Type 0
In a [] = ⊥
In a (x ∷ xs) = (a ≡ x) ⊎ In a xs

pub Any-map {ℓ} :
    {A : Type ℓ} (P Q : A → Type 0) (xs : List A) → ((x : A) → P x → Q x) → Any P xs → Any Q xs
Any-map P Q [] f h = h
Any-map P Q (x ∷ xs) f h = ⊎_elim (λ p. inl (f x p)) (λ r. inr (Any-map P Q xs f r)) h

pub All-map {ℓ κ μ} :
    {A : Type ℓ} (P : A → Type κ) (Q : A → Type μ) (xs : List A)
    → ((x : A) → P x → Q x)
    → All P xs
    → All Q xs
All-map P Q [] f h = tt
All-map P Q (x ∷ xs) f h = (f x h.0, All-map P Q xs f h.1)

pub Any-of_In : {A : Type 0} (P : A → Type 0) (a : A) (xs : List A) → P a → In a xs → Any P xs
Any-of_In P a [] p h = absurd h
Any-of_In P a (x ∷ xs) p h = ⊎_elim (λ e. inl (subst P e p)) (λ r. inr (Any-of_In P a xs p r)) h

pub Any-witness {ℓ} : {A : Type ℓ} (P : A → Type 0) (xs : List A) → Any P xs → (x : A) × P x
Any-witness P [] h = absurd h
Any-witness P (x ∷ xs) (inl p) = (x, p)
Any-witness P (x ∷ xs) (inr r) = Any-witness P xs r

pub All-at {κ} : {A : Type 0} (P : A → Type κ) (a : A) (xs : List A) → All P xs → In a xs → P a
All-at P a [] h m = absurd m
All-at P a (x ∷ xs) h (inl e) = subst P (sym e) h.0
All-at P a (x ∷ xs) h (inr r) = All-at P a xs h.1 r

pub All-every {ℓ κ} : {A : Type ℓ} (P : A → Type κ) (xs : List A) → ((x : A) → P x) → All P xs
All-every P [] f = tt
All-every P (x ∷ xs) f = (f x, All-every P xs f)

-- No element has a property exactly when every element lacks it.
pub not-Any {ℓ} : {A : Type ℓ} (P : A → Type 0) (xs : List A) → (¬ Any P xs) ↔ All (λ x. ¬ P x) xs
not-Any P [] = (λ _. tt, λ _ h. h)
not-Any P (x ∷ xs) = (
  λ n. (λ p. n (inl p), (not-Any P xs).0 (λ r. n (inr r))),
  λ a h. ⊎_elim a.0 ((not-Any P xs).1 a.1) h,
)

-- An element of a `filter_map` comes from one that is mapped to it.
pub In-filter_map {ℓ} :
    {A : Type ℓ} {B : Type 0} (f : A → Option B) (b : B) (xs : List A)
    → In b (filter_map f xs) ↔ Any (λ x. f x ≡ some b) xs
In-filter_map f b [] = (λ h. h, λ h. h)
In-filter_map f b (x ∷ xs) = ground (arith, In-filter_map f b xs)

pub In-append : {A : Type 0} (a : A) (xs ys : List A) → In a (xs ++ ys) ↔ (In a xs ⊎ In a ys)
In-append a [] ys = ground arith
In-append a (x ∷ xs) ys = ground (arith, In-append a xs ys)

pub In-retain :
    {A : Type 0} (test : A → Bool) (a : A) (xs : List A)
    → In a (retain test xs) ↔ (In a xs × (test a ≡ true))
In-retain test a [] = ground arith
In-retain test a (x ∷ xs) = elim (Bool-cases (test x)) [
  | inl passes ↦ rw passes (ground (arith, In-retain test a xs, passes))
  | inr fails ↦ rw fails (ground (arith, In-retain test a xs, fails))
]

pub Any-member : {A : Type 0} (P : A → Type 0) (xs : List A) → Any P xs → (x : A) × (In x xs × P x)
Any-member P [] h = absurd h
Any-member P (x ∷ xs) (inl p) = (x, (inl refl, p))
Any-member P (x ∷ xs) (inr r) = let (y, (m, p)) = Any-member P xs r in (y, (inr m, p))

pub All-of_In {κ} :
    {A : Type 0} (P : A → Type κ) (xs : List A) → ((x : A) → In x xs → P x) → All P xs
All-of_In P [] f = tt
All-of_In P (x ∷ xs) f = (f x (inl refl), All-of_In P xs (λ y m. f y (inr m)))

pub All-append {ℓ κ} :
    {A : Type ℓ} (Q : A → Type κ) (xs ys : List A) → All Q xs → All Q ys → All Q (xs ++ ys)
All-append Q [] ys h k = k
All-append Q (x ∷ xs) ys h k = (h.0, All-append Q xs ys h.1 k)
