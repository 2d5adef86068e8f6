-- ===== src/Prelude/Order.antt =====
-- Total orders as comparison functions: numbers, tests, lists, options and pairs, and an order
-- taken over along an injective key, as a derived `Ord` compares field by field.
use Prim.Native.Nat.{ℕ, compare, Ordering}
use mathlib.Core.Path.{◌≡◌, refl, ap}
use mathlib.Core.Logic.{◌↔◌}
use mathlib.Core.Bool.{Bool, true, false}
use mathlib.Core.List.{List, [], ◌∷◌}
use mathlib.Core.Option.{Option, none, some}
use native.Mathlib.Omega.{arith}

abbrev pub flip : Ordering → Ordering
flip Ordering.lt = Ordering.gt
flip Ordering.eq = Ordering.eq
flip Ordering.gt = Ordering.lt

-- `a.then(b)`
abbrev pub then_cmp : Ordering → Ordering → Ordering
then_cmp Ordering.lt b = Ordering.lt
then_cmp Ordering.eq b = b
then_cmp Ordering.gt b = Ordering.gt

abbrev pub is_eq : Ordering → Bool
is_eq Ordering.lt = false
is_eq Ordering.eq = true
is_eq Ordering.gt = false

flip_fixed : (x : Ordering) → x ≡ flip x → x ≡ Ordering.eq
flip_fixed x h = ground arith

eq_of_is_eq : (x : Ordering) → is_eq x ≡ true → x ≡ Ordering.eq
eq_of_is_eq x h = ground arith

pub record Ord {ℓ} (A : Type ℓ) : Type ℓ where
  pub cmp : A → A → Ordering
  pub cmp-eq : (a b : A) → cmp a b ≡ Ordering.eq → a ≡ b
  pub cmp_swap : (a b : A) → cmp b a ≡ flip (cmp a b)
  pub cmp_trans :
      (a b c : A) → cmp a b ≡ Ordering.lt → cmp b c ≡ Ordering.lt → cmp a c ≡ Ordering.lt

module _ {ℓ} {A : Type ℓ} ⦃o : Ord A⦄ where
  abbrev pub cmp : A → A → Ordering
  cmp a b = o.cmp a b

  pub cmp_refl : (a : A) → cmp a a ≡ Ordering.eq
  cmp_refl a = flip_fixed (cmp a a) (o.cmp_swap a a)

  -- `a == b`
  unfoldable pub eqb : A → A → Bool
  eqb a b = is_eq (cmp a b)

  pub eqb_iff : (a b : A) → (eqb a b ≡ true) ↔ (a ≡ b)
  unfolding eqb
  eqb_iff a b = (λ h. o.cmp-eq a b (eq_of_is_eq (cmp a b) h), λ e. rw e (ap is_eq (cmp_refl b)))

pub nat_swap : (a b : ℕ) → compare b a ≡ flip (compare a b)
nat_swap a b = ground arith

pub nat_eq : (a b : ℕ) → compare a b ≡ Ordering.eq → a ≡ b
nat_eq a b h = ground arith

pub nat_trans :
    (a b c : ℕ) → compare a b ≡ Ordering.lt → compare b c ≡ Ordering.lt → compare a c ≡ Ordering.lt
nat_trans a b c h k = ground arith

instance abbrev pub nat_ord : Ord ℕ
nat_ord = record { cmp = compare; cmp-eq = nat_eq; cmp_swap = nat_swap; cmp_trans = nat_trans }

-- An order along an injective key.
abbrev pub ord_by {ℓ κ} :
    {A : Type ℓ} {B : Type κ} → Ord B → (key : A → B) → ((a b : A) → key a ≡ key b → a ≡ b) → Ord A
ord_by o key inj = record {
  cmp = λ a b. o.cmp (key a) (key b);
  cmp-eq = λ a b h. inj a b (o.cmp-eq (key a) (key b) h);
  cmp_swap = λ a b. o.cmp_swap (key a) (key b);
  cmp_trans = λ a b c. o.cmp_trans (key a) (key b) (key c);
}

module _ {ℓ κ} {A : Type ℓ} {B : Type κ} ⦃o : Ord A⦄ ⦃p : Ord B⦄ where
  abbrev pub pair_cmp : A × B → A × B → Ordering
  pair_cmp (a, b) (c, d) = then_cmp (cmp a c) (cmp b d)

  pub pair_eq : (x y : A × B) → pair_cmp x y ≡ Ordering.eq → x ≡ y
  pair_eq (a, b) (c, d) h = ground (arith, o.cmp-eq a c, p.cmp-eq b d)

  pub pair_swap : (x y : A × B) → pair_cmp y x ≡ flip (pair_cmp x y)
  pair_swap (a, b) (c, d) = ground (arith, o.cmp_swap a c, p.cmp_swap b d)

  pub pair_trans :
      (x y z : A × B)
      → pair_cmp x y ≡ Ordering.lt
      → pair_cmp y z ≡ Ordering.lt
      → pair_cmp x z ≡ Ordering.lt
  pair_trans (a, b) (c, d) (e, f) h k =
      ground (arith, o.cmp-eq a c, o.cmp-eq c e, o.cmp_trans a c e, p.cmp_trans b d f, cmp_refl a)

  instance abbrev pub pair_ord : Ord (A × B)
  pair_ord = record {
    cmp = pair_cmp;
    cmp-eq = pair_eq;
    cmp_swap = pair_swap;
    cmp_trans = pair_trans;
  }

module _ {ℓ} {A : Type ℓ} ⦃o : Ord A⦄ where
  abbrev pub list_cmp : List A → List A → Ordering
  list_cmp [] [] = Ordering.eq
  list_cmp [] (y ∷ ys) = Ordering.lt
  list_cmp (x ∷ xs) [] = Ordering.gt
  list_cmp (x ∷ xs) (y ∷ ys) = then_cmp (cmp x y) (list_cmp xs ys)

  pub list_eq : (x y : List A) → list_cmp x y ≡ Ordering.eq → x ≡ y
  list_eq [] [] h = refl
  list_eq [] (y ∷ ys) h = cc
  list_eq (x ∷ xs) [] h = cc
  list_eq (x ∷ xs) (y ∷ ys) h = ground (arith, o.cmp-eq x y, list_eq xs ys)

  pub list_swap : (x y : List A) → list_cmp y x ≡ flip (list_cmp x y)
  list_swap [] [] = refl
  list_swap [] (y ∷ ys) = refl
  list_swap (x ∷ xs) [] = refl
  list_swap (x ∷ xs) (y ∷ ys) = ground (arith, o.cmp_swap x y, list_swap xs ys)

  pub list_trans :
      (x y z : List A)
      → list_cmp x y ≡ Ordering.lt
      → list_cmp y z ≡ Ordering.lt
      → list_cmp x z ≡ Ordering.lt
  list_trans [] [] z h k = cc
  list_trans [] (y ∷ ys) [] h k = cc
  list_trans [] (y ∷ ys) (z ∷ zs) h k = refl
  list_trans (x ∷ xs) [] z h k = cc
  list_trans (x ∷ xs) (y ∷ ys) [] h k = cc
  list_trans (x ∷ xs) (y ∷ ys) (z ∷ zs) h k =
      ground (arith, o.cmp-eq x y, o.cmp-eq y z, o.cmp_trans x y z, list_trans xs ys zs, cmp_refl x)

  instance abbrev pub list_ord : Ord (List A)
  list_ord = record {
    cmp = list_cmp;
    cmp-eq = list_eq;
    cmp_swap = list_swap;
    cmp_trans = list_trans;
  }

-- `None` stands before `Some`, and `false` before `true`.
abbrev pub option_key {ℓ} : {A : Type ℓ} → Option A → List A
option_key none = []
option_key (some a) = a ∷ []

pub option_key_inj {ℓ} : {A : Type ℓ} (a b : Option A) → option_key a ≡ option_key b → a ≡ b
option_key_inj a b h = ground arith

abbrev pub bool_key : Bool → ℕ
bool_key false = 0
bool_key true = 1

pub bool_key_inj : (a b : Bool) → bool_key a ≡ bool_key b → a ≡ b
bool_key_inj a b h = ground arith

instance abbrev pub option_ord {ℓ} : {A : Type ℓ} ⦃o : Ord A⦄ → Ord (Option A)
option_ord = ord_by list_ord option_key option_key_inj

instance abbrev pub bool_ord : Ord Bool
bool_ord = ord_by nat_ord bool_key bool_key_inj
