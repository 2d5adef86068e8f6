-- ===== src/RuleEval/Evaluate/Shuffle.antt =====
-- Two maps with the same entries in another order, as a `DashMap` may list them at each run.
use open_invar.Prelude.{
  ◌≡◌, refl, ap, sym, ◌∙◌, inl, inr, Option, none, some, List, [], ◌∷◌, All-at, In, Map, values,
  get, get-In, filter_map, Option-cases, arith, nat_ord, list_ord,
}
use mathlib.Core.List.{Permᴰ}
use open_invar.Ir.{SymbolId, Symbol}
use open_invar.Delta.Compute.Keyed.{IsKeyed}

pub In-Permᴰ : {A : Type 0} {xs ys : List A} (a : A) → Permᴰ xs ys → In a xs → In a ys
In-Permᴰ a Permᴰ.nil m = m
In-Permᴰ a (Permᴰ.cons {b = b} e p) (inl m) = inl (m ∙ e)
In-Permᴰ a (Permᴰ.cons e p) (inr m) = inr (In-Permᴰ a p m)
In-Permᴰ a (Permᴰ.swap e f) (inl m) = inr (inl (m ∙ e))
In-Permᴰ a (Permᴰ.swap e f) (inr (inl m)) = inl (m ∙ f)
In-Permᴰ a (Permᴰ.swap e f) (inr (inr m)) = inr (inr m)
In-Permᴰ a (Permᴰ.trans p q) m = In-Permᴰ a q (In-Permᴰ a p m)

pub values-Permᴰ : {K V : Type 0} {m n : Map K V} → Permᴰ m n → Permᴰ (values m) (values n)
values-Permᴰ Permᴰ.nil = Permᴰ.nil
values-Permᴰ (Permᴰ.cons e p) = Permᴰ.cons (ap (λ x. x.1) e) (values-Permᴰ p)
values-Permᴰ (Permᴰ.swap e f) = Permᴰ.swap (ap (λ x. x.1) e) (ap (λ x. x.1) f)
values-Permᴰ (Permᴰ.trans p q) = Permᴰ.trans (values-Permᴰ p) (values-Permᴰ q)

-- What a `filter_map` puts in front of the rest.
abbrev onto : {B : Type 0} → Option B → List B → List B
onto none rest = rest
onto (some y) rest = y ∷ rest

filter_map-cons :
    {A B : Type 0} (f : A → Option B) (x : A) (xs : List A)
    → filter_map f (x ∷ xs) ≡ onto (f x) (filter_map f xs)
filter_map-cons f x xs = ground arith

onto-Permᴰ :
    {B : Type 0} (o : Option B) {xs ys : List B} → Permᴰ xs ys → Permᴰ (onto o xs) (onto o ys)
onto-Permᴰ none p = p
onto-Permᴰ (some y) p = Permᴰ.cons refl p

same-Permᴰ : {B : Type 0} (xs : List B) → Permᴰ xs xs
same-Permᴰ [] = Permᴰ.nil
same-Permᴰ (x ∷ xs) = Permᴰ.cons refl (same-Permᴰ xs)

onto-swap :
    {B : Type 0} (o u : Option B) (xs : List B) → Permᴰ (onto o (onto u xs)) (onto u (onto o xs))
onto-swap none u xs = same-Permᴰ (onto u xs)
onto-swap (some y) none xs = same-Permᴰ (y ∷ xs)
onto-swap (some y) (some z) xs = Permᴰ.swap refl refl

pub filter_map-Permᴰ :
    {A B : Type 0} (f : A → Option B) {xs ys : List A}
    → Permᴰ xs ys
    → Permᴰ (filter_map f xs) (filter_map f ys)
filter_map-Permᴰ f Permᴰ.nil = Permᴰ.nil
filter_map-Permᴰ f (Permᴰ.cons {a} {b} {l₁} {l₂} e p) =
    rw (e, filter_map-cons f b l₁, filter_map-cons f b l₂) (onto-Permᴰ (f b) (filter_map-Permᴰ f p))
filter_map-Permᴰ f (Permᴰ.swap {a} {b} {a' = c} {b' = d} {l} e u) =
    rw
      (
        e,
        u,
        filter_map-cons f d (c ∷ l),
        filter_map-cons f c l,
        filter_map-cons f c (d ∷ l),
        filter_map-cons f d l,
      )
      (onto-swap (f d) (f c) (filter_map f l))
filter_map-Permᴰ f (Permᴰ.trans p q) = Permᴰ.trans (filter_map-Permᴰ f p) (filter_map-Permᴰ f q)

pub symm : {A : Type 0} {xs ys : List A} → Permᴰ xs ys → Permᴰ ys xs
symm Permᴰ.nil = Permᴰ.nil
symm (Permᴰ.cons e p) = Permᴰ.cons (sym e) (symm p)
symm (Permᴰ.swap e f) = Permᴰ.swap (sym f) (sym e)
symm (Permᴰ.trans p q) = Permᴰ.trans (symm q) (symm p)

found :
    (m n : Map SymbolId Symbol) (id : SymbolId) (s : Symbol)
    → IsKeyed n
    → Permᴰ m n
    → get m id ≡ some s
    → get n id ≡ some s
found m n id s keyed p h =
    (All-at (λ e. (get n e.0 ≡ some e.1) × (e.1.id ≡ e.0)) (id, s) n keyed
      (In-Permᴰ (id, s) p (get-In m id s h))).0

pub get-Permᴰ :
    (m n : Map SymbolId Symbol) (id : SymbolId)
    → IsKeyed m
    → IsKeyed n
    → Permᴰ m n
    → get m id ≡ get n id
get-Permᴰ m n id k l p = elim (Option-cases (get m id)) [
  | inr (s, there) ↦ there ∙ sym (found m n id s l p there)
  | inl absent ↦ elim (Option-cases (get n id)) [
    | inl gone ↦ absent ∙ sym gone
    | inr (s, there) ↦ found n m id s k (symm p) there ∙ sym there
  ]
]

key_of : {K V : Type 0} (m : Map K V) (v : V) → In v (values m) → (k : K) × In (k, v) m
key_of [] v i = absurd i
key_of ((k, w) ∷ m) v (inl e) = (k, inl (ap (λ u. (k, u)) e))
key_of ((k, w) ∷ m) v (inr i) = let (j, there) = key_of m v i in (j, inr there)

pub stored_as :
    (m : Map SymbolId Symbol) (id : SymbolId) (s : Symbol)
    → IsKeyed m
    → In s (values m)
    → s.id ≡ id
    → get m id ≡ some s
stored_as m id s keyed i e =
    let (k, there) = key_of m s i in
    let (found_at, own) =
      All-at (λ e. (get m e.0 ≡ some e.1) × (e.1.id ≡ e.0)) (k, s) m keyed there in
    ap (get m) (sym e ∙ own) ∙ found_at
