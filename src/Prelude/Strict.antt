-- ===== src/Prelude/Strict.antt =====
-- Maps in the strict order of their keys, which `BTreeMap` keeps.
use Prim.Native.Nat.{Ordering}
use mathlib.Core.Path.{◌≡◌, refl, sym, subst}
use mathlib.Core.Logic.{◌↔◌, ◌⊎◌, inl, inr}
use mathlib.Core.Option.{none, some}
use mathlib.Core.List.{[], ◌∷◌}
use native.Mathlib.Omega.{arith}
use open_invar.Prelude.Lists.{All, All-map, All-at, In}
use open_invar.Prelude.Order.{Ord, cmp, cmp_refl, eqb_iff}
use open_invar.Prelude.Assoc.{Map, get, tree_insert}

pub Ordering-cases : (c : Ordering) → (c ≡ Ordering.lt) ⊎ ((c ≡ Ordering.eq) ⊎ (c ≡ Ordering.gt))
Ordering-cases Ordering.lt = inl refl
Ordering-cases Ordering.eq = inr (inl refl)
Ordering-cases Ordering.gt = inr (inr refl)

module _ {K V : Type 0} ⦃o : Ord K⦄ where
  abbrev pub Above : K → K × V → Type 0
  Above k entry = cmp k entry.0 ≡ Ordering.lt

  abbrev pub IsStrict : Map K V → Type 0
  IsStrict [] = Unit
  IsStrict ((k, v) ∷ m) = All (Above k) m × IsStrict m

  pub All-tree_insert {ℓ} :
      (Q : K × V → Type ℓ) (m : Map K V) (k : K) (v : V)
      → All Q m
      → Q (k, v)
      → All Q (tree_insert m k v)
  unfolding tree_insert
  All-tree_insert Q [] k v h q = (q, tt)
  All-tree_insert Q ((j, w) ∷ m) k v h q = elim (Ordering-cases (cmp k j)) [
    | inl below ↦ rw (tree_insert, below) (q, h)
    | inr (inl same) ↦ rw (tree_insert, same) (q, h.1)
    | inr (inr above) ↦ rw (tree_insert, above) (h.0, All-tree_insert Q m k v h.1 q)
  ]

  pub tree_insert-IsStrict :
      (m : Map K V) (k : K) (v : V) → IsStrict m → IsStrict (tree_insert m k v)
  unfolding tree_insert
  tree_insert-IsStrict [] k v h = (tt, tt)
  tree_insert-IsStrict ((j, w) ∷ m) k v h = elim (Ordering-cases (cmp k j)) [
    | inl below ↦
        rw (tree_insert, below)
          ((below, All-map _ _ m (λ e above. o.cmp_trans k j e.0 below above) h.0), h)
    | inr (inl same) ↦
        rw (tree_insert, same) (subst (λ i. All (Above i) m) (sym (o.cmp-eq k j same)) h.0, h.1)
    | inr (inr above) ↦
        rw (tree_insert, above)
          (
            All-tree_insert (Above j) m k v h.0 (ground (arith, o.cmp_swap k j, above)),
            tree_insert-IsStrict m k v h.1,
          )
  ]

  pub get-Above : (m : Map K V) (k : K) → All (Above k) m → get m k ≡ none
  unfolding get
  get-Above [] k h = refl
  get-Above ((j, w) ∷ m) k h = ground (arith, eqb_iff j k, cmp_refl k, h.0, get-Above m k h.1)

  pub get_before :
      (m : Map K V) (k j : K) (v : V)
      → cmp k j ≡ Ordering.lt
      → IsStrict ((j, v) ∷ m)
      → get ((j, v) ∷ m) k ≡ none
  get_before m k j v below h =
      get-Above ((j, v) ∷ m) k
        (below, All-map _ _ m (λ e above. o.cmp_trans k j e.0 below above) h.0)

  get_later :
      (k : K) (v : V) (m rest : Map K V)
      → All (Above k) rest
      → All (λ e. get m e.0 ≡ some e.1) rest
      → All (λ e. get ((k, v) ∷ m) e.0 ≡ some e.1) rest
  unfolding get
  get_later k v m [] h found = tt
  get_later k v m ((j, w) ∷ rest) h found =
      (ground (arith, eqb_iff k j, cmp_refl k, h.0, found.0), get_later k v m rest h.1 found.1)

  pub get_entries : (m : Map K V) → IsStrict m → All (λ e. get m e.0 ≡ some e.1) m
  unfolding get
  get_entries [] h = tt
  get_entries ((j, w) ∷ m) h =
      (ground (arith, eqb_iff j j), get_later j w m m h.0 (get_entries m h.1))

  pub get-In : (m : Map K V) (k : K) (v : V) → get m k ≡ some v → In (k, v) m
  unfolding get
  get-In [] k v h = ground (arith, h)
  get-In ((j, w) ∷ m) k v h = ground (arith, eqb_iff j k, get-In m k v, h)

  pub In-get : (m : Map K V) (k : K) (v : V) → IsStrict m → In (k, v) m ↔ (get m k ≡ some v)
  unfolding get
  In-get m k v h =
      (λ i. All-at (λ e. get m e.0 ≡ some e.1) (k, v) m (get_entries m h) i, get-In m k v)
