-- ===== src/Examples/ListGraph/Swap.antt =====
-- The petgraph over lists removes edges as petgraph documents.
use open_invar.Prelude.{
  ℕ, zero, suc, ◌-◌, ◌≤◌, ◌<◌, ◌≡◌, ◌≢◌, refl, ap, ◌∙◌, Option, none, some, List, [], ◌∷◌, arith,
  length, get_elem?, ltb, Bool-cases, inl, inr, sym,
}
use open_invar.Petgraph.{RemovesBySwap}
use open_invar.Examples.ListGraph.{list_petgraph, ListGraph, Link, replace, drop_last, swap_remove}

module _ {A : Type 0} where
  length-replace : (xs : List A) (i : ℕ) (v : A) → length (replace xs i v) ≡ length xs
  length-replace [] i v = refl
  length-replace (x ∷ xs) zero v = refl
  length-replace (x ∷ xs) (suc i) v = ap suc (length-replace xs i v)

  length-drop_last : (x : A) (xs : List A) → length (drop_last (x ∷ xs)) ≡ length xs
  length-drop_last x [] = refl
  length-drop_last x (y ∷ ys) = ap suc (length-drop_last y ys)

  get_elem?-drop_last :
      (xs : List A) (j : ℕ) → suc j < length xs → get_elem? (drop_last xs) j ≡ get_elem? xs j
  get_elem?-drop_last [] j h = absurd (omega arith)
  get_elem?-drop_last (x ∷ []) j h = absurd (omega arith)
  get_elem?-drop_last (x ∷ y ∷ ys) zero h = refl
  get_elem?-drop_last (x ∷ y ∷ ys) (suc j) h = get_elem?-drop_last (y ∷ ys) j (omega arith)

  get_elem?-replace_self :
      (xs : List A) (i : ℕ) (v : A) → i < length xs → get_elem? (replace xs i v) i ≡ some v
  get_elem?-replace_self [] i v h = absurd (omega arith)
  get_elem?-replace_self (x ∷ xs) zero v h = refl
  get_elem?-replace_self (x ∷ xs) (suc i) v h = get_elem?-replace_self xs i v (omega arith)

  get_elem?-replace_ne :
      (xs : List A) (i j : ℕ) (v : A) → j ≢ i → get_elem? (replace xs i v) j ≡ get_elem? xs j
  get_elem?-replace_ne [] i j v h = refl
  get_elem?-replace_ne (x ∷ xs) zero zero v h = absurd (h refl)
  get_elem?-replace_ne (x ∷ xs) zero (suc j) v h = refl
  get_elem?-replace_ne (x ∷ xs) (suc i) zero v h = refl
  get_elem?-replace_ne (x ∷ xs) (suc i) (suc j) v h =
      get_elem?-replace_ne xs i j v (λ e. h (ap suc e))

  last_of : (x : A) (xs : List A) → (v : A) × (get_elem? (x ∷ xs) (length xs) ≡ some v)
  last_of x [] = (x, refl)
  last_of x (y ∷ ys) = last_of y ys

  length_positive : (n : ℕ) (xs : List A) → n < length xs → (x : A) × (r : List A) × (xs ≡ x ∷ r)
  length_positive n [] h = absurd (omega arith)
  length_positive n (x ∷ xs) h = (x, xs, refl)

  -- A removal inside a list puts the last element in the free place and shortens the list.
  swap_remove_inside :
      (xs : List A) (i : ℕ)
      → i < length xs
      → (v : A) × (get_elem? xs (length xs - 1) ≡ some v)
        × (swap_remove xs i ≡ drop_last (replace xs i v))
  swap_remove_inside [] i h = absurd (omega arith)
  swap_remove_inside (x ∷ xs) i h =
      let (v, e) = last_of x xs in
      let at : length (x ∷ xs) - 1 ≡ length xs = omega arith in
      let there : get_elem? (x ∷ xs) (length (x ∷ xs) - 1) ≡ some v = rw at e in
      (v, there, rw (there, swap_remove) (ground arith))

  length-drop_last-suc : (xs : List A) → 0 < length xs → suc (length (drop_last xs)) ≡ length xs
  length-drop_last-suc [] h = absurd (omega arith)
  length-drop_last-suc (x ∷ xs) h = ap suc (length-drop_last x xs)

  pub length-swap_remove :
      (xs : List A) (i : ℕ) → i < length xs → suc (length (swap_remove xs i)) ≡ length xs
  length-swap_remove xs i h =
      let (v, there, e) = swap_remove_inside xs i h in
      let same = length-replace xs i v in
      rw e (length-drop_last-suc (replace xs i v) (omega arith) ∙ same)

  pub swap_remove_outside : (xs : List A) (i : ℕ) → length xs ≤ i → swap_remove xs i ≡ xs
  swap_remove_outside xs i h = ground arith

  pub swap_remove_kept :
      (xs : List A) (i j : ℕ)
      → j ≢ i
      → suc j < length xs
      → i < length xs
      → get_elem? (swap_remove xs i) j ≡ get_elem? xs j
  swap_remove_kept xs i j ne h inside =
      let (v, there, e) = swap_remove_inside xs i inside in
      let same = length-replace xs i v in
      rw e (get_elem?-drop_last (replace xs i v) j (omega arith) ∙ get_elem?-replace_ne xs i j v ne)

  pub swap_remove_moved :
      (xs : List A) (i last : ℕ)
      → i < last
      → length xs ≡ suc last
      → get_elem? (swap_remove xs i) i ≡ get_elem? xs last
  swap_remove_moved xs i last before count =
      let (v, there, e) = swap_remove_inside xs i (omega arith) in
      let same = length-replace xs i v in
      let at : length xs - 1 ≡ last = omega arith in
      rw e (
        get_elem?-drop_last (replace xs i v) i (omega arith)
        ∙ get_elem?-replace_self xs i v (omega arith)
        ∙ sym (rw at at there))

weight_of : {E : Type 0} → Option (Link E) → Option E
weight_of o = elim o [ none ↦ none | some l ↦ some l.weight ]

module _ {N E : Type 0} where
  kept :
      (g : ListGraph N E) (i j : ℕ)
      → j ≢ i
      → suc j < length g.links
      → get_elem? (swap_remove g.links i) j ≡ get_elem? g.links j
  kept g i j ne h = elim (Bool-cases (ltb i (length g.links))) [
    | inl used ↦ swap_remove_kept g.links i j ne h (ground arith)
    | inr unused ↦ ap (λ xs. get_elem? xs j) (swap_remove_outside g.links i (ground arith))
  ]

  pub list_petgraph_removes : RemovesBySwap (list_petgraph N E)
  unfolding weight_of
  list_petgraph_removes = record {
    edge_indices_below = λ g. refl;
    remove_edge_count = λ g i h. length-swap_remove g.links i h;
    remove_edge_absent = λ g i h. λ k. record g { links = swap_remove_outside g.links i h k };
    remove_edge_kept = λ g i j ne h. ap weight_of (kept g i j ne h);
    remove_edge_moved =
        λ g i last before count. ap weight_of (swap_remove_moved g.links i last before count);
  }
