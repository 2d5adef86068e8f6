-- ===== src/Delta/Edges/Cancelled.antt =====
-- crates/openinvar-core/src/delta.rs: `cancel_moved_edges`, which keeps the surplus of each identity.
use open_invar.Prelude.{
  ℕ, zero, suc, ◌+◌, ◌-◌, min, Bool, ◌≡◌, refl, ◌∙◌, subst, inl, inr, none, List, [], ◌∷◌, length,
  count_if, drop, All, All-of_In, All-sort_by, In, Map, get, tree_insert, get-tree_insert, values,
  unwrap_or, IsStrict, Above, get-Above, eqb_iff, sort_by, insert_by, cmp, Ord, Ordering,
  Option-cases, arith, nat_ord, list_ord, pair_ord,
}
use open_invar.Ir.{relationship_kind_ord, resolution_ord}
use open_invar.Delta.{EdgeRef, edge_ref_ord}
use open_invar.Delta.Edges.{
  EdgeIdentity, edge_identity, group, cancel_groups, flatten, cancel_moved_edges,
}
use open_invar.Delta.Edges.Groups.{
  count, size, IsOf, IsGrouped, count-flatten, All-flatten, group-IsGrouped, size-group, IsOf-get,
  tree_insert-IsGrouped,
}

length-drop : {A : Type 0} (n : ℕ) (xs : List A) → length (drop n xs) ≡ length xs - n
length-drop zero xs = ground arith
length-drop (suc n) [] = ground arith
length-drop (suc n) (x ∷ xs) = ground (arith, length-drop n xs)

All-drop {κ} : {A : Type 0} (Q : A → Type κ) (n : ℕ) (xs : List A) → All Q xs → All Q (drop n xs)
All-drop Q zero xs h = h
All-drop Q (suc n) [] h = h
All-drop Q (suc n) (x ∷ xs) h = All-drop Q n xs h.1

module _ {A : Type 0} (test : A → Bool) (c : A → A → Ordering) where
  count_if-insert :
      (x : A) (xs : List A) → count_if test (insert_by c x xs) ≡ count_if test (x ∷ xs)
  unfolding insert_by
  count_if-insert x [] = refl
  count_if-insert x (y ∷ ys) = ground (arith, count_if-insert x ys)

  count_if-sort : (xs : List A) → count_if test (sort_by c xs) ≡ count_if test xs
  unfolding sort_by
  count_if-sort [] = refl
  count_if-sort (x ∷ xs) = ground (arith, count_if-insert x (sort_by c xs), count_if-sort xs)

module _ {K E : Type 0} ⦃o : Ord K⦄ (key : E → K) (Q R : E → Type 0) where
  -- The groups of added edges keep their keys.
  cancelled_keys :
      (k : K) (removed added : Map K (List E))
      → All (Above k) added
      → All (Above k) (cancel_groups removed added).1
  unfolding cancel_groups
  cancelled_keys k removed [] h = tt
  cancelled_keys k removed ((j, ag) ∷ added) h = elim (Option-cases (get removed j)) [
    | inl missing ↦ rw (cancel_groups, missing) (h.0, cancelled_keys k removed added h.1)
    | inr (rg, there) ↦
        rw (cancel_groups, there)
          (
            h.0,
            cancelled_keys k (tree_insert removed j (drop (min (length ag) (length rg)) rg)) added
                h.1,
          )
  ]

  cancelled-IsGrouped :
      (removed added : Map K (List E))
      → IsGrouped key Q removed
      → IsGrouped key R added
      → IsGrouped key Q (cancel_groups removed added).0
        × IsGrouped key R (cancel_groups removed added).1
  unfolding cancel_groups
  cancelled-IsGrouped removed [] r a = (r, a)
  cancelled-IsGrouped removed ((j, ag) ∷ added) r a = elim (Option-cases (get removed j)) [
    | inl missing ↦
        rw (cancel_groups, missing)
          (let (r', a') = cancelled-IsGrouped removed added r (a.0.1, a.1.1) in
            (r', ((cancelled_keys j removed added a.0.0, a'.0), (a.1.0, a'.1))))
    | inr (rg, there) ↦
        rw (cancel_groups, there)
          (let n = min (length ag) (length rg) in
            let of_j : IsOf key Q j rg =
              subst (λ o. IsOf key Q j (unwrap_or o [])) there (IsOf-get key Q removed j r) in
            let removed' = tree_insert removed j (drop n rg) in
            let (r', a') =
              cancelled-IsGrouped removed' added
                (tree_insert-IsGrouped key Q removed j (drop n rg) r (All-drop _ n rg of_j))
                (a.0.1, a.1.1) in
            (r', ((cancelled_keys j removed' added a.0.0, a'.0), (All-drop _ n ag a.1.0, a'.1))))
  ]

  cancelled_sizes :
      (removed added : Map K (List E)) (i : K)
      → IsStrict added
      → (size key (cancel_groups removed added).0 i ≡ size key removed i - size key added i)
        × (size key (cancel_groups removed added).1 i ≡ size key added i - size key removed i)
  unfolding cancel_groups get
  cancelled_sizes removed [] i h = (ground arith, ground arith)
  cancelled_sizes removed ((j, ag) ∷ added) i h =
      let above : (j ≡ i) → get added i ≡ none =
        λ e. get-Above added i (subst (λ k. All (Above k) added) e h.0) in
      elim (Option-cases (get removed j)) [
        | inl missing ↦
            rw (cancel_groups, missing)
              (let ih = cancelled_sizes removed added i h.1 in
                (
                  ground (arith, ih.0, above, eqb_iff j i, missing),
                  ground (arith, ih.1, above, eqb_iff j i, missing),
                ))
        | inr (rg, there) ↦
            rw (cancel_groups, there)
              (let n = min (length ag) (length rg) in
                let ih = cancelled_sizes (tree_insert removed j (drop n rg)) added i h.1 in
                let at_i = get-tree_insert removed j i (drop n rg) in
                (
                  ground (arith, ih.0, above, eqb_iff j i, there, at_i, length-drop n rg),
                  ground (
                    arith,
                    ih.1,
                    above,
                    eqb_iff j i,
                    there,
                    at_i,
                    length-drop n rg,
                    length-drop n ag,
                  ),
                ))
      ]

surplus : (a b c d n m : ℕ) → a ≡ b → b ≡ c - d → c ≡ 0 + n → d ≡ 0 + m → a ≡ n - m
surplus a b c d n m h k l e = omega arith

-- Of the edges of one identity that were removed, as many more stay as were removed than added, and of those
-- that were added, as many as were added than removed; no edge stays that was not there.
pub cancel_moved_edges-surplus :
    (removed added : List EdgeRef) (i : EdgeIdentity)
    → let kept = cancel_moved_edges removed added in
      ((count edge_identity i kept.0 ≡ count edge_identity i removed - count edge_identity i added)
        × (count edge_identity i kept.1
            ≡ count edge_identity i added - count edge_identity i removed))
      × (All (λ e. In e removed) kept.0 × All (λ e. In e added) kept.1)
unfolding cancel_moved_edges get
cancel_moved_edges-surplus removed added i =
    let Q = λ (e : EdgeRef). In e removed in
    let R = λ (e : EdgeRef). In e added in
    let r = group edge_identity [] removed in
    let a = group edge_identity [] added in
    let r_grouped =
      group-IsGrouped edge_identity Q [] removed (tt, tt) (All-of_In Q removed (λ e m. m)) in
    let a_grouped =
      group-IsGrouped edge_identity R [] added (tt, tt) (All-of_In R added (λ e m. m)) in
    let (r_kept, a_kept) = cancelled-IsGrouped edge_identity Q R r a r_grouped a_grouped in
    let sizes = cancelled_sizes edge_identity Q R r a i a_grouped.0 in
    let kept = cancel_groups r a in
    let r_size = size-group edge_identity [] removed i in
    let a_size = size-group edge_identity [] added i in
    (
      (
        surplus _ _ _ _ _ _
            (count_if-sort _ cmp (flatten (values kept.0))
              ∙ count-flatten edge_identity Q i kept.0 r_kept)
            sizes.0 r_size a_size,
        surplus _ _ _ _ _ _
            (count_if-sort _ cmp (flatten (values kept.1))
              ∙ count-flatten edge_identity R i kept.1 a_kept)
            sizes.1 a_size r_size,
      ),
      (
        (All-sort_by Q cmp (flatten (values kept.0))).1 (All-flatten edge_identity Q kept.0 r_kept),
        (All-sort_by R cmp (flatten (values kept.1))).1 (All-flatten edge_identity R kept.1 a_kept),
      ),
    )
