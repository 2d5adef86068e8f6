-- ===== src/Delta/Edges/Groups.antt =====
-- crates/openinvar-core/src/delta.rs: the edges of `cancel_moved_edges`, by what they are.
use open_invar.Prelude.{
  ℕ, ◌+◌, if◌then◌else◌, ◌≡◌, refl, subst, inl, inr, none, List, [], ◌∷◌, ◌++◌, length,
  length-append, count_if, All, All-map, All-at, All-append, All-tree_insert, Map, get, get-In,
  tree_insert, get-tree_insert, values, unwrap_or, IsStrict, Above, tree_insert-IsStrict, get-Above,
  eqb, eqb_iff, Ord, Option-cases, arith, nat_ord, list_ord, pair_ord,
}
use open_invar.Delta.Edges.{group, flatten}

module _ {K E : Type 0} ⦃o : Ord K⦄ (key : E → K) where
  -- How many elements have a key.
  abbrev pub count : K → List E → ℕ
  count i es = count_if (λ e. eqb (key e) i) es

  abbrev pub size : Map K (List E) → K → ℕ
  size m i = length (unwrap_or (get m i) [])

  -- The elements of a group have its key, and a property.
  abbrev pub IsOf : (E → Type 0) → K → List E → Type 0
  IsOf Q j es = All (λ e. (key e ≡ j) × Q e) es

  abbrev pub IsGrouped : (E → Type 0) → Map K (List E) → Type 0
  IsGrouped Q m = IsStrict m × All (λ (g : K × List E). IsOf Q g.0 g.1) m

  count-append : (i : K) (xs ys : List E) → count i (xs ++ ys) ≡ count i xs + count i ys
  count-append i [] ys = ground arith
  count-append i (x ∷ xs) ys = ground (arith, count-append i xs ys)

  -- One more element under a key.
  size_push :
      (m : Map K (List E)) (j i : K) (e : E)
      → size (tree_insert m j (unwrap_or (get m j) [] ++ e ∷ [])) i
        ≡ size m i + (if eqb j i then 1 else 0)
  size_push m j i e = ground (
    arith,
    get-tree_insert m j i (unwrap_or (get m j) [] ++ e ∷ []),
    eqb_iff j i,
    length-append (unwrap_or (get m j) []) (e ∷ []),
  )

  pub size-group :
      (m : Map K (List E)) (es : List E) (i : K) → size (group key m es) i ≡ size m i + count i es
  unfolding group
  size-group m [] i = ground arith
  size-group m (e ∷ es) i = ground (
    arith,
    size-group (tree_insert m (key e) (unwrap_or (get m (key e)) [] ++ e ∷ [])) es i,
    size_push m (key e) i e,
  )

  module _ (Q : E → Type 0) where
    count-IsOf :
        (i j : K) (es : List E) → IsOf Q j es → count i es ≡ (if eqb j i then length es else 0)
    count-IsOf i j [] h = ground arith
    count-IsOf i j (e ∷ es) h =
        ground (arith, h.0.0, count-IsOf i j es h.1, eqb_iff j i, eqb_iff (key e) i)

    pub count-flatten :
        (i : K) (m : Map K (List E)) → IsGrouped Q m → count i (flatten (values m)) ≡ size m i
    unfolding get
    count-flatten i [] h = refl
    count-flatten i ((j, es) ∷ m) h =
        let above : (j ≡ i) → get m i ≡ none =
          λ e. get-Above m i (subst (λ k. All (Above k) m) e h.0.0) in
        ground (
          arith,
          count-append i es (flatten (values m)),
          count-IsOf i j es h.1.0,
          count-flatten i m (h.0.1, h.1.1),
          above,
          eqb_iff j i,
        )

    pub All-flatten : (m : Map K (List E)) → IsGrouped Q m → All Q (flatten (values m))
    All-flatten [] h = tt
    All-flatten ((j, es) ∷ m) h =
        All-append Q es (flatten (values m)) (All-map _ _ es (λ e k. k.1) h.1.0)
          (All-flatten m (h.0.1, h.1.1))

    pub IsOf-get : (m : Map K (List E)) (i : K) → IsGrouped Q m → IsOf Q i (unwrap_or (get m i) [])
    IsOf-get m i h = elim (Option-cases (get m i)) [
      | inl missing ↦ rw missing tt
      | inr (es, there) ↦
          rw there (All-at (λ (g : K × List E). IsOf Q g.0 g.1) (i, es) m h.1 (get-In m i es there))
    ]

    pub tree_insert-IsGrouped :
        (m : Map K (List E)) (i : K) (es : List E)
        → IsGrouped Q m
        → IsOf Q i es
        → IsGrouped Q (tree_insert m i es)
    tree_insert-IsGrouped m i es h k =
        (tree_insert-IsStrict m i es h.0, All-tree_insert _ m i es h.1 k)

    pub group-IsGrouped :
        (m : Map K (List E)) (es : List E) → IsGrouped Q m → All Q es → IsGrouped Q (group key m es)
    unfolding group
    group-IsGrouped m [] h k = h
    group-IsGrouped m (e ∷ es) h k =
        let pushed = unwrap_or (get m (key e)) [] ++ e ∷ [] in
        group-IsGrouped (tree_insert m (key e) pushed) es
          (tree_insert-IsGrouped m (key e) pushed h (
            All-append _ (unwrap_or (get m (key e)) []) (e ∷ []) (IsOf-get m (key e) h)
              ((refl, k.0), tt)))
          k.1
