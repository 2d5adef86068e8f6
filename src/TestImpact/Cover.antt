-- ===== src/TestImpact/Cover.antt =====
-- crates/openinvar-core/src/test_impact.rs: what a selection of tests promises about the symbols that changed.
use open_invar.Prelude.{
  ℕ, ltb, true, not, if◌then◌else◌, ◌≡◌, refl, sym, subst, ◌⊎◌, inl, inr, ◌↔◌, List, [], ◌∷◌, ◌++◌,
  All, All-sort_by, Any, Any-sort_by, In, In-retain, retain, any, count_if, length, contains,
  contains_iff, set_insert, In-set_insert, cmp, eqb, eqb_iff, sort, sort_by, insert_by, ◌≢◌,
  Bool-cases, List-cases, arith, nat_ord, list_ord, pair_ord, bool_ord,
}
use open_invar.Ir.{SymbolId, Resolution}
use open_invar.Graph.{Backend, InvarGraph}
use open_invar.Query.Rows.{structural_files}
use open_invar.TestImpact.{
  CoveringTest, covering_test_ord, Gap, structural_regions, uncovered_symbols, structural_evidence,
  gap_ord, TestSelection, is_trustworthy, extend, ByTest, reverse_reachable, with_tests,
  covering_test, sort_out, covered_by, gaps_of, select, select_some,
}

pub In-extend :
    (id : SymbolId) (set more : List SymbolId) → In id (extend set more) ↔ (In id set ⊎ In id more)
unfolding extend
In-extend id set [] = ground arith
In-extend id set (m ∷ more) =
    ground (arith, In-extend id (set_insert m set) more, In-set_insert id m set)

-- A test that reaches a symbol.
abbrev pub Covers : SymbolId → CoveringTest → Type 0
Covers id t = In id t.covers

module _ (P : Backend) (g : InvarGraph P) where
  In-covered_by :
      (id : SymbolId) (covered : List SymbolId) (ts : List CoveringTest)
      → In id (covered_by P g covered ts) ↔ (In id covered ⊎ Any (Covers id) ts)
  unfolding covered_by
  In-covered_by id covered [] = ground arith
  In-covered_by id covered (t ∷ ts) =
      ground (arith, In-covered_by id (extend covered t.covers) ts, In-extend id covered t.covers)

  any_symbol :
      (id : SymbolId) (ts : List CoveringTest)
      → (any (λ (t : CoveringTest). eqb t.symbol id) ts ≡ true)
        ↔ Any (λ (t : CoveringTest). t.symbol ≡ id) ts
  any_symbol id [] = ground arith
  any_symbol id (t ∷ ts) = ground (arith, any_symbol id ts, eqb_iff t.symbol id)

  -- A test goes with the modified ones exactly when it is a symbol that changed.
  sort_out-apart :
      (changed : List SymbolId) (m : ByTest)
      → All (λ (t : CoveringTest). ¬ In t.symbol changed) (sort_out P g changed m).0
        × All (λ (t : CoveringTest). In t.symbol changed) (sort_out P g changed m).1
  unfolding sort_out covering_test
  sort_out-apart changed [] = (tt, tt)
  sort_out-apart changed ((symbol, (covers, gate_safe)) ∷ m) =
      let rest = sort_out-apart changed m in
      elim (Bool-cases (contains changed symbol)) [
        | inl is_changed ↦
            rw (sort_out, is_changed) (rest.0, ((contains_iff changed symbol).0 is_changed, rest.1))
        | inr kept ↦
            rw (sort_out, kept)
              ((λ i. ground (arith, (contains_iff changed symbol).1 i, kept), rest.0), rest.1)
      ]

  no_weak :
      (ts : List CoveringTest)
      → (count_if (λ (t : CoveringTest). not t.gate_safe) ts ≡ 0)
        ↔ All (λ (t : CoveringTest). t.gate_safe ≡ true) ts
  no_weak [] = ground arith
  no_weak (t ∷ ts) = ground (arith, no_weak ts)

  insert_some : (x : Gap) (xs : List Gap) → insert_by cmp x xs ≢ []
  unfolding insert_by
  insert_some x [] = ground arith
  insert_some x (y ∷ ys) = ground arith

  sort_none : (xs : List Gap) → (sort xs ≡ []) ↔ (xs ≡ [])
  unfolding sort_by
  sort_none [] = ground arith
  sort_none (x ∷ xs) = (λ h. absurd (insert_some x (sort xs) h), λ h. ground (arith, h))

  no_gaps : (a b c : ℕ) → (gaps_of P g a b c ≡ []) ↔ ((a ≡ 0) × ((b ≡ 0) × (c ≡ 0)))
  unfolding gaps_of
  no_gaps a b c =
      let gaps : List Gap =
        (if ltb 0 a then structural_regions a ∷ [] else [])
        ++ (if ltb 0 b then uncovered_symbols b ∷ [] else [])
        ++ (if ltb 0 c then structural_evidence c ∷ [] else []) in
      let raw : (gaps ≡ []) ↔ ((a ≡ 0) × ((b ≡ 0) × (c ≡ 0))) = ground arith in
      (λ h. raw.0 ((sort_none gaps).0 h), λ h. (sort_none gaps).1 (raw.1 h))

  trusted_iff : (s : TestSelection) → (is_trustworthy s ≡ true) ↔ (s.gaps ≡ [])
  unfolding is_trustworthy
  trusted_iff s = elim (List-cases s.gaps) [
    | inl none_left ↦ rw (is_trustworthy, none_left) (λ _. refl, λ _. refl)
    | inr (x, xs, there) ↦ rw (is_trustworthy, there) (ground arith)
  ]

  length_none : {A : Type 0} (xs : List A) → (length xs ≡ 0) ↔ (xs ≡ [])
  length_none [] = ground arith
  length_none (x ∷ xs) = ground arith

  -- No selected test reaches the symbol, and it is no modified test.
  abbrev pub IsUncovered : TestSelection → SymbolId → Type 0
  IsUncovered s id =
      (¬ Any (Covers id) s.tests) × (¬ Any (λ (t : CoveringTest). t.symbol ≡ id) s.modified_tests)

  -- Nothing that could be missing from the selection is.
  abbrev pub IsComplete : TestSelection → Type 0
  IsComplete s =
      (structural_files P g ≡ [])
      × ((s.uncovered ≡ []) × All (λ (t : CoveringTest). t.gate_safe ≡ true) s.tests)

  abbrev pub IsHonest : List SymbolId → SymbolId → TestSelection → Type 0
  IsHonest changed id s =
      (All (λ (t : CoveringTest). ¬ In t.symbol changed) s.tests
        × All (λ (t : CoveringTest). In t.symbol changed) s.modified_tests)
      × ((In id s.uncovered ↔ (In id changed × IsUncovered s id))
          × ((is_trustworthy s ≡ true) ↔ IsComplete s))

  module _ (changed : List SymbolId) (depth : ℕ) (min_resolution : Resolution) where
    abbrev found : List CoveringTest × List CoveringTest
    found = sort_out P g changed (
        with_tests P g (reverse_reachable P g min_resolution changed depth) []
          (P.edge_references g.graph))

    abbrev open_ids : List SymbolId
    open_ids = retain (λ id. not (contains (covered_by P g [] found.0) id)) changed

    uncovered_iff :
        (id : SymbolId)
        → let s = select_some P g changed depth min_resolution in
          In id s.uncovered ↔ (In id changed × IsUncovered s id)
    unfolding select_some
    uncovered_iff id = ground (
      arith,
      In-retain (λ id. not (any (λ (t : CoveringTest). eqb t.symbol id) found.1)) id open_ids,
      In-retain (λ id. not (contains (covered_by P g [] found.0) id)) id changed,
      contains_iff (covered_by P g [] found.0) id,
      In-covered_by id [] found.0,
      any_symbol id found.1,
      Any-sort_by (Covers id) cmp found.0,
      Any-sort_by (λ (t : CoveringTest). t.symbol ≡ id) cmp found.1,
    )

    trusted_when :
        let s = select_some P g changed depth min_resolution in
        (is_trustworthy s ≡ true) ↔ IsComplete s
    unfolding select_some
    trusted_when =
        let s = select_some P g changed depth min_resolution in
        let weak = count_if (λ (t : CoveringTest). not t.gate_safe) found.0 in
        let safe = λ (t : CoveringTest). t.gate_safe ≡ true in
        let (trusted, trusted') = trusted_iff s in
        let (gapless, gapless') =
          no_gaps (length (structural_files P g)) (length s.uncovered) weak in
        (
          λ h.
              let (a, (b, c)) = gapless (trusted h) in
              (
                (length_none (structural_files P g)).0 a,
                (
                  (length_none s.uncovered).0 b,
                  (All-sort_by safe cmp found.0).1 ((no_weak found.0).0 c),
                ),
              ),
          λ h. trusted' (
              gapless' (
                (length_none (structural_files P g)).1 h.0,
                (
                  (length_none s.uncovered).1 h.1.0,
                  (no_weak found.0).1 ((All-sort_by safe cmp found.0).0 h.1.1),
                ),
              )),
        )

    pub some_selected :
        changed ≢ []
        → select P g changed depth min_resolution ≡ select_some P g changed depth min_resolution
    unfolding select
    some_selected some_change = elim (List-cases changed) [
      | inl empty ↦ absurd (some_change empty)
      | inr (x, xs, there) ↦ rw there refl
    ]

    -- The tests that are selected for a change of some symbols did not change themselves, and the modified
    -- ones did. A symbol is uncovered exactly when it changed, no selected test reaches it and it is no
    -- modified test. The selection is trustworthy exactly when no file was analyzed within-file only, no
    -- symbol is uncovered, and every selected test rests on resolved edges.
    pub select-IsHonest :
        (id : SymbolId)
        → changed ≢ []
        → IsHonest changed id (select P g changed depth min_resolution)
    unfolding select_some
    select-IsHonest id some_change =
        let (kept, modified) = sort_out-apart changed (
          with_tests P g (reverse_reachable P g min_resolution changed depth) []
            (P.edge_references g.graph)) in
        subst (IsHonest changed id) (sym (some_selected some_change)) (
          ((All-sort_by _ cmp found.0).1 kept, (All-sort_by _ cmp found.1).1 modified),
          (uncovered_iff id, trusted_when),
        )
