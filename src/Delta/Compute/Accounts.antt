-- ===== src/Delta/Compute/Accounts.antt =====
-- crates/openinvar-core/src/delta.rs: what `compute` says of each symbol of the two graphs.
use open_invar.Prelude.{
  ℕ, Bool, true, not, ◌≡◌, sym, ap, ◌∙◌, subst, ◌⊎◌, inl, inr, ◌↔◌, none, some, List, All, All-map,
  All-at, All-of_In, Any, Any-sort_by, All-sort_by, In, In-retain, In-sort_by, retain, Map, Text,
  get, get-In, contains, cmp, eqb, sort, sort_by, Ordering, Bool-cases, Option-cases, arith,
  nat_ord, list_ord, pair_ord, option_ord, eqb_iff,
}
use open_invar.Ir.{SymbolId, Symbol}
use open_invar.Graph.{Backend, InvarGraph}
use open_invar.Delta.{GraphDelta, Continuity, continuation_ord}
use open_invar.Delta.Compute.{
  symbols_by_id, missing_from, Pairs, no_pairs, pair_all, candidates, compute,
}
use open_invar.Delta.Compute.Keyed.{
  IsKeyed, get-symbols_by_id, keyed_at, All-missing_from, missing_from-In, changed_signatures-In,
  symbols_by_id-entries,
}
use open_invar.Delta.Compute.Matching.{
  Apart, sort_by-Apart, IsContinued, IsFair, IsMatching, pair_all-IsMatching, candidates-IsFair,
}

-- The symbols of one graph that the other lacks.
lacking :
    (here there : Map SymbolId Symbol)
    → IsKeyed here
    → All
        (λ (s : Symbol).
          (get (symbols_by_id here) s.id ≡ some s) × (get (symbols_by_id there) s.id ≡ none))
        (missing_from (symbols_by_id there) (symbols_by_id here))
lacking here there keyed = All-missing_from _ (symbols_by_id there) (symbols_by_id here) (
    All-map _ _ (symbols_by_id here)
      (λ e found lacks.
        let own = keyed_at here e.0 e.1 keyed (sym (get-symbols_by_id here e.0 keyed) ∙ found) in
        (
          subst (λ id. get (symbols_by_id here) id ≡ some e.1) (sym own) found,
          subst (λ id. get (symbols_by_id there) id ≡ none) (sym own) lacks,
        ))
      (symbols_by_id-entries here))

module _ (is_alphanumeric : ℕ → Bool) (before after : Map SymbolId Symbol)
    (keyed_before : IsKeyed before) (keyed_after : IsKeyed after) where
  abbrev sb : Map SymbolId Symbol
  sb = symbols_by_id before

  abbrev sa : Map SymbolId Symbol
  sa = symbols_by_id after

  abbrev pairs : Pairs
  pairs =
      pair_all sb sa no_pairs
        (sort (candidates is_alphanumeric (missing_from sa sb) (missing_from sb sa)))

  pairs-IsMatching : IsMatching is_alphanumeric sb sa pairs
  unfolding contains
  pairs-IsMatching =
      pair_all-IsMatching is_alphanumeric sb sa no_pairs _
        ((All-sort_by (IsFair is_alphanumeric sb sa) cmp _).1 (
          candidates-IsFair is_alphanumeric sb sa (missing_from sa sb) (missing_from sb sa)
            (lacking before after keyed_before) (lacking after before keyed_after)))
        (record {
          befores = λ id. ground arith;
          afters = λ id. ground arith;
          each = tt;
          apart_before = tt;
          apart_after = tt;
        })

  as_stored :
      (c : Continuity)
      → IsContinued is_alphanumeric sb sa c.before c.after c.how
      → IsContinued is_alphanumeric before after c.before c.after c.how
  as_stored c h = record {
    was = sym (get-symbols_by_id before c.before.id keyed_before) ∙ h.was;
    gone = sym (get-symbols_by_id after c.before.id keyed_after) ∙ h.gone;
    is = sym (get-symbols_by_id after c.after.id keyed_after) ∙ h.is;
    fresh = sym (get-symbols_by_id before c.after.id keyed_before) ∙ h.fresh;
    evidence = h.evidence;
  }

-- A symbol is either left over or in a pair, and never both.
left_or_paired :
    (only : List Symbol) (paired : List Text) (cs : List Continuity) (key : Continuity → Text)
    (c : Symbol → Symbol → Ordering) (d : Continuity → Continuity → Ordering) (id : Text)
    (s : Symbol)
    → s.id ≡ id
    → In s only
    → (contains paired id ≡ true) ↔ Any (λ k. key k ≡ id) cs
    → let left = sort_by c (retain (λ (s : Symbol). not (contains paired s.id)) only) in
      (In s left × (¬ Any (λ k. key k ≡ id) (sort_by d cs)))
      ⊎ (Any (λ k. key k ≡ id) (sort_by d cs) × (¬ In s left))
left_or_paired only paired cs key c d id s own i agrees =
    let free = λ (s : Symbol). not (contains paired s.id) in
    let same : contains paired s.id ≡ contains paired id = ap (contains paired) own in
    ground (
      arith,
      In-sort_by c s (retain free only),
      In-retain free s only,
      Any-sort_by (λ k. key k ≡ id) d cs,
      agrees,
      i,
      same,
    )

module _ (is_alphanumeric : ℕ → Bool) (P : Backend) (before after : InvarGraph P) where
  abbrev pub delta : GraphDelta
  delta = compute is_alphanumeric P before after

  -- What became of a symbol of the first graph.
  abbrev pub Fate : SymbolId × Symbol → Type 0
  Fate (id, s) =
      ((t : Symbol) × ((get after.symbols id ≡ some t)
          × ((t.signature ≡ s.signature)
              ⊎ In (record { before = s; after = t }) delta.signature_changes)))
      ⊎ ((get after.symbols id ≡ none)
          × ((In s delta.removed_symbols
                × (¬ Any (λ (c : Continuity). c.before.id ≡ id) delta.continuities))
              ⊎ (Any (λ (c : Continuity). c.before.id ≡ id) delta.continuities
                  × (¬ In s delta.removed_symbols))))

  -- Where a symbol of the second graph came from.
  abbrev pub Origin : SymbolId × Symbol → Type 0
  Origin (id, t) =
      ((s : Symbol) × (get before.symbols id ≡ some s))
      ⊎ ((get before.symbols id ≡ none)
          × ((In t delta.added_symbols
                × (¬ Any (λ (c : Continuity). c.after.id ≡ id) delta.continuities))
              ⊎ (Any (λ (c : Continuity). c.after.id ≡ id) delta.continuities
                  × (¬ In t delta.added_symbols))))

  module _ (keyed_before : IsKeyed before.symbols) (keyed_after : IsKeyed after.symbols) where
    abbrev matching :
        IsMatching is_alphanumeric
          (symbols_by_id before.symbols)
          (symbols_by_id after.symbols)
          (pairs is_alphanumeric before.symbols after.symbols keyed_before keyed_after)
    matching =
        pairs-IsMatching is_alphanumeric before.symbols after.symbols keyed_before keyed_after

    -- Of two graphs that hold each symbol once, under its id: each continuity joins a symbol that only the
    -- first graph has with one that only the second has, on the evidence that `continuation_between` asks
    -- for, and no symbol of either graph is in two continuities.
    pub compute-matching :
        All
          (λ (c : Continuity).
            IsContinued is_alphanumeric before.symbols after.symbols c.before c.after c.how)
          delta.continuities
        × (Apart (λ (c : Continuity). c.before.id) delta.continuities
            × Apart (λ (c : Continuity). c.after.id) delta.continuities)
    unfolding compute
    compute-matching =
        let m = matching in
        (
          (All-sort_by _ _ _).1 (
              All-map _ _ _
                (as_stored is_alphanumeric before.symbols after.symbols keyed_before keyed_after)
                m.each),
          (sort_by-Apart _ _ _ m.apart_before, sort_by-Apart _ _ _ m.apart_after),
        )

    signature_told :
        (id : SymbolId) (s t : Symbol)
        → In (id, s) (symbols_by_id before.symbols)
        → get (symbols_by_id after.symbols) id ≡ some t
        → (t.signature ≡ s.signature)
          ⊎ In (record { before = s; after = t }) delta.signature_changes
    unfolding compute
    signature_told id s t there has = elim (Bool-cases (eqb t.signature s.signature)) [
      | inl same ↦ inl ((eqb_iff t.signature s.signature).0 same)
      | inr differ ↦ inr (
          (In-sort_by _ _ _).1 (
            changed_signatures-In (symbols_by_id after.symbols) (symbols_by_id before.symbols) id s
              t there has
              (λ same. ground (arith, (eqb_iff t.signature s.signature).1 same, differ))))
    ]

    fate : (e : SymbolId × Symbol) → In e before.symbols → Fate e
    unfolding compute
    fate (id, s) i =
        let sb = symbols_by_id before.symbols in
        let sa = symbols_by_id after.symbols in
        let (stored, own) = All-at _ (id, s) before.symbols keyed_before i in
        let there : In (id, s) sb =
          get-In sb id s (get-symbols_by_id before.symbols id keyed_before ∙ stored) in
        elim (Option-cases (get after.symbols id)) [
          | inr (t, has) ↦ inl (
            t,
            (
              has,
              signature_told id s t there (get-symbols_by_id after.symbols id keyed_after ∙ has),
            ),
          )
          | inl lacks ↦ inr (
            lacks,
            left_or_paired _ _ _ (λ (c : Continuity). c.before.id) _ _ id s own
                (missing_from-In sa sb id s there
                  (get-symbols_by_id after.symbols id keyed_after ∙ lacks))
                (matching.befores id),
          )
        ]

    origin : (e : SymbolId × Symbol) → In e after.symbols → Origin e
    unfolding compute
    origin (id, t) i =
        let sb = symbols_by_id before.symbols in
        let sa = symbols_by_id after.symbols in
        let (stored, own) = All-at _ (id, t) after.symbols keyed_after i in
        let there : In (id, t) sa =
          get-In sa id t (get-symbols_by_id after.symbols id keyed_after ∙ stored) in
        elim (Option-cases (get before.symbols id)) [
          | inr (s, has) ↦ inl (s, has)
          | inl lacks ↦ inr (
            lacks,
            left_or_paired _ _ _ (λ (c : Continuity). c.after.id) _ _ id t own
                (missing_from-In sb sa id t there
                  (get-symbols_by_id before.symbols id keyed_before ∙ lacks))
                (matching.afters id),
          )
        ]

    -- Of two graphs that hold each symbol once, under its id: a symbol of the first is in the second with
    -- the same signature, or with another one and listed as a change, or it is gone and then either removed
    -- or in a continuity, not both. A symbol of the second was in the first, or it is new and then either
    -- added or in a continuity, not both.
    pub compute-accounts : All Fate before.symbols × All Origin after.symbols
    compute-accounts = (All-of_In Fate before.symbols fate, All-of_In Origin after.symbols origin)
