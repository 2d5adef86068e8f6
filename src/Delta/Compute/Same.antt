-- ===== src/Delta/Compute/Same.antt =====
-- crates/openinvar-core/src/delta.rs: the comparison of a graph with itself.
use open_invar.Prelude.{
  ℕ, Bool, true, false, not, ◌≡◌, refl, List, [], ◌∷◌, All, All-of_In, retain, contains,
  contains_iff, sort_by, nat_ord, list_ord, arith,
}
use open_invar.Graph.{Backend, InvarGraph}
use open_invar.Delta.{EdgeRef, edge_ref_ord, is_empty}
use open_invar.Delta.Edges.{edges, cancel_moved_edges, group, cancel_groups}
use open_invar.Delta.Compute.{symbols_by_id, candidates, pair_all, compute}
use open_invar.Delta.Compute.Keyed.{
  symbols_by_id-entries, missing_from_none, changed_signatures_none,
}

retain_none :
    {A : Type 0} (test : A → Bool) (xs : List A)
    → All (λ x. test x ≡ false) xs
    → retain test xs ≡ []
retain_none test [] h = refl
retain_none test (x ∷ xs) h = rw h.0 (retain_none test xs h.1)

none_new : (es : List EdgeRef) → retain (λ (e : EdgeRef). not (contains es e)) es ≡ []
none_new es = retain_none _ es (All-of_In _ es (λ e i. ground (arith, contains_iff es e, i)))

-- A graph compared with itself shows no change.
pub compute-same :
    (is_alphanumeric : ℕ → Bool) (P : Backend) (g : InvarGraph P)
    → is_empty (compute is_alphanumeric P g g) ≡ true
unfolding compute candidates pair_all cancel_moved_edges group cancel_groups is_empty sort_by
compute-same is_alphanumeric P g =
    let m = symbols_by_id g.symbols in
    rw
      (
        missing_from_none m m (symbols_by_id-entries g.symbols),
        changed_signatures_none m m (symbols_by_id-entries g.symbols),
        none_new (edges P g),
      )
      refl
