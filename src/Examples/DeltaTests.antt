-- ===== src/Examples/DeltaTests.antt =====
-- Comparisons of graphs at concrete inputs.
use open_invar.Prelude.{
  ℕ, ◌-◌, ◌≡◌, refl, Bool, ◌&&◌, leb, List, [], ◌∷◌, bytes, get, eqb, All, In, length, nat_ord,
  list_ord, pair_ord, contains, sort_by, tree_insert,
}
use open_invar.Ir.{SymbolId, calls, resolved, relationship_kind_ord, resolution_ord}
use open_invar.Graph.{InvarGraph}
use open_invar.Delta.{EdgeRef, Continuity}
use open_invar.Delta.Edges.{edge_identity, cancel_moved_edges}
use open_invar.Delta.Edges.Groups.{count}
use open_invar.Delta.Edges.Cancelled.{cancel_moved_edges-surplus}
use open_invar.Delta.Compute.{compute, collected}
use open_invar.Delta.Compute.Keyed.{IsKeyed}
use open_invar.Delta.Compute.Matching.{Apart, IsContinued}
use open_invar.Delta.Compute.Accounts.{compute-matching, compute-accounts, Fate, Origin}
use open_invar.Examples.Sample.{
  backend, sample, symbol_at, main_id, lib_id, misc_id, cli, core, misc,
}

-- The letters of ASCII.
abbrev is_letter : ℕ → Bool
is_letter c = leb 97 c && leb c 122

abbrev moved_id : SymbolId
moved_id = bytes "cli/start.rs::main::function"

-- `main` has moved to another file.
abbrev after : InvarGraph backend
after = record sample {
  symbols =
      (moved_id, symbol_at moved_id (bytes "main") (bytes "cli/start.rs"))
      ∷ (lib_id, symbol_at lib_id (bytes "run") core)
      ∷ (misc_id, symbol_at misc_id (bytes "x") misc)
      ∷ [];
}

pub sample-IsKeyed : IsKeyed sample.symbols
unfolding get eqb
sample-IsKeyed = ((refl, refl), ((refl, refl), ((refl, refl), tt)))

after-IsKeyed : IsKeyed after.symbols
unfolding get eqb
after-IsKeyed = ((refl, refl), ((refl, refl), ((refl, refl), tt)))

one_moved : length (compute is_letter backend sample after).continuities ≡ 1
unfolding compute sort_by collected tree_insert get eqb contains
one_moved = refl

compute-matching_example :
    let continuities = (compute is_letter backend sample after).continuities in
    All
      (λ (c : Continuity).
        IsContinued is_letter sample.symbols after.symbols c.before c.after c.how)
      continuities
    × (Apart (λ (c : Continuity). c.before.id) continuities
        × Apart (λ (c : Continuity). c.after.id) continuities)
compute-matching_example =
    compute-matching is_letter backend sample after sample-IsKeyed after-IsKeyed

compute-accounts_example :
    All (Fate is_letter backend sample after) sample.symbols
    × All (Origin is_letter backend sample after) after.symbols
compute-accounts_example =
    compute-accounts is_letter backend sample after sample-IsKeyed after-IsKeyed

abbrev call_at : ℕ → EdgeRef
call_at line = record {
  from = main_id;
  to = lib_id;
  kind = calls;
  file = cli;
  line = line;
  resolution = resolved;
}

-- One of three calls went, and the others moved down by a line.
abbrev before_calls : List EdgeRef
before_calls = call_at 3 ∷ call_at 5 ∷ call_at 7 ∷ []

abbrev after_calls : List EdgeRef
after_calls = call_at 4 ∷ call_at 6 ∷ []

cancel_moved_edges-surplus_example :
    let kept = cancel_moved_edges before_calls after_calls in
    let i = edge_identity (call_at 3) in
    ((count edge_identity i kept.0
        ≡ count edge_identity i before_calls - count edge_identity i after_calls)
      × (count edge_identity i kept.1
          ≡ count edge_identity i after_calls - count edge_identity i before_calls))
    × (All (λ e. In e before_calls) kept.0 × All (λ e. In e after_calls) kept.1)
cancel_moved_edges-surplus_example =
    cancel_moved_edges-surplus before_calls after_calls (edge_identity (call_at 3))
