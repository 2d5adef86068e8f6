-- ===== src/RuleEval/Sweep.antt =====
-- rule_eval.rs: what a rule concludes, and the loop over the edges that the evaluators share. In
-- each of them an edge is passed over, counted as too weak to judge, or reported as a violation.
use open_invar.Prelude.{
  ℕ, ◌+◌, ◌≡◌, ◌↔◌, ◌⊎◌, Bool, true, false, List, [], ◌∷◌, ◌++◌, foldl, Text, arith, Ord, ord_by,
  pair_ord, list_ord, nat_ord, cmp, sort, IsSorted, sort-IsSorted, if◌then◌else◌, ◌∙◌, set_insert,
  In, Any, count_if, In-sort_by, In-set_insert,
}
use open_invar.RuleEval.Edges.{Edge}

pub data Verdict : Type 0 where
  satisfied violated inconclusive skipped : Verdict

pub record Violation : Type 0 where
  pub file : Text
  pub line : ℕ
  pub symbol : Text
  pub detail : Text

abbrev pub violation_key : Violation → Text × (ℕ × (Text × Text))
violation_key v = (v.file, (v.line, (v.symbol, v.detail)))

pub violation_key_inj : (a b : Violation) → violation_key a ≡ violation_key b → a ≡ b
violation_key_inj a b h = ground arith

instance abbrev pub violation_ord : Ord Violation
violation_ord = ord_by pair_ord violation_key violation_key_inj

pub record Uncertainty : Type 0 where
  pub unresolved_edges : ℕ
  pub files : List Text

abbrev pub certain : Uncertainty
certain = record { unresolved_edges = 0; files = [] }

-- One turn of the loop: `continue`, the two lines that count an unresolved edge, or a `push`.
pub data Judged : Type 0 where
  pass weak : Judged
  breach : Violation → Judged

abbrev pub is_weak : Judged → Bool
is_weak pass = false
is_weak weak = true
is_weak (breach v) = false

pub record Tally : Type 0 where
  pub violations : List Violation
  pub unresolved_edges : ℕ
  pub unresolved_files : List Text

abbrev pub no_tally : Tally
no_tally = record { violations = []; unresolved_edges = 0; unresolved_files = [] }

unfoldable pub note : Judged → Tally → Edge → Tally
note pass t e = t
note weak t e = record t {
  unresolved_edges = t.unresolved_edges + 1;
  unresolved_files = set_insert e.file t.unresolved_files;
}
note (breach v) t e = record t { violations = t.violations ++ v ∷ [] }

abbrev pub tally : (Edge → Judged) → Tally → Edge → Tally
tally judge t e = note (judge e) t e

unfoldable pub sweep : (Edge → Judged) → List Edge → List Violation × Uncertainty
unfolding note
sweep judge all_edges =
    let t = foldl (tally judge) no_tally all_edges in
    (
      sort t.violations,
      record { unresolved_edges = t.unresolved_edges; files = t.unresolved_files },
    )

In-append : {A : Type 0} (a : A) (xs ys : List A) → In a (xs ++ ys) ↔ (In a xs ⊎ In a ys)
In-append a [] ys = ground arith
In-append a (x ∷ xs) ys = ground (arith, In-append a xs ys)

In-note :
    (v : Violation) (j : Judged) (t : Tally) (e : Edge)
    → In v (note j t e).violations ↔ (In v t.violations ⊎ (j ≡ breach v))
unfolding note
In-note v pass t e = ground arith
In-note v weak t e = ground arith
In-note v (breach w) t e = ground (arith, In-append v t.violations (w ∷ []))

unresolved-note :
    (j : Judged) (t : Tally) (e : Edge)
    → (note j t e).unresolved_edges ≡ t.unresolved_edges + (if is_weak j then 1 else 0)
unfolding note
unresolved-note pass t e = omega arith
unresolved-note weak t e = omega arith
unresolved-note (breach v) t e = omega arith

In-files-note :
    (f : Text) (j : Judged) (t : Tally) (e : Edge)
    → In f (note j t e).unresolved_files ↔ (In f t.unresolved_files ⊎ (j ≡ weak) × (f ≡ e.file))
unfolding note
In-files-note f pass t e = ground arith
In-files-note f weak t e = ground (arith, In-set_insert f e.file t.unresolved_files)
In-files-note f (breach v) t e = ground arith

module _ (judge : Edge → Judged) where
  abbrev run : Tally → List Edge → Tally
  run t es = foldl (tally judge) t es

  run-violations :
      (v : Violation) (t : Tally) (es : List Edge)
      → In v (run t es).violations ↔ (In v t.violations ⊎ Any (λ e. judge e ≡ breach v) es)
  run-violations v t [] = ground arith
  run-violations v t (e ∷ es) =
      ground (arith, In-note v (judge e) t e, run-violations v (tally judge t e) es)

  run-unresolved :
      (t : Tally) (es : List Edge)
      → (run t es).unresolved_edges ≡ t.unresolved_edges + count_if (λ e. is_weak (judge e)) es
  run-unresolved t [] = omega arith
  run-unresolved t (e ∷ es) =
      omega (arith, unresolved-note (judge e) t e, run-unresolved (tally judge t e) es)

  run-files :
      (f : Text) (t : Tally) (es : List Edge)
      → In f (run t es).unresolved_files
        ↔ (In f t.unresolved_files ⊎ Any (λ e. (judge e ≡ weak) × (f ≡ e.file)) es)
  run-files f t [] = ground arith
  run-files f t (e ∷ es) =
      ground (arith, In-files-note f (judge e) t e, run-files f (tally judge t e) es)

  -- The violations are those of the edges judged so, and nothing else.
  pub In-sweep :
      (v : Violation) (es : List Edge) → In v (sweep judge es).0 ↔ Any (λ e. judge e ≡ breach v) es
  unfolding sweep
  In-sweep v es = ground (
    arith,
    run-violations v no_tally es,
    In-sort_by (cmp {A = Violation}) v (run no_tally es).violations,
  )

  pub sweep-IsSorted : (es : List Edge) → IsSorted (sweep judge es).0
  unfolding sweep
  sweep-IsSorted es = sort-IsSorted (run no_tally es).violations

  -- Every edge that is too weak to judge is counted once.
  pub unresolved-sweep :
      (es : List Edge) → (sweep judge es).1.unresolved_edges ≡ count_if (λ e. is_weak (judge e)) es
  unfolding sweep
  unresolved-sweep es = run-unresolved no_tally es ∙ omega arith

  -- The files are those of the edges that are too weak to judge.
  pub In-files-sweep :
      (f : Text) (es : List Edge)
      → In f (sweep judge es).1.files ↔ Any (λ e. (judge e ≡ weak) × (f ≡ e.file)) es
  unfolding sweep
  In-files-sweep f es = ground (arith, run-files f no_tally es)
