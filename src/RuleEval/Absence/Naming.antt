-- ===== src/RuleEval/Absence/Naming.antt =====
-- rule_eval.rs: when `naming-convention` holds.
use open_invar.Prelude.{
  ℕ, ◌≡◌, ◌≢◌, refl, sym, ◌↔◌, true, false, Option, none, some, List, Text, bytes, arith, In, Any,
  Any-of_In, sort, values, filter_map, eqb_iff, list_ord, nat_ord,
}
use open_invar.Ir.{Symbol, Language, symbol_kind_ord}
use open_invar.Graph.{Backend, InvarGraph}
use open_invar.Delta.{GraphDelta}
use open_invar.SymbolId.{kind_suffix, module_symbol}
use open_invar.Rules.{Rule, naming_convention}
use open_invar.RuleEval.Edges.{Glob, Edge, compile}
use open_invar.RuleEval.Sweep.{satisfied, violated, Violation, violation_ord}
use open_invar.RuleEval.Absence.{
  Reached, unreached, absence, orphan_turn, orphan_breach, is_file_symbol, naming_breach,
  only_allows, test_turn, test_breach, narrowed, orphan, misnamed, untested,
}
use open_invar.RuleEval.Absence
use open_invar.RuleEval.Absence.Verdicts.{definite-violated, definite-satisfied, pushed}
use open_invar.RuleEval.Evaluate.{evaluate_one, findings_of}

-- The test for the symbol of a file compares its name with the path, and its name is `module`.
is_file_symbol-module_symbol :
    (file : Text) (language : Language)
    → file ≢ bytes "module"
    → is_file_symbol (module_symbol file language) ≡ false
unfolding is_file_symbol module_symbol
is_file_symbol-module_symbol file language ne =
    ground (arith, eqb_iff (bytes "module") file, λ (e : bytes "module" ≡ file). ne (sym e))

module _ (G : Glob) (P : Backend) (g : InvarGraph P) where
  -- A symbol in scope, of a kind that counts and not named like its file, whose name does not match.
  abbrev pub Misnamed : Text → Text → Option Text → Symbol → Type 0
  Misnamed symbols pattern only s =
      (G.matches (compile G symbols) s.file ≡ true)
      × (only_allows only (kind_suffix s.kind) ≡ true)
      × (is_file_symbol s ≡ false)
      × (G.matches (compile G pattern) s.name ≡ false)

  naming_breach-Misnamed :
      (symbols pattern : Text) (only : Option Text) (s : Symbol)
      → ((v : Violation) × (naming_breach G P g symbols pattern only s ≡ some v))
        ↔ Misnamed symbols pattern only s
  unfolding naming_breach
  naming_breach-Misnamed symbols pattern only s =
      (λ (v, h). ground arith, λ h. (misnamed pattern s, ground arith))

module _ (G : Glob) (tarjan_scc : ℕ → List (ℕ × ℕ) → List (List ℕ)) (P : Backend) (g : InvarGraph P)
    (rule : Rule) (es : List Edge) (delta : Option GraphDelta) (symbols pattern : Text)
    (only : Option Text) (kind : rule.kind ≡ naming_convention symbols pattern only) where
  -- `naming-convention` is violated exactly when some symbol is misnamed, and is satisfied otherwise.
  pub naming_convention-verdict :
      (((evaluate_one G tarjan_scc P g rule es delta).verdict ≡ violated)
        ↔ Any (Misnamed G P g symbols pattern only) (values g.symbols))
      × (((evaluate_one G tarjan_scc P g rule es delta).verdict ≡ satisfied)
          ↔ (¬ Any (Misnamed G P g symbols pattern only) (values g.symbols)))
  unfolding evaluate_one findings_of Absence.naming_convention
  naming_convention-verdict =
      let f = naming_breach G P g symbols pattern only in
      let vs = sort (filter_map f (values g.symbols)) in
      let same =
        pushed f (Misnamed G P g symbols pattern only)
          (naming_breach-Misnamed G P g symbols pattern only) (values g.symbols) in
      let bad = definite-violated rule vs in
      let safe = definite-satisfied rule vs in
      rw kind (
        (λ h. same.0 (bad.0 h), λ h. bad.1 (same.1 h)),
        (λ h any_bad. safe.0 h (same.1 any_bad), λ n. safe.1 (λ x. n (same.0 x))),
      )

  module_symbol-Misnamed :
      (file : Text) (language : Language)
      → G.matches (compile G symbols) file ≡ true
      → only ≡ none
      → G.matches (compile G pattern) (bytes "module") ≡ false
      → file ≢ bytes "module"
      → Misnamed G P g symbols pattern only (module_symbol file language)
  unfolding module_symbol only_allows
  module_symbol-Misnamed file language in_scope every unmatched ne =
      (in_scope, rw every refl, is_file_symbol-module_symbol file language ne, unmatched)

  -- The symbol that `module_symbol` makes for a file is held to the pattern too: if the graph has it,
  -- the scope takes the file, the rule is not narrowed to a kind, the pattern does not match `module` and
  -- the file itself is not called `module`, the rule is violated.
  pub naming_convention-module_symbol :
      (file : Text) (language : Language)
      → only ≡ none
      → G.matches (compile G symbols) file ≡ true
      → G.matches (compile G pattern) (bytes "module") ≡ false
      → file ≢ bytes "module"
      → In (module_symbol file language) (values g.symbols)
      → (evaluate_one G tarjan_scc P g rule es delta).verdict ≡ violated
  naming_convention-module_symbol file language every in_scope unmatched ne there =
      naming_convention-verdict.0.1 (
        Any-of_In (Misnamed G P g symbols pattern only) (module_symbol file language)
          (values g.symbols) (module_symbol-Misnamed file language in_scope every unmatched ne)
          there)
