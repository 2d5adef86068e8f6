-- ===== src/RuleEval/Fields/Uncompiled.antt =====
-- rules.rs and rule_eval.rs: a `no-field-removal` rule whose glob does not compile.
use open_invar.Prelude.{
  ◌≡◌, ◌≢◌, refl, sym, ◌∙◌, subst, In, Bool-cases, cmp, pair_ord, All-append, All-sort_by, All-at,
  if◌then◌else◌, ◌&&◌, not, contains, tree_insert, get-tree_insert, Map, All, get, false, Option,
  none, some, List, [], ◌∷◌, Text, bytes, arith, filter_map, is_blank, foldl, map, values, eqb, inl,
  inr, list_ord, nat_ord, ℕ, sort_by, unwrap_or, display, ◌++◌, ◌+◌, Option-cases,
}
use open_invar.Ir.{Symbol, SymbolId}
use open_invar.Graph.{Backend, InvarGraph}
use open_invar.Delta.{GraphDelta}
use open_invar.Rules.{Rule, no_field_removal, default_severity}
use open_invar.Rules.Raw.{RawRule, accepted, require}
use open_invar.Rules.Build.{build, build_kind, field_removal}
use open_invar.RuleEval.Edges.{Glob, Edge, compile}
use open_invar.RuleEval.Sweep.{satisfied, Violation}
use open_invar.RuleEval.Fields.{
  can_own_fields, position_key, owners_turn, field_breach, owner_of, sorted_owners, is_field,
}
use open_invar.RuleEval.Fields.Owner.{owner_of-cases}
use open_invar.RuleEval.Fields
use open_invar.RuleEval.Evaluate.{evaluate_one, findings_of, conclude}

filter_map-none :
    (f : Symbol → Option Violation) (xs : List Symbol)
    → ((x : Symbol) → f x ≡ none)
    → filter_map f xs ≡ []
filter_map-none f [] h = refl
filter_map-none f (x ∷ xs) h = ground (arith, h x, filter_map-none f xs h)

abbrev IsNamed : Symbol → Type 0
IsNamed s = s.name ≢ []

-- Every candidate owner has a name.
abbrev AllNamed : Map Text (List Symbol) → Type 0
AllNamed by_file = (file : Text) (cs : List Symbol) → get by_file file ≡ some cs → All IsNamed cs

so_far :
    (m : Map Text (List Symbol)) (file : Text)
    → AllNamed m
    → All IsNamed (unwrap_or (get m file) [])
so_far m file named = elim (Option-cases (get m file)) [
  | inl absent ↦ rw absent tt
  | inr (cs, there) ↦ rw there (named file cs there)
]

owners_turn-AllNamed :
    (removed_ids : List SymbolId) (m : Map Text (List Symbol)) (s : Symbol)
    → AllNamed m
    → IsNamed s
    → AllNamed (owners_turn removed_ids m s)
unfolding owners_turn
owners_turn-AllNamed removed_ids m s named here file cs there =
    let grown = unwrap_or (get m s.file) [] ++ s ∷ [] in
    elim (Bool-cases (can_own_fields s && not (contains removed_ids s.id))) [
      | inr other ↦ named file cs (
          subst (λ b. get (if b then tree_insert m s.file grown else m) file ≡ some cs) other there)
      | inl kept ↦
          let stored : get (tree_insert m s.file grown) file ≡ some cs =
            subst (λ b. get (if b then tree_insert m s.file grown else m) file ≡ some cs) kept
              there in
          let split = sym (get-tree_insert m s.file file grown) ∙ stored in
          elim (Bool-cases (eqb s.file file)) [
            | inl same ↦
                let e : grown ≡ cs = ground (arith, split, same) in
                subst (All IsNamed) e (
                  All-append IsNamed (unwrap_or (get m s.file) []) (s ∷ []) (so_far m s.file named)
                    (here, tt))
            | inr apart ↦ named file cs (ground (arith, split, apart))
          ]
    ]

none_yet : AllNamed []
unfolding get
none_yet file cs h = absurd (ground (arith, h))

owners-AllNamed :
    (removed_ids : List SymbolId) (m : Map Text (List Symbol)) (ss : List Symbol)
    → AllNamed m
    → All IsNamed ss
    → AllNamed (foldl (owners_turn removed_ids) m ss)
owners-AllNamed removed_ids m [] named all = named
owners-AllNamed removed_ids m (s ∷ ss) named all =
    owners-AllNamed removed_ids (owners_turn removed_ids m s) ss
      (owners_turn-AllNamed removed_ids m s named all.0) all.1

owner_of-In :
    (containers : List Symbol) (field owner : Symbol)
    → owner_of containers field ≡ some owner
    → In owner containers
owner_of-In containers field owner h = elim (owner_of-cases containers field) [
  | inl (o, e, there, early, last) ↦
      let same : o ≡ owner = ground (arith, e, h) in subst (λ s. In s containers) same there
  | inr (e, never, outside) ↦ absurd (ground (arith, e, h))
]

module _ (G : Glob) (pattern_error : Text → Text) (symbol : Text) where
  -- The rule that `build` makes of an entry with this name and severity.
  abbrev pub removal_rule : RawRule → ℕ → Rule
  removal_rule raw index = record {
    name = unwrap_or raw.name (bytes "rule #" ++ display (index + 1));
    kind = no_field_removal symbol;
    severity = unwrap_or raw.severity (default_severity (no_field_removal symbol));
  }

  build_kind-removal :
      (rule : Text) (raw : RawRule)
      → raw.symbol ≡ some symbol
      → is_blank symbol ≡ false
      → build_kind G pattern_error rule (bytes "no-field-removal") raw
        ≡ accepted (no_field_removal symbol)
  unfolding build_kind field_removal require eqb
  build_kind-removal rule raw there full = rw (there, full) refl

  build-removal :
      (raw : RawRule) (index : ℕ)
      → raw.kind ≡ some (bytes "no-field-removal")
      → raw.symbol ≡ some symbol
      → is_blank symbol ≡ false
      → build G pattern_error raw index ≡ accepted (removal_rule raw index)
  unfolding build
  build-removal raw index kind there full =
      rw
        (
          build,
          kind,
          build_kind-removal (unwrap_or raw.name (bytes "rule #" ++ display (index + 1))) raw there
              full,
        )
        refl

  module _ (tarjan_scc : ℕ → List (ℕ × ℕ) → List (List ℕ)) (P : Backend) where
    no_breach :
        (g : InvarGraph P) (by_file : Map Text (List Symbol)) (removed : Symbol)
        → AllNamed by_file
        → ((t : Text) → t ≢ [] → G.matches (compile G symbol) t ≡ false)
        → field_breach G P g symbol by_file removed ≡ none
    unfolding field_breach sorted_owners
    no_breach g by_file removed named nothing = elim (Option-cases (get by_file removed.file)) [
      | inl absent ↦ ground arith
      | inr (cs, there) ↦
          let by_position = λ (a b : Symbol). cmp (position_key a) (position_key b) in
          let containers = sort_by by_position cs in
          elim (Option-cases (owner_of containers removed)) [
            | inl ownerless ↦ ground arith
            | inr (owner, owned) ↦
                let full =
                  All-at IsNamed owner containers
                    ((All-sort_by IsNamed by_position cs).1 (named removed.file cs there))
                    (owner_of-In containers removed owner owned) in
                ground (arith, nothing owner.name full)
          ]
    ]

    -- An entry of kind `no-field-removal` with a symbol that is not blank is accepted, also where the
    -- glob crate refuses that symbol. Where the crate refuses `[` too, and the empty pattern matches
    -- no other text than the empty one, the rule is satisfied whatever the change removes, if every
    -- symbol before the change has a name.
    pub no_field_removal-uncompiled :
        (raw : RawRule) (index : ℕ) (g : InvarGraph P) (es : List Edge) (delta : GraphDelta)
        → raw.kind ≡ some (bytes "no-field-removal")
        → raw.symbol ≡ some symbol
        → is_blank symbol ≡ false
        → G.compile? symbol ≡ none
        → G.compile? (bytes "[") ≡ none
        → ((t : Text) → t ≢ [] → G.matches G.empty t ≡ false)
        → All (λ (s : Symbol). s.name ≢ []) (values g.symbols)
        → (build G pattern_error raw index ≡ accepted (removal_rule raw index))
          × ((evaluate_one G tarjan_scc P g (removal_rule raw index) es (some delta)).verdict
              ≡ satisfied)
    unfolding evaluate_one findings_of conclude Fields.no_field_removal sort_by compile
    no_field_removal-uncompiled raw index g es delta kind there full bad worse nothing named =
        let ids = map (λ (s : Symbol). s.id) delta.removed_symbols in
        let by_file = foldl (owners_turn ids) [] (values g.symbols) in
        let stand_in : compile G symbol ≡ G.empty = rw (compile, bad, worse) refl in
        let unmatched : (t : Text) → t ≢ [] → G.matches (compile G symbol) t ≡ false =
          rw stand_in nothing in
        let every = owners-AllNamed ids [] (values g.symbols) none_yet named in
        (
          build-removal raw index kind there full,
          rw
              (filter_map-none (field_breach G P g symbol by_file) delta.removed_symbols
                (λ s. no_breach g by_file s every unmatched))
              refl,
        )
