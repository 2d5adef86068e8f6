-- ===== src/Rules/Build/Accepted.antt =====
-- crates/openinvar-core/src/rules.rs: what is known of a rules file that was accepted.
use open_invar.Prelude.{
  is_blank, ℕ, ◌+◌, ◌≤◌, ◌≡◌, refl, subst, ◌⊎◌, inl, inr, Bool, true, false, Option, none, some,
  List, [], ◌∷◌, map, Text, bytes, arith, All, All-map, In, eqb, contains, contains_iff, set_insert,
  In-set_insert, length, list_ord, nat_ord, ltb, unwrap_or, Bool-cases, Option-cases, display, ◌++◌,
  if◌then◌else◌,
}
use mathlib.Core.Logic.{⊎_elim}
use open_invar.Rules.{
  Rule, Rules, RuleKind, forbid_dependency, forbid_reference, max_fan_in, max_fan_out, layers,
  independence, no_cycles, requires_dependency, default_severity, no_field_removal,
}
use open_invar.Rules.Raw.{
  Checked, accepted, rejected, syntax, and_then, RawRule, RawFile, require, symbol_kind_filter,
  positive_threshold, check_glob, check_entries, check_glob_list, check_roots,
}
use open_invar.Rules.Build.{
  required_glob, field_removal, orphans_rule, tested_rule, cycles_rule, naming_rule, build_kind,
  build, build_all, parse, cycle_level,
}
use open_invar.Rules.Build.Meaning.{
  Holds, Holds-and_then, Holds-weaken, AnyValue, anything, Distinct, Compiles, Filters, IsChecked,
  IsMeaningful, meaning, weaken, glob_kept, required_kept, from_to_kept, Entries, listed_kept,
  roots_kept, filter_kept, threshold_kept,
}
use open_invar.RuleEval.Edges.{Glob}

module _ (G : Glob) (pattern_error : Text → Text) (any_path : Compiles G (bytes "**")) where
  abbrev Meant : Checked RuleKind → Type 0
  Meant c = Holds (IsChecked G) c

  list_kept :
      (rule field : Text) (raw : Option (List Text))
      → Holds
          (λ ts. (2 ≤ length ts) × All (Compiles G) ts × Distinct ts)
          (check_glob_list G pattern_error rule field raw)
  unfolding check_glob_list
  list_kept rule field raw =
      Holds-and_then AnyValue (λ ts. (2 ≤ length ts) × All (Compiles G) ts × Distinct ts)
        (require rule field raw) _ (anything (require rule field raw))
        (λ values _. elim (Bool-cases (ltb (length values) 2)) [
          | inl few ↦ rw few tt
          | inr enough ↦ rw enough (
              Holds-weaken (Entries G pattern_error [] values)
                (λ ts. (2 ≤ length ts) × All (Compiles G) ts × Distinct ts)
                (check_entries G pattern_error rule field [] values)
                (listed_kept G pattern_error rule field [] values)
                (λ ts (count, (every, (apart, _))). (ground (arith, count, enough), every, apart)))
        ])

  field_removal_kept :
      (rule : Text) (raw : RawRule) → Meant (field_removal G pattern_error rule raw)
  unfolding field_removal
  field_removal_kept rule raw =
      Holds-and_then AnyValue (IsChecked G) (require rule (bytes "symbol") raw.symbol) _
        (anything (require rule (bytes "symbol") raw.symbol))
        (λ symbol _. elim (Bool-cases (is_blank symbol)) [
          | inl blank ↦ rw blank tt
          | inr full ↦ rw full full
        ])

  orphans_kept : (rule : Text) (raw : RawRule) → Meant (orphans_rule G pattern_error rule raw)
  unfolding orphans_rule
  orphans_kept rule raw =
      Holds-and_then (Compiles G) (IsChecked G)
        (required_glob G pattern_error rule (bytes "scope") raw.scope) _
        (required_kept G pattern_error rule (bytes "scope") raw.scope)
        (λ scope s.
          Holds-and_then (All (Compiles G)) (IsChecked G)
            (check_roots G pattern_error rule (unwrap_or raw.roots [])) _
            (roots_kept G pattern_error rule (unwrap_or raw.roots [])) (λ roots r. (s, r)))

  tested_kept : (rule : Text) (raw : RawRule) → Meant (tested_rule G pattern_error rule raw)
  unfolding tested_rule
  tested_kept rule raw =
      Holds-and_then (Compiles G) (IsChecked G)
        (required_glob G pattern_error rule (bytes "symbols") raw.symbols) _
        (required_kept G pattern_error rule (bytes "symbols") raw.symbols)
        (λ symbols s.
          Holds-and_then (Filters G) (IsChecked G) (symbol_kind_filter rule raw.only) _
            (filter_kept G pattern_error rule raw.only) (λ only o. (s, o)))

  scope_kept :
      (rule : Text) (raw : Option Text)
      → Holds (Compiles G) (elim raw [
        | some glob ↦ check_glob G pattern_error rule (bytes "scope") glob
        | none ↦ accepted (bytes "**")
      ])
  scope_kept rule none = any_path
  scope_kept rule (some glob) =
      weaken G pattern_error glob (check_glob G pattern_error rule (bytes "scope") glob)
        (glob_kept G pattern_error rule (bytes "scope") glob)

  cycles_kept : (rule : Text) (raw : RawRule) → Meant (cycles_rule G pattern_error rule raw)
  unfolding cycles_rule
  cycles_kept rule raw =
      Holds-and_then AnyValue (IsChecked G) (cycle_level rule raw.level) _
        (anything (cycle_level rule raw.level))
        (λ level _.
          Holds-and_then (Compiles G) (IsChecked G)
            (elim raw.scope [
              | some glob ↦ check_glob G pattern_error rule (bytes "scope") glob
              | none ↦ accepted (bytes "**")
            ])
            (λ scope. accepted (no_cycles scope level)) (scope_kept rule raw.scope) (λ scope s. s))

  naming_kept : (rule : Text) (raw : RawRule) → Meant (naming_rule G pattern_error rule raw)
  unfolding naming_rule
  naming_kept rule raw =
      Holds-and_then (Filters G) (IsChecked G) (symbol_kind_filter rule raw.only) _
        (filter_kept G pattern_error rule raw.only)
        (λ only o.
          Holds-and_then (Compiles G) (IsChecked G)
            (required_glob G pattern_error rule (bytes "symbols") raw.symbols) _
            (required_kept G pattern_error rule (bytes "symbols") raw.symbols)
            (λ symbols s.
              Holds-and_then (Compiles G) (IsChecked G)
                (required_glob G pattern_error rule (bytes "matches") raw.matches) _
                (required_kept G pattern_error rule (bytes "matches") raw.matches)
                (λ matches m. (s, (m, o)))))

  threshold_rule_kept :
      (rule : Text) (raw : RawRule) (kind : ℕ → RuleKind)
      → ((n : ℕ) → 1 ≤ n → IsChecked G (kind n))
      → Meant (and_then (positive_threshold rule raw.threshold) (λ n. accepted (kind n)))
  threshold_rule_kept rule raw kind means =
      Holds-and_then (λ n. 1 ≤ n) (IsChecked G) (positive_threshold rule raw.threshold)
        (λ n. accepted (kind n)) (threshold_kept G pattern_error rule raw.threshold) means

  stack_kept :
      (rule field : Text) (raw : Option (List Text)) (kind : List Text → RuleKind)
      → ((l : List Text) → (2 ≤ length l) × All (Compiles G) l × Distinct l → IsChecked G (kind l))
      → Meant (and_then (check_glob_list G pattern_error rule field raw) (λ l. accepted (kind l)))
  stack_kept rule field raw kind means =
      Holds-and_then (λ l. (2 ≤ length l) × All (Compiles G) l × Distinct l) (IsChecked G)
        (check_glob_list G pattern_error rule field raw) (λ l. accepted (kind l))
        (list_kept rule field raw) means

  choose :
      (test : Bool) (a b : Checked RuleKind) → Meant a → Meant b → Meant (if test then a else b)
  choose true a b p q = p
  choose false a b p q = q

  build_kind_kept :
      (rule kind : Text) (raw : RawRule) → Meant (build_kind G pattern_error rule kind raw)
  unfolding build_kind
  build_kind_kept rule kind raw =
      choose (eqb kind (bytes "forbid-dependency")) _ _
        (from_to_kept G pattern_error rule raw forbid_dependency (λ f t a b. (a, b)))
        (choose (eqb kind (bytes "forbid-reference")) _ _
          (from_to_kept G pattern_error rule raw forbid_reference (λ f t a b. (a, b)))
          (choose (eqb kind (bytes "no-field-removal")) _ _ (field_removal_kept rule raw) (
            choose (eqb kind (bytes "max-fan-in")) _ _
              (threshold_rule_kept rule raw max_fan_in (λ n h. h))
              (choose (eqb kind (bytes "requires-dependency")) _ _
                (from_to_kept G pattern_error rule raw requires_dependency (λ f t a b. (a, b)))
                (choose (eqb kind (bytes "no-orphans")) _ _ (orphans_kept rule raw) (
                  choose (eqb kind (bytes "requires-test")) _ _ (tested_kept rule raw) (
                    choose (eqb kind (bytes "no-cycles")) _ _ (cycles_kept rule raw) (
                      choose (eqb kind (bytes "max-fan-out")) _ _
                        (threshold_rule_kept rule raw max_fan_out (λ n h. h))
                        (choose (eqb kind (bytes "naming-convention")) _ _ (naming_kept rule raw) (
                          choose (eqb kind (bytes "layers")) _ _
                            (stack_kept rule (bytes "layers") raw.layers layers (λ l h. h))
                            (choose (eqb kind (bytes "independence")) _ _
                              (stack_kept rule (bytes "modules") raw.modules independence
                                (λ m h. h))
                              tt)))))))))))

  build_kept :
      (raw : RawRule) (index : ℕ)
      → Holds (λ (r : Rule). IsChecked G r.kind) (build G pattern_error raw index)
  unfolding build
  build_kept raw index = elim (Option-cases raw.kind) [
    | inl missing ↦ rw (build, missing) tt
    | inr (kind, there) ↦
        let name = unwrap_or raw.name (bytes "rule #" ++ display (index + 1)) in
        rw (build, there)
          (Holds-and_then (IsChecked G) (λ (r : Rule). IsChecked G r.kind)
            (build_kind G pattern_error name kind raw)
            (λ k. accepted (record {
              name = name;
              kind = k;
              severity = unwrap_or raw.severity (default_severity k);
            }))
            (build_kind_kept name kind raw) (λ k means. means))
  ]

  -- What holds of the rules, after those whose names were seen.
  abbrev Fresh : List Text → List Rule → Type 0
  Fresh seen rules =
      All (λ (r : Rule). IsChecked G r.kind) rules
      × (Distinct (map (λ (r : Rule). r.name) rules)
          × ((t : Text) → In t seen → ¬ In t (map (λ (r : Rule). r.name) rules)))

  build_all_kept :
      (seen : List Text) (index : ℕ) (raws : List RawRule)
      → Holds (Fresh seen) (build_all G pattern_error seen index raws)
  unfolding build_all
  build_all_kept seen index [] = (tt, (tt, λ t m h. h))
  build_all_kept seen index (raw ∷ raws) =
      Holds-and_then (λ (r : Rule). IsChecked G r.kind) (Fresh seen)
        (build G pattern_error raw index) _ (build_kept raw index)
        (λ rule means. elim (Bool-cases (contains seen rule.name)) [
          | inl twice ↦ rw twice tt
          | inr once ↦ rw once (
              Holds-and_then (Fresh (set_insert rule.name seen)) (Fresh seen)
                (build_all G pattern_error (set_insert rule.name seen) (index + 1) raws) _
                (build_all_kept (set_insert rule.name seen) (index + 1) raws)
                (λ rules (every, (apart, unseen)). (
                  (means, every),
                  (
                    (
                      unseen rule.name ((In-set_insert rule.name rule.name seen).1 (inl refl)),
                      apart,
                    ),
                    λ u m.
                        ⊎_elim
                          (λ e.
                            ground
                              (arith, e, once, contains_iff seen rule.name, contains_iff seen u, m))
                          (unseen u ((In-set_insert u rule.name seen).1 (inr m))),
                  ),
                )))
        ])

  abbrev Sound : Rules → Type 0
  Sound rules =
      All (λ (r : Rule). IsChecked G r.kind) rules.rules
      × Distinct (map (λ (r : Rule). r.name) rules.rules)

  read_kept :
      (read : Text ⊎ RawFile)
      → Holds Sound (elim read [
        | inl message ↦ rejected (syntax message)
        | inr raw ↦
            and_then
              (build_all G pattern_error [] 0 raw.rule)
              (λ rules. accepted record { rules = rules; suppress = raw.suppress })
      ])
  read_kept (inl message) = tt
  read_kept (inr raw) =
      Holds-and_then (Fresh []) Sound (build_all G pattern_error [] 0 raw.rule)
        (λ rules. accepted (record { rules = rules; suppress = raw.suppress }))
        (build_all_kept [] 0 raw.rule) (λ rules (every, (apart, _)). (every, apart))

  -- Each rule of an accepted rules file is meaningful: its globs are not blank and compile, its
  -- limit is at least one, its list has two different globs or more, its kind of symbol is known. The
  -- one exception is a `no-field-removal` rule, of whose glob is only known that it is not blank. The names
  -- of the rules are distinct. All this if the glob crate takes `**`, which stands in for a scope that is
  -- left out.
  pub parse-IsMeaningful :
      (from_str : Text → Text ⊎ RawFile) (text : Text) (rules : Rules)
      → parse G pattern_error from_str text ≡ accepted rules
      → All
          (λ (r : Rule).
            IsMeaningful G r.kind
            ⊎ ((symbol : Text) × (r.kind ≡ no_field_removal symbol) × (is_blank symbol ≡ false)))
          rules.rules
        × Distinct (map (λ (r : Rule). r.name) rules.rules)
  parse-IsMeaningful from_str text rules h =
      let (every, apart) = subst (Holds Sound) h (unfold parse in read_kept (from_str text)) in
      (All-map _ _ rules.rules (λ r checked. meaning G r.kind checked) every, apart)
