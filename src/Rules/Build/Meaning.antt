-- ===== src/Rules/Build/Meaning.antt =====
-- crates/openinvar-core/src/rules.rs: what a rule needs to mean something, check by check.
use open_invar.Prelude.{
  is_blank, zero, suc, ap, In-set_insert, ◌≤◌, ◌≡◌, refl, ◌⊎◌, inl, inr, true, false, Option, none,
  some, List, [], ◌∷◌, Text, bytes, arith, All, In, is_some, contains, contains_iff, set_insert,
  length, list_ord, nat_ord, Option-cases, Bool-cases,
}
use mathlib.Core.Logic.{⊎_elim}
use open_invar.Rules.{
  RuleKind, forbid_dependency, forbid_reference, no_field_removal, max_fan_in, max_fan_out, layers,
  independence, no_cycles, requires_dependency, no_orphans, requires_test, naming_convention,
}
use open_invar.Rules.Raw.{
  Checked, accepted, rejected, and_then, RawRule, known_symbol_kinds, require, symbol_kind_filter,
  at_least_one, positive_threshold, check_glob, check_entries, check_roots, pos, negsuc, ℤ,
}
use open_invar.Rules.Build.{required_glob, from_to}
use open_invar.RuleEval.Edges.{Glob}

-- Of an accepted value the property holds.
abbrev pub Holds {ℓ κ} : {A : Type ℓ} → (A → Type κ) → Checked A → Type κ
Holds Q (accepted a) = Q a
Holds Q (rejected e) = Unit

pub Holds-and_then {ℓ κ μ ν} :
    {A : Type ℓ} {B : Type κ} (Q : A → Type μ) (R : B → Type ν) (c : Checked A) (f : A → Checked B)
    → Holds Q c
    → ((a : A) → Q a → Holds R (f a))
    → Holds R (and_then c f)
Holds-and_then Q R (accepted a) f q step = step a q
Holds-and_then Q R (rejected e) f q step = tt

pub Holds-weaken {ℓ κ μ} :
    {A : Type ℓ} (Q : A → Type κ) (R : A → Type μ) (c : Checked A)
    → Holds Q c
    → ((a : A) → Q a → R a)
    → Holds R c
Holds-weaken Q R (accepted a) h f = f a h
Holds-weaken Q R (rejected e) h f = tt

abbrev pub AnyValue {ℓ} : {A : Type ℓ} → A → Type 0
AnyValue a = Unit

pub anything {ℓ} : {A : Type ℓ} (c : Checked A) → Holds AnyValue c
anything (accepted a) = tt
anything (rejected e) = tt

-- Each element is another.
abbrev pub Distinct : List Text → Type 0
Distinct [] = Unit
Distinct (t ∷ ts) = (¬ In t ts) × Distinct ts

module _ (G : Glob) where
  abbrev pub Compiles : Text → Type 0
  Compiles glob = (is_blank glob ≡ false) × (is_some (G.compile? glob) ≡ true)

  abbrev pub Filters : Option Text → Type 0
  Filters none = Unit
  Filters (some kind) = In kind known_symbol_kinds

  -- What a rule of each kind needs to mean something.
  abbrev pub IsMeaningful : RuleKind → Type 0
  IsMeaningful (forbid_dependency from to) = Compiles from × Compiles to
  IsMeaningful (forbid_reference from to) = Compiles from × Compiles to
  IsMeaningful (no_field_removal symbol) = Compiles symbol
  IsMeaningful (max_fan_in threshold) = 1 ≤ threshold
  IsMeaningful (layers stack) = (2 ≤ length stack) × All Compiles stack × Distinct stack
  IsMeaningful (independence modules) =
      (2 ≤ length modules) × All Compiles modules × Distinct modules
  IsMeaningful (max_fan_out threshold) = 1 ≤ threshold
  IsMeaningful (no_cycles scope level) = Compiles scope
  IsMeaningful (requires_dependency from to) = Compiles from × Compiles to
  IsMeaningful (no_orphans scope roots) = Compiles scope × All Compiles roots
  IsMeaningful (requires_test symbols only new_only) = Compiles symbols × Filters only
  IsMeaningful (naming_convention symbols matches only) =
      Compiles symbols × (Compiles matches × Filters only)

  -- What the checks establish. The symbol of `no-field-removal` is a glob too, and is not among what
  -- they compile.
  abbrev pub IsChecked : RuleKind → Type 0
  IsChecked (no_field_removal symbol) = is_blank symbol ≡ false
  IsChecked kind = IsMeaningful kind

  pub meaning :
      (kind : RuleKind)
      → IsChecked kind
      → IsMeaningful kind
        ⊎ ((symbol : Text) × (kind ≡ no_field_removal symbol) × (is_blank symbol ≡ false))
  meaning (no_field_removal symbol) h = inr (symbol, refl, h)
  meaning (forbid_dependency from to) h = inl h
  meaning (forbid_reference from to) h = inl h
  meaning (max_fan_in threshold) h = inl h
  meaning (layers stack) h = inl h
  meaning (independence modules) h = inl h
  meaning (max_fan_out threshold) h = inl h
  meaning (no_cycles scope level) h = inl h
  meaning (requires_dependency from to) h = inl h
  meaning (no_orphans scope roots) h = inl h
  meaning (requires_test symbols only new_only) h = inl h
  meaning (naming_convention symbols matches only) h = inl h

module _ (G : Glob) (pattern_error : Text → Text) where
  pub weaken :
      (v : Text) (c : Checked Text) → Holds (λ t. (t ≡ v) × Compiles G t) c → Holds (Compiles G) c
  weaken v (accepted a) h = h.1
  weaken v (rejected e) h = tt

  pub glob_kept :
      (rule field value : Text)
      → Holds (λ t. (t ≡ value) × Compiles G t) (check_glob G pattern_error rule field value)
  unfolding check_glob
  glob_kept rule field value = elim (Bool-cases (is_blank value)) [
    | inl blank ↦ rw (check_glob, blank) tt
    | inr full ↦ elim (Option-cases (G.compile? value)) [
      | inl bad ↦ rw (check_glob, full, bad) tt
      | inr (p, good) ↦ rw (check_glob, full, good) (refl, (full, rw good refl))
    ]
  ]

  pub required_kept :
      (rule field : Text) (raw : Option Text)
      → Holds (Compiles G) (required_glob G pattern_error rule field raw)
  unfolding required_glob
  required_kept rule field raw =
      Holds-and_then AnyValue (Compiles G) (require rule field raw)
        (check_glob G pattern_error rule field) (anything (require rule field raw))
        (λ v _. weaken v (check_glob G pattern_error rule field v) (glob_kept rule field v))

  pub from_to_kept :
      (rule : Text) (raw : RawRule) (kind : Text → Text → RuleKind)
      → ((from to : Text) → Compiles G from → Compiles G to → IsChecked G (kind from to))
      → Holds (IsChecked G) (from_to G pattern_error rule raw kind)
  unfolding from_to
  from_to_kept rule raw kind means =
      Holds-and_then (Compiles G) (IsChecked G)
        (required_glob G pattern_error rule (bytes "from") raw.from)
        (λ from.
          and_then (required_glob G pattern_error rule (bytes "to") raw.to)
            (λ to. accepted (kind from to)))
        (required_kept rule (bytes "from") raw.from)
        (λ from f.
          Holds-and_then (Compiles G) (IsChecked G)
            (required_glob G pattern_error rule (bytes "to") raw.to) (λ to. accepted (kind from to))
            (required_kept rule (bytes "to") raw.to) (λ to t. means from to f t))

  -- What holds of the entries of a list, after those that were seen.
  abbrev pub Entries : List Text → List Text → List Text → Type 0
  Entries seen values ts =
      (length ts ≡ length values)
      × (All (Compiles G) ts × (Distinct ts × ((t : Text) → In t seen → ¬ In t ts)))

  pub listed_kept :
      (rule field : Text) (seen values : List Text)
      → Holds (Entries seen values) (check_entries G pattern_error rule field seen values)
  unfolding check_entries
  listed_kept rule field seen [] = (refl, (tt, (tt, λ t m h. h)))
  listed_kept rule field seen (v ∷ values) =
      Holds-and_then (λ t. (t ≡ v) × Compiles G t) (Entries seen (v ∷ values))
        (check_glob G pattern_error rule field v) _ (glob_kept rule field v)
        (λ t (same, ok). elim (Bool-cases (contains seen t)) [
          | inl twice ↦ rw twice tt
          | inr once ↦ rw once (
              Holds-and_then (Entries (set_insert v seen) values) (Entries seen (v ∷ values))
                (check_entries G pattern_error rule field (set_insert v seen) values) _
                (listed_kept rule field (set_insert v seen) values)
                (λ ts (count, (every, (apart, unseen))). (
                  ap suc count,
                  (
                    (ok, every),
                    (
                      (unseen t ((In-set_insert t v seen).1 (inl same)), apart),
                      λ u m.
                          ⊎_elim
                            (λ e.
                              ground (arith, e, once, contains_iff seen t, contains_iff seen u, m))
                            (unseen u ((In-set_insert u v seen).1 (inr m))),
                    ),
                  ),
                )))
        ])

  pub roots_kept :
      (rule : Text) (values : List Text)
      → Holds (All (Compiles G)) (check_roots G pattern_error rule values)
  unfolding check_roots
  roots_kept rule [] = tt
  roots_kept rule (v ∷ values) =
      Holds-and_then (λ t. (t ≡ v) × Compiles G t) (All (Compiles G))
        (check_glob G pattern_error rule (bytes "roots") v) _ (glob_kept rule (bytes "roots") v)
        (λ t (same, ok).
          Holds-and_then (All (Compiles G)) (All (Compiles G))
            (check_roots G pattern_error rule values) _ (roots_kept rule values)
            (λ ts every. (ok, every)))

  pub filter_kept :
      (rule : Text) (raw : Option Text) → Holds (Filters G) (symbol_kind_filter rule raw)
  unfolding symbol_kind_filter
  filter_kept rule none = tt
  filter_kept rule (some kind) = elim (Bool-cases (contains known_symbol_kinds kind)) [
    | inl known ↦ rw (symbol_kind_filter, known) ((contains_iff known_symbol_kinds kind).0 known)
    | inr other ↦ rw (symbol_kind_filter, other) tt
  ]

  pub threshold_kept :
      (rule : Text) (raw : Option ℤ) → Holds (λ n. 1 ≤ n) (positive_threshold rule raw)
  unfolding positive_threshold require at_least_one
  threshold_kept rule none = tt
  threshold_kept rule (some (pos zero)) = tt
  threshold_kept rule (some (pos (suc m))) = omega arith
  threshold_kept rule (some (negsuc m)) = tt
