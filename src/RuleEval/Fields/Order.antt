-- ===== src/RuleEval/Fields/Order.antt =====
-- rule_eval.rs: `no-field-removal`, where the maps list the symbols in another order.
use open_invar.Prelude.{
  ◌≡◌, refl, ap, sym, ◌∙◌, subst, ◌↔◌, ◌≤◌, ⊎_elim, ◌⊎◌, inl, inr, Bool, true, not, ◌&&◌,
  if◌then◌else◌, Option, none, some, List, [], ◌∷◌, ◌++◌, map, foldl, Map, Text, bytes, All, All-at,
  In, In-append, In-retain, In-sort_by, Any, Any-of_In, is_le, cmp, Ord, leb, retain, sort, sort_by,
  filter_map, values, get, get-tree_insert, unwrap_or, contains, eqb, eqb_iff, Option-cases,
  Bool-cases, arith, nat_ord, list_ord, pair_ord,
}
use mathlib.Core.Path.{fun_ext}
use open_invar.Delta.{GraphDelta}
use open_invar.Ir.{Symbol, SymbolId}
use open_invar.Graph.{Backend, InvarGraph}
use open_invar.RuleEval.Edges.{Glob, compile}
use open_invar.RuleEval.Sweep.{Violation, violation_ord}
use open_invar.RuleEval.Fields.{
  position_key, owner_of, encloses, field_breach, sorted_owners, owners_turn, can_own_fields,
  is_field, no_field_removal, max_by_position,
}
use open_invar.RuleEval.Fields.Owner.{owner_of-cases, NoLater, before}

le_antisym :
    {A : Type 0} ⦃o : Ord A⦄ (a b : A) → is_le (cmp a b) ≡ true → is_le (cmp b a) ≡ true → a ≡ b
le_antisym ⦃o = o⦄ a b h k = ground (arith, o.cmp-eq a b, o.cmp_swap a b)

one_id : (a b : Symbol) → NoLater a b → NoLater b a → a.id ≡ b.id
one_id a b h k = ground (arith, le_antisym a.id b.id)

module _ (cs ds : List Symbol) (field : Symbol) (members : (s : Symbol) → In s cs ↔ In s ds)
    (one : (a b : Symbol) → In a cs → In b cs → a.id ≡ b.id → a ≡ b) where
  agree :
      (test : Symbol → Bool) (a b : Symbol)
      → In a cs
      → In b ds
      → test a ≡ true
      → test b ≡ true
      → All (NoLater a) (retain test cs)
      → All (NoLater b) (retain test ds)
      → a ≡ b
  agree test a b m n p q above below = one a b m ((members b).1 n) (
      one_id a b
        (All-at (NoLater a) b (retain test cs) above ((In-retain test b cs).1 ((members b).1 n, q)))
        (All-at (NoLater b) a (retain test ds) below
          ((In-retain test a ds).1 ((members a).0 m, p))))

  -- What is known of the owner beside its place in the list.
  abbrev Chosen : List Symbol → Symbol → Type 0
  Chosen xs a =
      ((encloses field a ≡ true) × All (NoLater a) (retain (encloses field) xs))
      ⊎ ((¬ Any (λ c. encloses field c ≡ true) xs) × All (NoLater a) (before field xs))

  chosen :
      (a b : Symbol)
      → In a cs
      → In b ds
      → a.line_start ≤ field.line_start
      → b.line_start ≤ field.line_start
      → Chosen cs a
      → Chosen ds b
      → a ≡ b
  chosen a b m n early soon (inl (p, above)) (inl (q, below)) =
      agree (encloses field) a b m n p q above below
  chosen a b m n early soon (inl (p, above)) (inr (outside, below)) =
      absurd (outside (Any-of_In (λ c. encloses field c ≡ true) a ds p ((members a).0 m)))
  chosen a b m n early soon (inr (outside, above)) (inl (q, below)) =
      absurd (outside (Any-of_In (λ c. encloses field c ≡ true) b cs q ((members b).1 n)))
  chosen a b m n early soon (inr (outside, above)) (inr (clear, below)) =
      agree (λ c. leb c.line_start field.line_start) a b m n (ground arith) (ground arith) above
        below

  owner_of-same : owner_of cs field ≡ owner_of ds field
  owner_of-same = elim (owner_of-cases cs field) [
    | inl (a, e, m, early, last) ↦ elim (owner_of-cases ds field) [
      | inl (b, f, n, soon, final) ↦ e ∙ ap some (chosen a b m n early soon last final) ∙ sym f
      | inr (f, never, outside) ↦ absurd (
          never (
            Any-of_In (λ (c : Symbol). leb c.line_start field.line_start ≡ true) a ds (ground arith)
              ((members a).0 m)))
    ]
    | inr (e, never, outside) ↦ elim (owner_of-cases ds field) [
      | inl (b, f, n, soon, final) ↦ absurd (
          never (
            Any-of_In (λ (c : Symbol). leb c.line_start field.line_start ≡ true) b cs (ground arith)
              ((members b).1 n)))
      | inr (f, late, clear) ↦ e ∙ sym f
    ]
  ]

-- The candidates of a file.
abbrev so_far : Map Text (List Symbol) → Text → List Symbol
so_far m file = unwrap_or (get m file) []

abbrev IsCandidate : List SymbolId → Text → Symbol → Type 0
IsCandidate removed_ids file s =
    ((can_own_fields s && not (contains removed_ids s.id)) ≡ true) × (s.file ≡ file)

In-owners_turn :
    (removed_ids : List SymbolId) (m : Map Text (List Symbol)) (file : Text) (x s : Symbol)
    → In s (so_far (owners_turn removed_ids m x) file)
      ↔ (In s (so_far m file) ⊎ (s ≡ x) × IsCandidate removed_ids file x)
unfolding owners_turn
In-owners_turn removed_ids m file x s =
    elim (Bool-cases (can_own_fields x && not (contains removed_ids x.id))) [
      | inr other ↦ rw other (ground arith)
      | inl kept ↦
          let grown = so_far m x.file ++ x ∷ [] in
          rw (kept, get-tree_insert m x.file file grown)
            (elim (Bool-cases (eqb x.file file)) [
              | inl here ↦
                  let e = (eqb_iff x.file file).0 here in
                  rw (here, e) (ground (arith, In-append s (so_far m file) (x ∷ []), e))
              | inr apart ↦ rw apart (ground (arith, eqb_iff x.file file))
            ])
    ]

In-owners :
    (removed_ids : List SymbolId) (file : Text) (s : Symbol) (m : Map Text (List Symbol))
    (xs : List Symbol)
    → In s (so_far (foldl (owners_turn removed_ids) m xs) file)
      ↔ (In s (so_far m file) ⊎ In s xs × IsCandidate removed_ids file s)
In-owners removed_ids file s m [] = ground arith
In-owners removed_ids file s m (x ∷ xs) =
    let turn = In-owners_turn removed_ids m file x s in
    let rest = In-owners removed_ids file s (owners_turn removed_ids m x) xs in
    (
      λ i.
          ⊎_elim
            (λ j.
              ⊎_elim inl (λ (e, c). inr (inl e, subst (IsCandidate removed_ids file) (sym e) c))
                (turn.0 j))
            (λ (n, c). inr (inr n, c)) (rest.0 i),
      λ i. rest.1 (
          ⊎_elim (λ j. inl (turn.1 (inl j)))
            (λ (n, c).
              ⊎_elim (λ e. inl (turn.1 (inr (e, subst (IsCandidate removed_ids file) e c))))
                (λ k. inr (k, c)) n)
            i),
    )

-- The candidates of a file in their order.
abbrev ordered : Map Text (List Symbol) → Text → List Symbol
ordered m file = sort_by (λ a b. cmp (position_key a) (position_key b)) (so_far m file)

-- What is reported of a removed symbol, from its owner.
abbrev told : (G : Glob) → Text → Symbol → Option Symbol → Option Violation
told G glob removed none = none
told G glob removed (some owner) =
    if not (is_field removed.kind)
    then none
    else if not (G.matches (compile G glob) owner.name)
    then none
    else some record {
      file = removed.file;
      line = removed.line_start;
      symbol = owner.id;
      detail =
          bytes "field '"
          ++ (removed.name ++ (bytes "' removed from '" ++ (owner.name ++ bytes "'")));
    }

owner_of-none :
    (m : Map Text (List Symbol)) (field : Symbol)
    → get m field.file ≡ none
    → owner_of (ordered m field.file) field ≡ none
unfolding owner_of sort_by max_by_position
owner_of-none m field absent = rw absent refl

module _ (G : Glob) (P : Backend) (glob : Text) where
  field_breach-told :
      (g : InvarGraph P) (m : Map Text (List Symbol)) (removed : Symbol)
      → field_breach G P g glob m removed
        ≡ told G glob removed (owner_of (ordered m removed.file) removed)
  unfolding field_breach sorted_owners
  field_breach-told g m removed = elim (Option-cases (get m removed.file)) [
    | inl absent ↦ rw (owner_of-none m removed absent) (ground arith)
    | inr (cs, there) ↦
        elim (Option-cases
          (owner_of (sort_by (λ a b. cmp (position_key a) (position_key b)) cs) removed)) [
            | inl ownerless ↦ rw (there, ownerless) (ground (arith, there, ownerless))
            | inr (owner, owned) ↦ rw (there, owned) (ground (arith, there, owned))
          ]
  ]

  module _ (g h : InvarGraph P)
      (stored : (id : SymbolId) (s : Symbol)
        → In s (values g.symbols)
        → s.id ≡ id
        → get g.symbols id ≡ some s)
      (members : (s : Symbol) → In s (values g.symbols) ↔ In s (values h.symbols))
      (delta : GraphDelta) where
    abbrev removed_ids : List SymbolId
    removed_ids = map (λ (s : Symbol). s.id) delta.removed_symbols

    abbrev owners : InvarGraph P → Map Text (List Symbol)
    owners k = foldl (owners_turn removed_ids) [] (values k.symbols)

    In-ordered :
        (k : InvarGraph P) (file : Text) (s : Symbol)
        → In s (ordered (owners k) file)
          ↔ (In s (values k.symbols) × IsCandidate removed_ids file s)
    unfolding get
    In-ordered k file s =
        let owned = In-owners removed_ids file s [] (values k.symbols) in
        let kept =
          In-sort_by (λ a b. cmp (position_key a) (position_key b)) s (so_far (owners k) file) in
        (λ i. ⊎_elim (λ e. absurd e) (λ c. c) (owned.0 (kept.0 i)), λ c. kept.1 (owned.1 (inr c)))

    breach-same :
        (removed : Symbol)
        → field_breach G P g glob (owners g) removed ≡ field_breach G P h glob (owners h) removed
    breach-same removed =
        let file = removed.file in
        field_breach-told g (owners g) removed
        ∙ ap (told G glob removed) (
            owner_of-same (ordered (owners g) file) (ordered (owners h) file) removed
              (λ s. (
                λ i.
                    let (m, c) = (In-ordered g file s).0 i in
                    (In-ordered h file s).1 ((members s).0 m, c),
                λ i.
                    let (m, c) = (In-ordered h file s).0 i in
                    (In-ordered g file s).1 ((members s).1 m, c),
              ))
              (λ a b i j e.
                let there = stored b.id a ((In-ordered g file a).0 i).0 e in
                let here = stored b.id b ((In-ordered g file b).0 j).0 refl in
                ground (arith, there, here)))
        ∙ sym (field_breach-told h (owners h) removed)

    pub no_field_removal-same :
        no_field_removal G P g delta glob ≡ no_field_removal G P h delta glob
    unfolding no_field_removal
    no_field_removal-same =
        ap (λ f. sort (filter_map f delta.removed_symbols)) (fun_ext (λ s. breach-same s))
