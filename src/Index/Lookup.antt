-- ===== src/Index/Lookup.antt =====
-- crates/openinvar-core/src/index.rs: what a lookup answers on a graph whose indexes agree.
use open_invar.Prelude.{
  ◌≡◌, ◌↔◌, inl, inr, none, some, List, [], ◌∷◌, Text, In, get, eqb, eqb_iff, arith, Option-cases,
  Bool-cases, list_ord, nat_ord,
}
use open_invar.Ir.{SymbolId}
use open_invar.Graph.{Backend, InvarGraph}
use open_invar.Graph.Indexed.{IsIndexed, key_of, name_key, file_key}
use open_invar.Index.{ok, first_in_file, find_by_name, find_symbol_id}

module _ (P : Backend) (g : InvarGraph P) where
  abbrev pub Named : Text → SymbolId → Type 0
  Named name id = key_of name_key g.symbols id ≡ some name

  abbrev pub Lies : Text → SymbolId → Type 0
  Lies file id = key_of file_key g.symbols id ≡ some file

module _ (P : Backend) (g : InvarGraph P) (indexed : IsIndexed P g) where
  listed :
      (name : Text) (ids : List SymbolId)
      → get g.name_index name ≡ some ids
      → (id : SymbolId) → In id ids ↔ Named P g name id
  listed name ids there id = ground (arith, indexed.names name id, there)

  found_by_name :
      (name : Text) (ids : List SymbolId) (id : SymbolId)
      → find_by_name P g name ids ≡ ok id
      → ids ≡ id ∷ []
  unfolding find_by_name
  found_by_name name [] id h = ground arith
  found_by_name name (i ∷ []) id h = ground arith
  found_by_name name (i ∷ j ∷ ids) id h = ground arith

  -- On a graph whose indexes agree with its symbols, an id that a lookup without a file answers
  -- with has the name, and no other symbol has it.
  pub find_symbol_id_unique :
      (name : Text) (id : SymbolId)
      → find_symbol_id P g name none ≡ ok id
      → Named P g name id × ((j : SymbolId) → Named P g name j → j ≡ id)
  unfolding find_symbol_id
  find_symbol_id_unique name id h = elim (Option-cases (get g.name_index name)) [
    | inl absent ↦ ground (arith, absent, h)
    | inr (ids, there) ↦
        let alone = found_by_name name ids id (ground (arith, there, h)) in
        (
          ground (arith, listed name ids there id, alone),
          λ j named. ground (arith, listed name ids there j, alone, named),
        )
  ]

  first_in_file_lem :
      (file : Text) (ids : List SymbolId) (id : SymbolId)
      → first_in_file P g file ids ≡ some id
      → In id ids × Lies P g file id
  unfolding first_in_file
  first_in_file_lem file [] id h = ground arith
  first_in_file_lem file (i ∷ ids) id h = elim (Option-cases (get g.symbols i)) [
    | inl absent ↦ ground (arith, first_in_file_lem file ids id, h, absent)
    | inr (s, there) ↦ ground (arith, first_in_file_lem file ids id, h, there, eqb_iff s.file file)
  ]

  first_found :
      (file : Text) (ids : List SymbolId) (id : SymbolId)
      → In id ids
      → Lies P g file id
      → (found : SymbolId) × (first_in_file P g file ids ≡ some found)
  unfolding first_in_file
  first_found file [] id m lies = absurd m
  first_found file (i ∷ ids) id m lies = elim (Option-cases (get g.symbols i)) [
    | inl absent ↦
        let later : In id ids = ground (arith, m, lies, absent) in
        let (found, first) = first_found file ids id later lies in
        (found, ground (arith, absent, first))
    | inr (s, there) ↦ elim (Bool-cases (eqb s.file file)) [
      | inl here ↦ (i, ground (arith, there, here))
      | inr elsewhere ↦
          let later : In id ids = ground (arith, m, lies, there, elsewhere, eqb_iff s.file file) in
          let (found, first) = first_found file ids id later lies in
          (found, ground (arith, there, elsewhere, first))
    ]
  ]

  first_of :
      (name file : Text) (ids : List SymbolId) (id : SymbolId)
      → get g.name_index name ≡ some ids
      → find_symbol_id P g name (some file) ≡ ok id
      → first_in_file P g file ids ≡ some id
  unfolding find_symbol_id
  first_of name file ids id there h =
      ground (arith, there, h, Option-cases (first_in_file P g file ids))

  -- On a graph whose indexes agree with its symbols, a lookup of a name in a file succeeds exactly
  -- when the file has a symbol of that name.
  pub find_symbol_id-in_file :
      (name file : Text)
      → ((id : SymbolId) × (find_symbol_id P g name (some file) ≡ ok id))
        ↔ ((id : SymbolId) × (Named P g name id × Lies P g file id))
  unfolding find_symbol_id
  find_symbol_id-in_file name file = elim (Option-cases (get g.name_index name)) [
    | inl absent ↦ (
      λ (id, h). absurd (ground (arith, absent, h)),
      λ (id, (named, lies)). absurd (ground (arith, indexed.names name id, absent, named)),
    )
    | inr (ids, there) ↦ (
      λ (id, h).
          let (m, lies) = first_in_file_lem file ids id (first_of name file ids id there h) in
          (id, ((listed name ids there id).0 m, lies)),
      λ (id, (named, lies)).
          let (found, first) = first_found file ids id ((listed name ids there id).1 named) lies in
          (found, ground (arith, there, first)),
    )
  ]
