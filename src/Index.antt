-- ===== src/Index.antt =====
-- crates/openinvar-core/src/index.rs: a symbol by its name, and by its file where one is given. The
-- errors are those of error.rs.
pub mod Yields
pub mod Lookup
pub mod Renamed
use open_invar.Prelude.{
  ℕ, Option, none, some, List, [], ◌∷◌, ◌++◌, Text, bytes, get, eqb, sort, dedup, filter_map,
  if◌then◌else◌, list_ord, nat_ord,
}
use open_invar.Ir.{SymbolId}
use open_invar.Graph.{Backend, InvarGraph}

pub data InvarError : Type 0 where
  symbol_not_found : Text → InvarError
  ambiguous_symbol : (symbol : Text) (candidates : List Text) → InvarError
  invalid_depth : (depth max : ℕ) → InvarError
  graph_corrupt : Text → InvarError

pub data Result {ℓ} (A : Type ℓ) : Type ℓ where
  ok : A → Result A
  err : InvarError → Result A

-- The operator `?`.
infixl 5 ◌>>=◌
abbrev pub ◌>>=◌ {ℓ κ} : {A : Type ℓ} {B : Type κ} → Result A → (A → Result B) → Result B
ok a >>= f = f a
err e >>= f = err e

module _ (P : Backend) (g : InvarGraph P) where
  -- The first id whose symbol lies in the file.
  unfoldable pub first_in_file : Text → List SymbolId → Option SymbolId
  first_in_file file [] = none
  first_in_file file (id ∷ ids) =
      let rest = first_in_file file ids in
      elim (get g.symbols id) [
        | none ↦ rest
        | some symbol ↦ if eqb symbol.file file then some id else rest
      ]

  -- The files of the candidates, sorted and each once.
  unfoldable pub candidate_files : List SymbolId → List Text
  candidate_files ids =
      dedup (
        sort
          (filter_map (λ id. elim (get g.symbols id) [ none ↦ none | some s ↦ some s.file ]) ids))

  unfoldable pub find_by_name : Text → List SymbolId → Result SymbolId
  unfolding candidate_files
  find_by_name symbol (id ∷ []) = ok id
  find_by_name symbol ids = err (ambiguous_symbol symbol (candidate_files ids))

  unfoldable pub find_symbol_id : Text → Option Text → Result SymbolId
  unfolding first_in_file find_by_name
  find_symbol_id symbol file = elim (get g.name_index symbol) [
    | none ↦ err (symbol_not_found symbol)
    | some ids ↦ elim file [
      | none ↦ find_by_name symbol ids
      | some f ↦ elim (first_in_file f ids) [
        | some id ↦ ok id
        | none ↦ err (symbol_not_found (symbol ++ (bytes " in " ++ f)))
      ]
    ]
  ]
