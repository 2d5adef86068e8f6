-- ===== src/Examples/LookupTests.antt =====
-- The indexes and the lookup at concrete inputs.
use open_invar.Prelude.{
  ◌≡◌, ◌↔◌, refl, none, some, [], ◌∷◌, bytes, get, insert, eqb, foldl, arith, strip_suffix,
}
use open_invar.Ir.{SymbolId, Symbol}
use open_invar.Graph.{InvarGraph, new, add_symbol, add_relationship, push_id, with_package}
use open_invar.Graph.Indexed.{IsIndexed}
use open_invar.Graph.Indexed.Kept.{add_symbol-IsIndexed, build-IsIndexed}
use open_invar.Index.{ok, err, ambiguous_symbol, find_symbol_id, find_by_name}
use open_invar.Index.Lookup.{Named, Lies, find_symbol_id_unique, find_symbol_id-in_file}
use open_invar.Index.Renamed.{find_symbol_id-renamed}
use open_invar.Examples.Sample.{backend, symbol_at, main_id, lib_id, cli, core, sample}
use open_invar.Examples.GraphTests.{to_openssl}

abbrev main_symbol : Symbol
main_symbol = symbol_at main_id (bytes "main") cli

abbrev lib_symbol : Symbol
lib_symbol = symbol_at lib_id (bytes "run") core

abbrev two_symbols : InvarGraph backend
two_symbols =
    foldl (add_relationship backend)
      (foldl (add_symbol backend) (new backend) (main_symbol ∷ lib_symbol ∷ [])) (to_openssl ∷ [])

build-IsIndexed_example : IsIndexed backend two_symbols
build-IsIndexed_example = build-IsIndexed backend (main_symbol ∷ lib_symbol ∷ []) (to_openssl ∷ [])

two_symbols-IsIndexed : IsIndexed backend two_symbols
two_symbols-IsIndexed = build-IsIndexed backend (main_symbol ∷ lib_symbol ∷ []) (to_openssl ∷ [])

add_symbol-IsIndexed_example : IsIndexed backend (add_symbol backend two_symbols main_symbol)
add_symbol-IsIndexed_example =
    add_symbol-IsIndexed backend two_symbols main_symbol two_symbols-IsIndexed

find_symbol_id_unique_example :
    Named backend two_symbols (bytes "main") main_id
    × ((j : SymbolId) → Named backend two_symbols (bytes "main") j → j ≡ main_id)
unfolding find_symbol_id find_by_name add_symbol new add_relationship get insert eqb push_id
    with_package strip_suffix
find_symbol_id_unique_example =
    find_symbol_id_unique backend two_symbols two_symbols-IsIndexed (bytes "main") main_id refl

find_symbol_id-in_file_example :
    ((id : SymbolId) × (find_symbol_id backend two_symbols (bytes "run") (some core) ≡ ok id)) ↔ (
      (id : SymbolId) × (Named backend two_symbols (bytes "run") id
        × Lies backend two_symbols core id))
find_symbol_id-in_file_example =
    find_symbol_id-in_file backend two_symbols two_symbols-IsIndexed (bytes "run") core

find_symbol_id-renamed_example :
    find_symbol_id backend
      (add_symbol backend sample (symbol_at main_id (bytes "start") cli))
      (bytes "main")
      none
    ≡ err (ambiguous_symbol (bytes "main") [])
unfolding get eqb
find_symbol_id-renamed_example =
    find_symbol_id-renamed backend sample main_symbol (symbol_at main_id (bytes "start") cli) refl
      refl (ground arith) refl
