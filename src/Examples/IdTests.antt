-- ===== src/Examples/IdTests.antt =====
-- Ids at concrete inputs.
use open_invar.Prelude.{◌≡◌, refl, true, some, bytes, find, rfind, slice, returns, panics}
use open_invar.Ir.{class, method}
use open_invar.SymbolId.{kind_suffix, make_symbol_id, split_at, parse_symbol_id, is_placeholder}
use open_invar.SymbolId.RoundTrip.{parse_symbol_id-make_symbol_id}

parse_three_colons : parse_symbol_id (bytes ":::") ≡ panics
unfolding parse_symbol_id split_at find rfind slice
parse_three_colons = refl

parse_symbol_id-make_symbol_id_example :
    parse_symbol_id (make_symbol_id (bytes "src/lib.rs") (bytes "Display::fmt") method)
    ≡ returns (some (bytes "src/lib.rs", bytes "Display::fmt", kind_suffix method))
unfolding find
parse_symbol_id-make_symbol_id_example =
    parse_symbol_id-make_symbol_id (bytes "src/lib.rs") (bytes "Display::fmt") method refl

-- A file whose path starts like a placeholder.
placeholder_like :
    is_placeholder (make_symbol_id (bytes "unresolved_imports.py") (bytes "Check") class) ≡ true
unfolding is_placeholder make_symbol_id
placeholder_like = refl
