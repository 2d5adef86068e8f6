-- ===== src/SymbolId.antt =====
-- crates/openinvar-core/src/symbol_id.rs: how a symbol id and a placeholder id are spelled, and how
-- they are read back.
pub mod RoundTrip
use open_invar.Prelude.{
  ℕ, ◌+◌, Bool, true, false, ◌&&◌, ◌||◌, Option, none, some, List, [], ◌∷◌, ◌++◌, length, leb, Text,
  bytes, find, rfind, slice, take, drop, strip_prefix, strip_suffix, starts_with, Run, returns,
  panics, if◌then◌else◌,
}
use open_invar.Ir.{
  SymbolId, Symbol, SymbolKind, Language, class, interface, type_alias, function, method, property,
  variable, file_module, enum, enum_variant, external_package,
}

abbrev pub unresolved_import_prefix : Text
unresolved_import_prefix = bytes "unresolved_import"

abbrev pub unresolved_local_type_prefix : Text
unresolved_local_type_prefix = bytes "unresolved_local_type"

abbrev pub separator : Text
separator = bytes "::"

unfoldable pub kind_suffix : SymbolKind → Text
kind_suffix class = bytes "class"
kind_suffix interface = bytes "interface"
kind_suffix type_alias = bytes "type_alias"
kind_suffix function = bytes "function"
kind_suffix method = bytes "method"
kind_suffix property = bytes "property"
kind_suffix variable = bytes "variable"
kind_suffix file_module = bytes "module"
kind_suffix enum = bytes "enum"
kind_suffix enum_variant = bytes "enum_variant"
kind_suffix external_package = bytes "package"

unfoldable pub make_symbol_id : Text → Text → SymbolKind → SymbolId
make_symbol_id file name kind = file ++ (separator ++ (name ++ (separator ++ kind_suffix kind)))

unfoldable pub module_symbol_id : Text → SymbolId
unfolding make_symbol_id kind_suffix
module_symbol_id file = make_symbol_id file (bytes "module") file_module

unfoldable pub module_symbol : Text → Language → Symbol
unfolding module_symbol_id
module_symbol f l = record {
  id = module_symbol_id f;
  name = bytes "module";
  kind = file_module;
  language = l;
  file = f;
  line_start = 1;
  line_end = 1;
  signature = none;
}

-- The slices `(&id[..first], &id[first + 2..last], &id[last + 2..])`, evaluated in order.
unfoldable pub split_at : Text → ℕ → ℕ → Run (Option (Text × Text × Text))
split_at id first last = elim (slice id 0 first) [
  | panics ↦ panics
  | returns file ↦ elim (slice id (first + 2) last) [
    | panics ↦ panics
    | returns name ↦ elim (slice id (last + 2) (length id)) [
      | panics ↦ panics
      | returns suffix ↦ returns (some (file, name, suffix))
    ]
  ]
]

unfoldable pub parse_symbol_id : SymbolId → Run (Option (Text × Text × Text))
parse_symbol_id id = elim (find id separator) [
  | none ↦ returns none
  | some first ↦ elim (rfind id separator) [
    | none ↦ returns none
    | some last ↦ if leb last first then returns none else split_at id first last
  ]
]

unfoldable pub symbol_name_of : SymbolId → Run (Option Text)
symbol_name_of id = elim (parse_symbol_id id) [
  | panics ↦ panics
  | returns none ↦ returns none
  | returns (some (file, name, suffix)) ↦ returns (some name)
]

unfoldable pub unresolved_import_id : Text → Text → SymbolId
unresolved_import_id modul symbol =
    unresolved_import_prefix ++ (bytes "|" ++ (modul ++ (bytes "|" ++ symbol)))

-- The cut is inside the text and one byte wide, so the two slices do not panic.
unfoldable pub parse_unresolved_import_id : SymbolId → Option (Text × Text)
parse_unresolved_import_id raw = elim (strip_prefix raw unresolved_import_prefix) [
  | none ↦ none
  | some tail ↦ elim (strip_prefix tail (bytes "|")) [
    | none ↦ none
    | some rest ↦ elim (rfind rest (bytes "|")) [
      | none ↦ none
      | some cut ↦ some (take cut rest, drop (cut + 1) rest)
    ]
  ]
]

unfoldable pub unresolved_local_type_id : Text → SymbolId
unresolved_local_type_id type_name = unresolved_local_type_prefix ++ (bytes "|" ++ type_name)

unfoldable pub parse_unresolved_local_type_id : SymbolId → Option Text
parse_unresolved_local_type_id raw = elim (strip_prefix raw unresolved_local_type_prefix) [
  | none ↦ none
  | some tail ↦ strip_prefix tail (bytes "|")
]

unfoldable pub is_placeholder : SymbolId → Bool
is_placeholder id =
    starts_with id unresolved_import_prefix || starts_with id unresolved_local_type_prefix

unfoldable pub external_package_id : Text → SymbolId
external_package_id package_name = bytes "ext" ++ (separator ++ (package_name ++ bytes "::package"))

-- `id.ends_with("::package")` is a suffix that can be stripped.
unfoldable pub is_external_package : SymbolId → Bool
is_external_package id =
    starts_with id (bytes "ext::")
    && elim (strip_suffix id (bytes "::package")) [ none ↦ false | some rest ↦ true ]

unfoldable pub parse_external_package_id : SymbolId → Option Text
parse_external_package_id id = elim (strip_prefix id (bytes "ext::")) [
  | none ↦ none
  | some rest ↦ strip_suffix rest (bytes "::package")
]
