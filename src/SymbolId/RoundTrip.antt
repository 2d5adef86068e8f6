-- ===== src/SymbolId/RoundTrip.antt =====
-- symbol_id.rs: what is minted is read back.
use open_invar.Prelude.{
  ℕ, ◌+◌, ◌≡◌, refl, ap, ◌∙◌, true, false, none, some, [], ◌∷◌, ◌++◌, length, length-append, arith,
  Text, bytes, find, rfind, slice, slice-middle, drop_past, sym, leb, drop, take-append,
  strip_suffix-append, returns,
}
use open_invar.Ir.{SymbolKind, class}
use mathlib.Core.List.{append_assoc, append-nil}
use mathlib.Core.Path.{ap₂}
use open_invar.SymbolId.{
  separator, kind_suffix, make_symbol_id, split_at, parse_symbol_id, unresolved_import_id,
  parse_unresolved_import_id, unresolved_local_type_id, parse_unresolved_local_type_id,
  is_placeholder, external_package_id, is_external_package, parse_external_package_id,
}

-- The first separator of `file::rest` stands right behind a file that holds none.
find-separator :
    (file rest : Text)
    → find (file ++ bytes ":") separator ≡ none
    → find (file ++ (separator ++ rest)) separator ≡ some (length file)
unfolding find
find-separator [] rest h = refl
find-separator (c ∷ []) rest h = ground arith
find-separator (c ∷ d ∷ file) rest h = ground (arith, find-separator (d ∷ file) rest)

rfind-append :
    (text tail : Text) (i : ℕ) (p : Text)
    → rfind tail p ≡ some i
    → rfind (text ++ tail) p ≡ some (length text + i)
unfolding rfind
rfind-append [] tail i p h = h ∙ ap some (omega arith)
rfind-append (c ∷ text) tail i p h = rw (rfind-append text tail i p h) (ap some (omega arith))

rfind-suffix : (kind : SymbolKind) → rfind (separator ++ kind_suffix kind) separator ≡ some 0
unfolding rfind kind_suffix
rfind-suffix class = refl
rfind-suffix _ = refl

split_at-parts :
    (file name suffix : Text) (last : ℕ)
    → last ≡ length file + 2 + length name
    → split_at (file ++ (separator ++ (name ++ (separator ++ suffix)))) (length file) last
      ≡ returns (some (file, name, suffix))
unfolding split_at
split_at-parts file name suffix last e =
    let end = separator ++ suffix in
    let whole = file ++ (separator ++ (name ++ end)) in
    let front = file ++ separator in
    let front_length : length front ≡ length file + 2 = length-append file separator in
    let by_name : whole ≡ front ++ (name ++ end) =
      sym (append_assoc file separator (name ++ end)) in
    let by_suffix : whole ≡ (front ++ (name ++ separator)) ++ (suffix ++ []) =
      simp (append_assoc, append-nil) refl in
    let before : length (front ++ (name ++ separator)) ≡ length file + 2 + (length name + 2) =
      length-append front (name ++ separator)
      ∙ ap₂ (λ a b. a + b) front_length (length-append name separator) in
    let total : length whole ≡ length (front ++ (name ++ separator)) + length suffix =
      ap length by_suffix
      ∙ length-append (front ++ (name ++ separator)) (suffix ++ [])
      ∙ ap (λ t. length (front ++ (name ++ separator)) + length t) (append-nil suffix) in
    let first : slice whole 0 (length file) ≡ returns file =
      slice-middle [] file (separator ++ (name ++ end)) 0 (length file) refl (omega arith) in
    let second : slice whole (length file + 2) last ≡ returns name =
      ap (λ t. slice t (length file + 2) last) by_name
      ∙ slice-middle front name end (length file + 2) last (sym front_length) (omega arith) in
    let third : slice whole (last + 2) (length whole) ≡ returns suffix =
      ap (λ t. slice t (last + 2) (length whole)) by_suffix
      ∙ slice-middle (front ++ (name ++ separator)) suffix [] (last + 2) (length whole)
          (omega arith) (omega arith) in
    rw (first, split_at) (rw (second, third) refl)

-- A minted id is read back as its file, name and kind, whatever the name, if no separator starts
-- inside the file or at its end.
pub parse_symbol_id-make_symbol_id :
    (file name : Text) (kind : SymbolKind)
    → find (file ++ bytes ":") separator ≡ none
    → parse_symbol_id (make_symbol_id file name kind)
      ≡ returns (some (file, name, kind_suffix kind))
unfolding parse_symbol_id make_symbol_id
parse_symbol_id-make_symbol_id file name kind h =
    let end = separator ++ kind_suffix kind in
    let id = file ++ (separator ++ (name ++ end)) in
    let front = file ++ (separator ++ name) in
    let split : id ≡ front ++ end = simp append_assoc refl in
    let front_length : length front ≡ length file + (2 + length name) =
      length-append file (separator ++ name)
      ∙ ap (λ n. length file + n) (length-append separator name) in
    let last : rfind id separator ≡ some (length front + 0) =
      ap (λ t. rfind t separator) split ∙ rfind-append front end 0 separator (rfind-suffix kind) in
    let after : leb (length front + 0) (length file) ≡ false = ground arith in
    rw (find-separator file (name ++ end) h, parse_symbol_id)
      (rw (last, after)
        (split_at-parts file name (kind_suffix kind) (length front + 0) (omega arith)))

rfind_of_find : (text p : Text) → find text p ≡ none → rfind text p ≡ none
unfolding find rfind
rfind_of_find [] p h = h
rfind_of_find (c ∷ text) p h = ground (arith, rfind_of_find text p)

rfind-bar :
    (symbol : Text)
    → find symbol (bytes "|") ≡ none
    → rfind (bytes "|" ++ symbol) (bytes "|") ≡ some 0
unfolding rfind
rfind-bar symbol h = rw (rfind_of_find symbol (bytes "|") h) refl

-- An import placeholder is read back, also where the module holds bars or is empty, if the symbol
-- holds none.
pub parse_unresolved_import_id-unresolved_import_id :
    (modul symbol : Text)
    → find symbol (bytes "|") ≡ none
    → parse_unresolved_import_id (unresolved_import_id modul symbol) ≡ some (modul, symbol)
unfolding parse_unresolved_import_id unresolved_import_id
parse_unresolved_import_id-unresolved_import_id modul symbol h =
    let cut : rfind (modul ++ (bytes "|" ++ symbol)) (bytes "|") ≡ some (length modul + 0) =
      rfind-append modul (bytes "|" ++ symbol) 0 (bytes "|") (rfind-bar symbol h) in
    let tail : drop (length modul + 1) (modul ++ (bytes "|" ++ symbol)) ≡ symbol =
      drop_past modul (bytes "|" ++ symbol) 1 (length modul + 1) refl in
    let plain : length modul + 0 ≡ length modul = omega arith in
    rw (cut, parse_unresolved_import_id) (rw (plain, tail, take-append) refl)

-- A placeholder for a local type is recognised as one and is read back.
pub parse_unresolved_local_type_id-unresolved_local_type_id :
    (type_name : Text)
    → (parse_unresolved_local_type_id (unresolved_local_type_id type_name) ≡ some type_name)
      × (is_placeholder (unresolved_local_type_id type_name) ≡ true)
unfolding parse_unresolved_local_type_id unresolved_local_type_id is_placeholder
parse_unresolved_local_type_id-unresolved_local_type_id type_name = (refl, refl)

-- The id of an external package is recognised as one, is no placeholder, and is read back.
pub parse_external_package_id-external_package_id :
    (package_name : Text)
    → (parse_external_package_id (external_package_id package_name) ≡ some package_name)
      × (is_external_package (external_package_id package_name) ≡ true)
      × (is_placeholder (external_package_id package_name) ≡ false)
unfolding parse_external_package_id external_package_id is_external_package is_placeholder
parse_external_package_id-external_package_id p =
    let whole = bytes "ext::" ++ p in
    (
      strip_suffix-append p (bytes "::package"),
      rw (strip_suffix-append whole (bytes "::package")) refl,
      refl,
    )
