-- ===== src/RuleEval/Fields.antt =====
-- rule_eval.rs: `no-field-removal`, which finds the owner of a removed field by position.
pub mod Owner
pub mod Uncompiled
pub mod Order
use open_invar.Prelude.{
  ℕ, Bool, true, false, not, ◌&&◌, Option, none, some, List, [], ◌∷◌, ◌++◌, map, foldl, Map, Text,
  bytes, ltb, leb, if◌then◌else◌, filter_map, values, contains, sort, sort_by, retain, eqb, get,
  tree_insert, unwrap_or, cmp, is_le, list_ord, nat_ord, pair_ord,
}
use open_invar.Ir.{
  SymbolId, Symbol, SymbolKind, property, enum_variant, file_module, symbol_kind_ord,
}
use open_invar.Graph.{Backend, InvarGraph}
use open_invar.Delta.{GraphDelta}
use open_invar.RuleEval.Edges.{Glob, compile}
use open_invar.RuleEval.Sweep.{Violation, violation_ord}

unfoldable pub is_field : SymbolKind → Bool
is_field property = true
is_field enum_variant = true
is_field _ = false

unfoldable pub can_own_fields : Symbol → Bool
unfolding is_field
can_own_fields symbol = not (is_field symbol.kind) && not (eqb symbol.kind file_module)

-- `(c.line_start, c.id)`
abbrev pub position_key : Symbol → ℕ × Text
position_key c = (c.line_start, c.id)

-- `max_by_key(key)`: of equal maxima the last.
unfoldable pub max_by_position : Option Symbol → List Symbol → Option Symbol
max_by_position best [] = best
max_by_position best (c ∷ cs) =
    max_by_position
      (elim best [
        | none ↦ some c
        | some b ↦ if is_le (cmp (position_key b) (position_key c)) then some c else some b
      ])
      cs

unfoldable pub encloses : Symbol → Symbol → Bool
encloses field c =
    ltb c.line_start c.line_end
    && leb c.line_start field.line_start
    && leb field.line_end c.line_end

unfoldable pub owner_of : List Symbol → Symbol → Option Symbol
unfolding max_by_position encloses
owner_of containers field = elim (max_by_position none (retain (encloses field) containers)) [
  | some c ↦ some c
  | none ↦ max_by_position none (retain (λ c. leb c.line_start field.line_start) containers)
]

-- The candidate owners by file: each can own fields and was not removed itself.
unfoldable pub owners_turn :
    List SymbolId → Map Text (List Symbol) → Symbol → Map Text (List Symbol)
unfolding can_own_fields
owners_turn removed_ids by_file symbol =
    if can_own_fields symbol && not (contains removed_ids symbol.id)
    then tree_insert by_file symbol.file (unwrap_or (get by_file symbol.file) [] ++ symbol ∷ [])
    else by_file

unfoldable pub sorted_owners : Map Text (List Symbol) → Text → Option (List Symbol)
sorted_owners by_file file = elim (get by_file file) [
  | none ↦ none
  | some cs ↦ some (sort_by (λ a b. cmp (position_key a) (position_key b)) cs)
]

module _ (G : Glob) (P : Backend) (before : InvarGraph P) where
  -- "field '{name}' removed from '{owner}'"
  unfoldable pub field_breach : Text → Map Text (List Symbol) → Symbol → Option Violation
  unfolding is_field sorted_owners owner_of
  field_breach symbol_glob by_file removed =
      if not (is_field removed.kind) then none else elim (sorted_owners by_file removed.file) [
        | none ↦ none
        | some containers ↦ elim (owner_of containers removed) [
          | none ↦ none
          | some owner ↦
              if not (G.matches (compile G symbol_glob) owner.name)
              then none
              else some record {
                file = removed.file;
                line = removed.line_start;
                symbol = owner.id;
                detail =
                    bytes "field '"
                    ++ (removed.name ++ (bytes "' removed from '" ++ (owner.name ++ bytes "'")));
              }
        ]
      ]

  unfoldable pub no_field_removal : GraphDelta → Text → List Violation
  unfolding owners_turn field_breach
  no_field_removal delta symbol_glob =
      let removed_ids = map (λ (s : Symbol). s.id) delta.removed_symbols in
      let by_file = foldl (owners_turn removed_ids) [] (values before.symbols) in
      sort (filter_map (field_breach symbol_glob by_file) delta.removed_symbols)
