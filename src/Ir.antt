-- ===== src/Ir.antt =====
-- crates/openinvar-core/src/ir.rs: symbols, relationships and what one file contributes.
-- `Module` is spelled `file_module`, a reserved word being no name.
use open_invar.Prelude.{
  ℕ, ◌≡◌, Bool, true, false, Option, List, Map, Text, arith, leb, Ord, ord_by, nat_ord,
}

abbrev pub SymbolId : Type 0
SymbolId = Text

pub data SymbolKind : Type 0 where
  class interface type_alias function method property variable file_module enum enum_variant
        external_package :
      SymbolKind

pub data Language : Type 0 where
  type_script java_script python rust go java c cpp ruby php c_sharp kotlin swift sql lua : Language

pub record Symbol : Type 0 where
  pub id : SymbolId
  pub name : Text
  pub kind : SymbolKind
  pub language : Language
  pub file : Text
  pub line_start : ℕ
  pub line_end : ℕ
  pub signature : Option Text

pub data Resolution : Type 0 where
  structural resolved : Resolution

unfoldable pub rank : Resolution → ℕ
rank structural = 0
rank resolved = 1

-- At least as strong as `floor`.
unfoldable pub meets : Resolution → Resolution → Bool
unfolding rank
meets r floor = leb (rank floor) (rank r)

unfoldable pub is_gate_safe : Resolution → Bool
is_gate_safe structural = false
is_gate_safe resolved = true

-- `Resolution::default()`
unfoldable pub default_resolution : Resolution
default_resolution = structural

pub data RelationshipKind : Type 0 where
  imports calls extends implements uses_type accesses_property re_exports instantiates tests :
      RelationshipKind

pub record Relationship : Type 0 where
  pub from : SymbolId
  pub to : SymbolId
  pub kind : RelationshipKind
  pub alias : Option Text
  pub properties_accessed : List Text
  pub context : Text
  pub file : Text
  pub line : ℕ
  pub resolution : Resolution

pub record ReExportEntry : Type 0 where
  pub exported_name : Text
  pub source_module : Text

pub data DiagnosticLevel : Type 0 where
  error warning info : DiagnosticLevel

pub data DiagnosticCategory : Type 0 where
  parse resolution skip policy : DiagnosticCategory

pub record Diagnostic : Type 0 where
  pub level : DiagnosticLevel
  pub category : DiagnosticCategory
  pub message : Text
  pub file : Option Text
  pub line : Option ℕ

pub record FileIr : Type 0 where
  pub file : Text
  pub language : Language
  pub symbols : List Symbol
  pub relationships : List Relationship
  pub diagnostics : List Diagnostic
  pub re_exports : List ReExportEntry
  pub assertions : Map Text ℕ
  pub assertions_counted : Bool
  pub unbound_references : ℕ
  pub unbound_outside_repository : ℕ
  pub references_counted : Bool

-- The order of declaration, which the derived `Ord` and `Eq` of these types go by.
abbrev pub symbol_kind_rank : SymbolKind → ℕ
symbol_kind_rank class = 0
symbol_kind_rank interface = 1
symbol_kind_rank type_alias = 2
symbol_kind_rank function = 3
symbol_kind_rank method = 4
symbol_kind_rank property = 5
symbol_kind_rank variable = 6
symbol_kind_rank file_module = 7
symbol_kind_rank enum = 8
symbol_kind_rank enum_variant = 9
symbol_kind_rank external_package = 10

abbrev pub relationship_kind_rank : RelationshipKind → ℕ
relationship_kind_rank imports = 0
relationship_kind_rank calls = 1
relationship_kind_rank extends = 2
relationship_kind_rank implements = 3
relationship_kind_rank uses_type = 4
relationship_kind_rank accesses_property = 5
relationship_kind_rank re_exports = 6
relationship_kind_rank instantiates = 7
relationship_kind_rank tests = 8

abbrev pub language_rank : Language → ℕ
language_rank type_script = 0
language_rank java_script = 1
language_rank python = 2
language_rank rust = 3
language_rank go = 4
language_rank java = 5
language_rank c = 6
language_rank cpp = 7
language_rank ruby = 8
language_rank php = 9
language_rank c_sharp = 10
language_rank kotlin = 11
language_rank swift = 12
language_rank sql = 13
language_rank lua = 14

pub language_rank_inj : (a b : Language) → language_rank a ≡ language_rank b → a ≡ b
language_rank_inj a b h = ground arith

pub symbol_kind_rank_inj : (a b : SymbolKind) → symbol_kind_rank a ≡ symbol_kind_rank b → a ≡ b
symbol_kind_rank_inj a b h = ground arith

pub relationship_kind_rank_inj :
    (a b : RelationshipKind) → relationship_kind_rank a ≡ relationship_kind_rank b → a ≡ b
relationship_kind_rank_inj a b h = ground arith

pub rank_inj : (a b : Resolution) → rank a ≡ rank b → a ≡ b
unfolding rank
rank_inj a b h = ground arith

instance abbrev pub language_ord : Ord Language
language_ord = ord_by nat_ord language_rank language_rank_inj

instance abbrev pub symbol_kind_ord : Ord SymbolKind
symbol_kind_ord = ord_by nat_ord symbol_kind_rank symbol_kind_rank_inj

instance abbrev pub relationship_kind_ord : Ord RelationshipKind
relationship_kind_ord = ord_by nat_ord relationship_kind_rank relationship_kind_rank_inj

instance abbrev pub resolution_ord : Ord Resolution
resolution_ord = ord_by nat_ord rank rank_inj

-- A gate may draw on an edge exactly when its resolution meets `Resolved`.
pub meets-resolved : (r : Resolution) → meets r resolved ≡ is_gate_safe r
unfolding meets is_gate_safe
meets-resolved r = ground arith
