-- ===== src/Delta.antt =====
-- crates/openinvar-core/src/delta.rs: what changed between two graphs.
pub mod Edges
pub mod Pairing
pub mod Compute
use open_invar.Prelude.{
  ℕ, Bool, true, false, ◌&&◌, ◌||◌, not, any, List, [], ◌∷◌, ◌++◌, map, foldl, Text, eqb,
  set_insert, Ord, ord_by, ◌≡◌, ap, nat_ord, list_ord, pair_ord, arith,
}
use open_invar.Ir.{
  Symbol, RelationshipKind, Resolution, resolved, relationship_kind_ord, resolution_ord,
}

pub record EdgeRef : Type 0 where
  pub from : Text
  pub to : Text
  pub kind : RelationshipKind
  pub file : Text
  pub line : ℕ
  pub resolution : Resolution

pub data Continuation : Type 0 where
  renamed moved renamed_and_moved : Continuation

abbrev pub continuation_rank : Continuation → ℕ
continuation_rank renamed = 0
continuation_rank moved = 1
continuation_rank renamed_and_moved = 2

pub continuation_rank_inj : (a b : Continuation) → continuation_rank a ≡ continuation_rank b → a ≡ b
continuation_rank_inj a b h = ground arith

instance abbrev pub continuation_ord : Ord Continuation
continuation_ord = ord_by nat_ord continuation_rank continuation_rank_inj

-- The derived order of an edge goes by its fields, in the order of their declaration.
abbrev pub EdgeFields : Type 0
EdgeFields = Text × (Text × (RelationshipKind × (Text × (ℕ × Resolution))))

abbrev pub edge_fields : EdgeRef → EdgeFields
edge_fields e = (e.from, (e.to, (e.kind, (e.file, (e.line, e.resolution)))))

abbrev of_edge_fields : EdgeFields → EdgeRef
of_edge_fields (from, (to, (kind, (file, (line, resolution))))) = record {
  from = from;
  to = to;
  kind = kind;
  file = file;
  line = line;
  resolution = resolution;
}

instance abbrev pub edge_ref_ord : Ord EdgeRef
edge_ref_ord = ord_by pair_ord edge_fields (λ a b h. ap of_edge_fields h)

pub record Continuity : Type 0 where
  pub before : Symbol
  pub after : Symbol
  pub how : Continuation

pub record SignatureChange : Type 0 where
  pub before : Symbol
  pub after : Symbol

pub record GraphDelta : Type 0 where
  pub added_symbols : List Symbol
  pub removed_symbols : List Symbol
  pub continuities : List Continuity
  pub signature_changes : List SignatureChange
  pub added_edges : List EdgeRef
  pub removed_edges : List EdgeRef

abbrev nothing {ℓ} : {A : Type ℓ} → List A → Bool
nothing [] = true
nothing (x ∷ xs) = false

-- `GraphDelta::is_empty`
unfoldable pub is_empty : GraphDelta → Bool
is_empty delta =
    nothing delta.added_symbols
    && (nothing delta.removed_symbols
        && (nothing delta.continuities
            && (nothing delta.signature_changes
                && (nothing delta.added_edges && nothing delta.removed_edges))))

unfoldable pub removed_symbol_ids : GraphDelta → List Text
removed_symbol_ids delta = foldl (λ ids (s : Symbol). set_insert s.id ids) [] delta.removed_symbols

unfoldable pub has_resolved_changes : GraphDelta → Bool
has_resolved_changes delta =
    any (λ (e : EdgeRef). eqb e.resolution resolved) (delta.added_edges ++ delta.removed_edges)
    || (not (nothing delta.added_symbols) || not (nothing delta.removed_symbols))

unfoldable pub edge_kinds : GraphDelta → List RelationshipKind
edge_kinds delta =
    foldl (λ kinds (e : EdgeRef). set_insert e.kind kinds) []
      (delta.added_edges ++ delta.removed_edges)
