-- ===== src/Query/Mask.antt =====
-- crates/openinvar-core/src/query.rs: `RelationshipKindMask`, a set of relationship kinds in the bits of a
-- `u16`. Bit `b` of a number is `m / 2 ^ b % 2`, and setting a bit that is not set adds `2 ^ b`.
pub mod Sets
use open_invar.Prelude.{
  ℕ, ◌+◌, ◌/◌, ◌%◌, Bool, true, false, not, ◌==◌, if◌then◌else◌, Option, none, some, List, [], ◌∷◌,
  foldl, all, retain, Text, eqb, list_ord, nat_ord,
}
use open_invar.Ir.{
  RelationshipKind, imports, calls, extends, implements, uses_type, accesses_property, re_exports,
  instantiates, tests,
}
use open_invar.RuleEval.Edges.{kind_name}

abbrev pub all_kinds : List RelationshipKind
all_kinds =
    imports ∷ calls ∷ extends ∷ implements ∷ uses_type ∷ accesses_property ∷ re_exports
    ∷ instantiates ∷ tests ∷ []

unfoldable pub first_named : Text → List RelationshipKind → Option RelationshipKind
first_named name [] = none
first_named name (k ∷ ks) =
    let rest = first_named name ks in if eqb (kind_name k) name then some k else rest

unfoldable pub parse_kind : Text → Option RelationshipKind
unfolding first_named
parse_kind name = first_named name all_kinds

pub record RelationshipKindMask : Type 0 where
  pub bits : ℕ

-- `1 << Self::bit(kind)`
unfoldable pub bit_value : RelationshipKind → ℕ
bit_value imports = 1
bit_value calls = 2
bit_value extends = 4
bit_value implements = 8
bit_value uses_type = 16
bit_value accesses_property = 32
bit_value re_exports = 64
bit_value instantiates = 128
bit_value tests = 256

-- `u16::MAX`
unfoldable pub all_bits : RelationshipKindMask
all_bits = record { bits = 65535 }

unfoldable pub no_bits : RelationshipKindMask
no_bits = record { bits = 0 }

unfoldable pub contains : RelationshipKindMask → RelationshipKind → Bool
unfolding bit_value
contains m kind = not (m.bits / bit_value kind % 2 == 0)

unfoldable pub with_kind : RelationshipKindMask → RelationshipKind → RelationshipKindMask
unfolding contains bit_value
with_kind m kind = if contains m kind then m else record { bits = m.bits + bit_value kind }

unfoldable pub from_kinds : List RelationshipKind → RelationshipKindMask
unfolding with_kind no_bits
from_kinds kinds = foldl with_kind no_bits kinds

unfoldable pub is_all : RelationshipKindMask → Bool
unfolding contains
is_all m = all (contains m) all_kinds

unfoldable pub is_empty : RelationshipKindMask → Bool
unfolding contains
is_empty m = all (λ k. not (contains m k)) all_kinds

unfoldable pub kinds : RelationshipKindMask → List RelationshipKind
unfolding contains
kinds m = retain (contains m) all_kinds
