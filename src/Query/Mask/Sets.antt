-- ===== src/Query/Mask/Sets.antt =====
-- crates/openinvar-core/src/query.rs: the masks as sets of kinds.
use open_invar.Prelude.{
  ◌<◌, ◌≡◌, ◌↔◌, ◌⊎◌, true, false, some, List, [], ◌∷◌, foldl, In, arith, eqb, list_ord, nat_ord,
}
use open_invar.Ir.{
  RelationshipKind, imports, calls, extends, implements, uses_type, accesses_property, re_exports,
  instantiates, tests,
}
use open_invar.RuleEval.Edges.{kind_name}
use open_invar.Query.Mask.{
  parse_kind, first_named, bit_value, RelationshipKindMask, contains, with_kind, from_kinds,
  no_bits,
}

contains-with_kind :
    (m : RelationshipKindMask) (k j : RelationshipKind)
    → (contains (with_kind m k) j ≡ true) ↔ ((contains m j ≡ true) ⊎ (j ≡ k))
unfolding contains with_kind bit_value
contains-with_kind m imports j = ground arith
contains-with_kind m calls j = ground arith
contains-with_kind m extends j = ground arith
contains-with_kind m implements j = ground arith
contains-with_kind m uses_type j = ground arith
contains-with_kind m accesses_property j = ground arith
contains-with_kind m re_exports j = ground arith
contains-with_kind m instantiates j = ground arith
contains-with_kind m tests j = ground arith

with_kind_bound :
    (m : RelationshipKindMask) (k : RelationshipKind) → m.bits < 512 → (with_kind m k).bits < 512
unfolding with_kind contains bit_value
with_kind_bound m imports h = ground arith
with_kind_bound m calls h = ground arith
with_kind_bound m extends h = ground arith
with_kind_bound m implements h = ground arith
with_kind_bound m uses_type h = ground arith
with_kind_bound m accesses_property h = ground arith
with_kind_bound m re_exports h = ground arith
with_kind_bound m instantiates h = ground arith
with_kind_bound m tests h = ground arith

fold_lem :
    (m : RelationshipKindMask) (ks : List RelationshipKind) (j : RelationshipKind)
    → m.bits < 512
    → ((contains (foldl with_kind m ks) j ≡ true) ↔ ((contains m j ≡ true) ⊎ In j ks))
      × ((foldl with_kind m ks).bits < 512)
fold_lem m [] j h = ground arith
fold_lem m (k ∷ ks) j h = ground (
  arith,
  contains-with_kind m k j,
  with_kind_bound m k h,
  fold_lem (with_kind m k) ks j (with_kind_bound m k h),
)

-- The mask of a list of kinds holds exactly the kinds of the list, and fits in the nine bits that kinds
-- have of the sixteen.
pub from_kinds_refines :
    (ks : List RelationshipKind) (j : RelationshipKind)
    → ((contains (from_kinds ks) j ≡ true) ↔ In j ks) × ((from_kinds ks).bits < 512)
unfolding from_kinds
from_kinds_refines ks j =
    let nothing : contains no_bits j ≡ false = unfold no_bits in unfold contains in ground arith in
    let small : no_bits.bits < 512 = unfold no_bits in omega arith in
    ground (arith, nothing, fold_lem no_bits ks j small)

-- A kind is read back from its name.
pub parse_kind-kind_name : (k : RelationshipKind) → parse_kind (kind_name k) ≡ some k
unfolding parse_kind first_named kind_name eqb
parse_kind-kind_name k = ground arith
