-- ===== src/Delta/Compute/Keyed.antt =====
-- crates/openinvar-core/src/delta.rs: the symbols of a graph by id, and those that another graph lacks.
use open_invar.Prelude.{
  if◌then◌else◌, ◌≡◌, refl, ◌≢◌, inl, inr, none, some, [], ◌∷◌, All, All-map, All-at, In, Map, get,
  contains_key, tree_insert, get-tree_insert, IsStrict, tree_insert-IsStrict, get_entries, get-In,
  eqb_iff, Option-cases, arith, nat_ord, list_ord, option_ord,
}
use open_invar.Ir.{SymbolId, Symbol}
use open_invar.Delta.Compute.{collected, symbols_by_id, missing_from, changed_signatures}

-- Each symbol stands once, under its own id.
abbrev pub IsKeyed : Map SymbolId Symbol → Type 0
IsKeyed symbols = All (λ e. (get symbols e.0 ≡ some e.1) × (e.1.id ≡ e.0)) symbols

collected-IsStrict : (m rest : Map SymbolId Symbol) → IsStrict m → IsStrict (collected m rest)
unfolding collected
collected-IsStrict m [] h = h
collected-IsStrict m ((id, s) ∷ rest) h =
    collected-IsStrict (tree_insert m id s) rest (tree_insert-IsStrict m id s h)

pub symbols_by_id-entries :
    (symbols : Map SymbolId Symbol)
    → All (λ e. get (symbols_by_id symbols) e.0 ≡ some e.1) (symbols_by_id symbols)
symbols_by_id-entries symbols =
    get_entries (symbols_by_id symbols) (collected-IsStrict [] symbols tt)

get-collected :
    (symbols m rest : Map SymbolId Symbol) (id : SymbolId)
    → All (λ e. get symbols e.0 ≡ some e.1) rest
    → get (collected m rest) id ≡ (if contains_key rest id then get symbols id else get m id)
unfolding collected get
get-collected symbols m [] id h = refl
get-collected symbols m ((j, s) ∷ rest) id h = ground (
  arith,
  h.0,
  get-collected symbols (tree_insert m j s) rest id h.1,
  get-tree_insert m j id s,
  eqb_iff j id,
)

-- Looking up an id gives the same before and after the symbols are put in order.
pub get-symbols_by_id :
    (symbols : Map SymbolId Symbol) (id : SymbolId)
    → IsKeyed symbols
    → get (symbols_by_id symbols) id ≡ get symbols id
unfolding get
get-symbols_by_id symbols id keyed =
    let found = get-collected symbols [] symbols id (All-map _ _ symbols (λ e h. h.0) keyed) in
    ground (arith, found)

pub keyed_at :
    (symbols : Map SymbolId Symbol) (id : SymbolId) (s : Symbol)
    → IsKeyed symbols
    → get symbols id ≡ some s
    → s.id ≡ id
keyed_at symbols id s keyed h =
    (All-at (λ e. (get symbols e.0 ≡ some e.1) × (e.1.id ≡ e.0)) (id, s) symbols keyed
      (get-In symbols id s h)).1

pub All-missing_from :
    (Q : Symbol → Type 0) (other m : Map SymbolId Symbol)
    → All (λ e. get other e.0 ≡ none → Q e.1) m
    → All Q (missing_from other m)
unfolding missing_from
All-missing_from Q other [] h = tt
All-missing_from Q other ((id, t) ∷ m) h = elim (Option-cases (get other id)) [
  | inl lacks ↦ rw (missing_from, lacks) (h.0 lacks, All-missing_from Q other m h.1)
  | inr (u, has) ↦ rw (missing_from, has) (All-missing_from Q other m h.1)
]

pub missing_from-In :
    (other m : Map SymbolId Symbol) (id : SymbolId) (s : Symbol)
    → In (id, s) m
    → get other id ≡ none
    → In s (missing_from other m)
unfolding missing_from
missing_from-In other [] id s h lacks = absurd h
missing_from-In other ((j, t) ∷ m) id s h lacks =
    ground (arith, h, lacks, missing_from-In other m id s)

pub missing_from_none :
    (other m : Map SymbolId Symbol)
    → All (λ e. get other e.0 ≡ some e.1) m
    → missing_from other m ≡ []
unfolding missing_from
missing_from_none other [] h = refl
missing_from_none other ((id, t) ∷ m) h = rw (missing_from, h.0) (missing_from_none other m h.1)

pub changed_signatures_none :
    (other m : Map SymbolId Symbol)
    → All (λ e. get other e.0 ≡ some e.1) m
    → changed_signatures other m ≡ []
unfolding changed_signatures
changed_signatures_none other [] h = refl
changed_signatures_none other ((id, t) ∷ m) h =
    rw (changed_signatures, h.0, (eqb_iff t.signature t.signature).1 refl)
      (changed_signatures_none other m h.1)

pub changed_signatures-In :
    (other m : Map SymbolId Symbol) (id : SymbolId) (s t : Symbol)
    → In (id, s) m
    → get other id ≡ some t
    → t.signature ≢ s.signature
    → In (record { before = s; after = t }) (changed_signatures other m)
unfolding changed_signatures
changed_signatures-In other [] id s t h has differ = absurd h
changed_signatures-In other ((j, u) ∷ m) id s t h has differ =
    ground
      (arith, h, has, differ, eqb_iff t.signature s.signature, changed_signatures-In other m id s t)
