-- ===== src/Graph/Indexed.antt =====
-- crates/openinvar-core/src/graph.rs: the indexes by name and by file, and the symbols.
pub mod Ids
pub mod Kept
use open_invar.Prelude.{
  ℕ, ◌≡◌, ◌≢◌, refl, subst, ◌↔◌, ◌⊎◌, inl, inr, Bool, true, false, not, ◌&&◌, Option, none, some,
  List, [], ◌∷◌, Text, Map, In, get, insert, get-insert, contains_key, is_some, unwrap_or, eqb,
  eqb_iff, if◌then◌else◌, arith, Option-cases, Bool-cases, list_ord, nat_ord,
}
use open_invar.Ir.{SymbolId, Symbol, Relationship}
use open_invar.Petgraph.{Petgraph}
use open_invar.Graph.{
  Backend, InvarGraph, new, add_symbol, replace_symbol, with_package, add_relationship, push_id,
  rekey, package_symbol,
}
use open_invar.Graph.Indexed.Ids.{ids_of, In-push_id, In-rekey}

-- A key of the symbol with an id, if the graph has one.
abbrev pub key_of : (Symbol → Text) → Map SymbolId Symbol → SymbolId → Option Text
key_of key symbols id = elim (get symbols id) [ none ↦ none | some s ↦ some (key s) ]

abbrev pub name_key : Symbol → Text
name_key s = s.name

abbrev pub file_key : Symbol → Text
file_key s = s.file

-- An index lists exactly the ids of the symbols with a key under that key.
abbrev pub Agrees : (Symbol → Text) → Map Text (List SymbolId) → Map SymbolId Symbol → Type 0
Agrees key index symbols =
    (k : Text) (id : SymbolId) → In id (ids_of index k) ↔ (key_of key symbols id ≡ some k)

module _ (P : Backend) where
  pub record IsIndexed (g : InvarGraph P) : Type 0 where
    pub names : Agrees name_key g.name_index g.symbols
    pub files : Agrees file_key g.file_index g.symbols
    pub nodes : (id : SymbolId) → contains_key g.node_index id ≡ contains_key g.symbols id

pub key_of-insert :
    (key : Symbol → Text) (symbols : Map SymbolId Symbol) (s : Symbol) (id : SymbolId)
    → key_of key (insert symbols s.id s) id
      ≡ (if eqb s.id id then some (key s) else key_of key symbols id)
key_of-insert key symbols s id = ground (arith, get-insert symbols s.id id s)

-- A symbol under a new id.
pub push-Agrees :
    (key : Symbol → Text) (index : Map Text (List SymbolId)) (symbols : Map SymbolId Symbol)
    (s : Symbol)
    → get symbols s.id ≡ none
    → Agrees key index symbols
    → Agrees key (push_id index (key s) s.id) (insert symbols s.id s)
push-Agrees key index symbols s fresh agrees k id = ground (
  arith,
  In-push_id index (key s) s.id k id,
  key_of-insert key symbols s id,
  eqb_iff s.id id,
  agrees k id,
  fresh,
)

-- Another symbol under an id that is there.
module _ (key : Symbol → Text) (index : Map Text (List SymbolId)) (symbols : Map SymbolId Symbol)
    (old s : Symbol) (there : get symbols s.id ≡ some old) (agrees : Agrees key index symbols) where
  at_self : (k : Text) → In s.id (ids_of (rekey index (key old) (key s) s.id) k) ↔ (key s ≡ k)
  at_self k = ground (
    arith,
    In-rekey index (key old) (key s) s.id k s.id,
    agrees k s.id,
    there,
    eqb_iff (key old) (key s),
    Bool-cases (eqb (key old) (key s)),
  )

  at_other :
      (k : Text) (id : SymbolId)
      → id ≢ s.id
      → In id (ids_of (rekey index (key old) (key s) s.id) k) ↔ (key_of key symbols id ≡ some k)
  at_other k id other =
      ground (arith, In-rekey index (key old) (key s) s.id k id, agrees k id, other)

  pub rekey-Agrees : Agrees key (rekey index (key old) (key s) s.id) (insert symbols s.id s)
  rekey-Agrees k id = elim (Bool-cases (eqb s.id id)) [
    | inl same ↦
        subst
          (λ i.
            In i (ids_of (rekey index (key old) (key s) s.id) k)
            ↔ (key_of key (insert symbols s.id s) i ≡ some k))
          ((eqb_iff s.id id).0 same)
          (ground (arith, at_self k, key_of-insert key symbols s s.id, eqb_iff s.id s.id))
    | inr other ↦
        ground (arith, at_other k id, key_of-insert key symbols s id, eqb_iff s.id id, other)
  ]
