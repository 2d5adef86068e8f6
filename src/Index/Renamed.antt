-- ===== src/Index/Renamed.antt =====
-- crates/openinvar-core/src/index.rs: the lookup of a name that no symbol has any more.
use open_invar.Prelude.{
  ◌≡◌, ◌≢◌, inl, inr, refl, true, not, none, some, List, [], ◌∷◌, Text, Map, get, get-insert, eqb,
  eqb_iff, arith, retain, dedup, sort, sort_by, Option-cases, contains_key, list_ord, nat_ord, ◌++◌,
}
use open_invar.Ir.{SymbolId, Symbol}
use open_invar.Graph.{Backend, InvarGraph, add_symbol, replace_symbol, rekey, push_id, drop_id}
use open_invar.Index.{err, ambiguous_symbol, find_by_name, find_symbol_id, candidate_files}

get-push_id_other :
    (m : Map Text (List SymbolId)) (key k : Text) (id : SymbolId)
    → k ≢ key
    → get (push_id m key id) k ≡ get m k
unfolding push_id
get-push_id_other m key k id apart = elim (Option-cases (get m key)) [
  | inl fresh ↦ ground (arith, fresh, get-insert m key k (id ∷ []), eqb_iff key k, apart)
  | inr (ids, there) ↦
      ground
        (arith, there, get-insert m key k (dedup (sort (ids ++ id ∷ []))), eqb_iff key k, apart)
]

get-drop_id_only :
    (m : Map Text (List SymbolId)) (k : Text) (id : SymbolId)
    → get m k ≡ some (id ∷ [])
    → get (drop_id m k id) k ≡ some []
unfolding drop_id
get-drop_id_only m k id alone = ground (
  arith,
  alone,
  get-insert m k k (retain (λ x. not (eqb x id)) (id ∷ [])),
  eqb_iff k k,
  eqb_iff id id,
)

emptied :
    (m : Map Text (List SymbolId)) (old key : Text) (id : SymbolId)
    → old ≢ key
    → get m old ≡ some (id ∷ [])
    → get (rekey m old key id) old ≡ some []
unfolding rekey
emptied m old key id apart alone = ground (
  arith,
  eqb_iff old key,
  apart,
  get-push_id_other (drop_id m old id) key old id,
  get-drop_id_only m old id alone,
)

module _ (P : Backend) where
  -- When the only symbol of a name is added again under another name, the old name is reported as
  -- ambiguous between no candidates, not as unknown.
  pub find_symbol_id-renamed :
      (g : InvarGraph P) (old s : Symbol)
      → contains_key g.node_index s.id ≡ true
      → get g.symbols s.id ≡ some old
      → old.name ≢ s.name
      → get g.name_index old.name ≡ some (s.id ∷ [])
      → find_symbol_id P (add_symbol P g s) old.name none ≡ err (ambiguous_symbol old.name [])
  unfolding find_symbol_id find_by_name add_symbol replace_symbol candidate_files sort_by
  find_symbol_id-renamed g old s node there apart alone =
      rw
        (
          add_symbol,
          node,
          replace_symbol,
          there,
          find_symbol_id,
          emptied g.name_index old.name s.name s.id apart alone,
        )
        refl
