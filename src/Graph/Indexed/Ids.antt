-- ===== src/Graph/Indexed/Ids.antt =====
-- crates/openinvar-core/src/graph.rs: the lists of ids under a key, after the updates of an index.
use open_invar.Prelude.{
  In-append, ◌≡◌, ◌≢◌, ◌↔◌, ◌⊎◌, inl, inr, not, List, [], ◌∷◌, ◌++◌, Text, Map, In, get, get-insert,
  unwrap_or, eqb, eqb_iff, if◌then◌else◌, arith, dedup, sort, In-sort_by, cmp, retain, list_ord,
  nat_ord, Option-cases,
}
use open_invar.Ir.{SymbolId}
use open_invar.Graph.{push_id, drop_id, rekey}

abbrev pub ids_of : Map Text (List SymbolId) → Text → List SymbolId
ids_of m k = unwrap_or (get m k) []

dedup_onto :
    (j x : SymbolId) (rest : List SymbolId)
    → In j (elim rest [ [] ↦ x ∷ [] | y ∷ ys ↦ if eqb x y then x ∷ ys else x ∷ y ∷ ys ])
      ↔ In j (x ∷ rest)
dedup_onto j x [] = ground arith
dedup_onto j x (y ∷ ys) = ground (arith, eqb_iff x y)

In-dedup : (j : SymbolId) (ids : List SymbolId) → In j (dedup ids) ↔ In j ids
In-dedup j [] = ground arith
In-dedup j (x ∷ ids) = ground (arith, dedup_onto j x (dedup ids), In-dedup j ids)

In-retain :
    (j id : SymbolId) (ids : List SymbolId)
    → In j (retain (λ x. not (eqb x id)) ids) ↔ (In j ids × (j ≢ id))
In-retain j id [] = ground arith
In-retain j id (x ∷ ids) = ground (arith, eqb_iff x id, In-retain j id ids)

pub In-push_id :
    (m : Map Text (List SymbolId)) (key : Text) (id : SymbolId) (k : Text) (j : SymbolId)
    → In j (ids_of (push_id m key id) k) ↔ (In j (ids_of m k) ⊎ ((j ≡ id) × (k ≡ key)))
unfolding push_id
In-push_id m key id k j = elim (Option-cases (get m key)) [
  | inl fresh ↦ ground (arith, fresh, get-insert m key k (id ∷ []), eqb_iff key k)
  | inr (ids, there) ↦ ground (
    arith,
    there,
    get-insert m key k (dedup (sort (ids ++ id ∷ []))),
    eqb_iff key k,
    In-dedup j (sort (ids ++ id ∷ [])),
    In-sort_by cmp j (ids ++ id ∷ []),
    In-append j ids (id ∷ []),
  )
]

In-drop_id :
    (m : Map Text (List SymbolId)) (key : Text) (id : SymbolId) (k : Text) (j : SymbolId)
    → In j (ids_of (drop_id m key id) k) ↔ (In j (ids_of m k) × (¬ ((j ≡ id) × (k ≡ key))))
unfolding drop_id
In-drop_id m key id k j = elim (Option-cases (get m key)) [
  | inl fresh ↦ ground (arith, fresh, eqb_iff key k)
  | inr (ids, there) ↦ ground (
    arith,
    there,
    get-insert m key k (retain (λ x. not (eqb x id)) ids),
    eqb_iff key k,
    In-retain j id ids,
  )
]

pub In-rekey :
    (m : Map Text (List SymbolId)) (old key : Text) (id : SymbolId) (k : Text) (j : SymbolId)
    → In j (ids_of (rekey m old key id) k) ↔ (
        In j (ids_of m k) × ((old ≡ key) ⊎ (¬ ((j ≡ id) × (k ≡ old))))
        ⊎ ((old ≢ key) × ((j ≡ id) × (k ≡ key))))
unfolding rekey
In-rekey m old key id k j =
    ground
      (arith, eqb_iff old key, In-drop_id m old id k j, In-push_id (drop_id m old id) key id k j)
