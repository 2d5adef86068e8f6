-- ===== src/Graph/Indexed/Kept.antt =====
-- crates/openinvar-core/src/graph.rs: the indexes after adding and replacing.
use open_invar.Prelude.{
  ℕ, ◌≡◌, refl, sym, ◌∙◌, inl, inr, true, false, not, ◌&&◌, none, some, List, [], ◌∷◌, foldl, bytes,
  Map, get, insert, get-insert, contains_key, eqb_iff, starts_with, arith, Option-cases, Bool-cases,
  list_ord, nat_ord,
}
use open_invar.Ir.{SymbolId, Symbol, Relationship}
use open_invar.Graph.{
  Backend, InvarGraph, new, add_symbol, replace_symbol, with_package, add_relationship,
  package_symbol,
}
use open_invar.Graph.Indexed.{IsIndexed, name_key, file_key, push-Agrees, rekey-Agrees}

module _ (P : Backend) where
  -- The empty graph is indexed.
  pub new-IsIndexed : IsIndexed P (new P)
  unfolding new get
  new-IsIndexed = record {
    names = λ k id. ground arith;
    files = λ k id. ground arith;
    nodes = λ id. refl;
  }

  fresh_of :
      (g : InvarGraph P) (id : SymbolId)
      → IsIndexed P g
      → contains_key g.node_index id ≡ false
      → get g.symbols id ≡ none
  fresh_of g id indexed absent =
      ground (arith, indexed.nodes id, absent, Option-cases (get g.symbols id))

  known_of :
      (g : InvarGraph P) (id : SymbolId)
      → IsIndexed P g
      → contains_key g.node_index id ≡ true
      → (old : Symbol) × (get g.symbols id ≡ some old)
  known_of g id indexed there = elim (Option-cases (get g.symbols id)) [
    | inl gone ↦ absurd (ground (arith, indexed.nodes id, there, gone))
    | inr found ↦ found
  ]

  insert-nodes :
      (symbols : Map SymbolId Symbol) (index : Map SymbolId ℕ) (s : Symbol) (node : ℕ)
      (id : SymbolId)
      → contains_key index id ≡ contains_key symbols id
      → contains_key (insert index s.id node) id ≡ contains_key (insert symbols s.id s) id
  insert-nodes symbols index s node id same =
      ground (arith, get-insert symbols s.id id s, get-insert index s.id id node, same)

  replace-nodes :
      (symbols : Map SymbolId Symbol) (s old : Symbol) (id : SymbolId)
      → get symbols s.id ≡ some old
      → contains_key (insert symbols s.id s) id ≡ contains_key symbols id
  replace-nodes symbols s old id there =
      ground (arith, get-insert symbols s.id id s, eqb_iff s.id id, there)

  replace_known :
      (g : InvarGraph P) (s old : Symbol)
      → get g.symbols s.id ≡ some old
      → IsIndexed P g
      → IsIndexed P (replace_symbol P g s)
  unfolding replace_symbol
  replace_known g s old there indexed =
      rw (there, replace_symbol)
        (record {
          names = rekey-Agrees name_key g.name_index g.symbols old s there indexed.names;
          files = rekey-Agrees file_key g.file_index g.symbols old s there indexed.files;
          nodes = λ id. indexed.nodes id ∙ sym (replace-nodes g.symbols s old id there);
        })

  -- If the indexes by name and by file list exactly the ids of the symbols with a name or a file,
  -- and the symbols with a node are those of the graph, this still holds after `add_symbol`, for a
  -- new id and for one that is there.
  pub add_symbol-IsIndexed :
      (g : InvarGraph P) (s : Symbol) → IsIndexed P g → IsIndexed P (add_symbol P g s)
  unfolding add_symbol
  add_symbol-IsIndexed g s indexed = elim (Bool-cases (contains_key g.node_index s.id)) [
    | inl there ↦
        let (old, found) = known_of g s.id indexed there in
        rw there (replace_known g s old found indexed)
    | inr absent ↦
        let fresh = fresh_of g s.id indexed absent in
        rw absent (record {
          names = push-Agrees name_key g.name_index g.symbols s fresh indexed.names;
          files = push-Agrees file_key g.file_index g.symbols s fresh indexed.files;
          nodes = λ id.
              insert-nodes g.symbols g.node_index s (P.add_node g.graph s.id).1 id
                (indexed.nodes id);
        })
  ]

  with_package-IsIndexed :
      (g : InvarGraph P) (to : SymbolId) → IsIndexed P g → IsIndexed P (with_package P g to)
  unfolding with_package
  with_package-IsIndexed g to indexed =
      elim (Bool-cases (not (contains_key g.node_index to) && starts_with to (bytes "ext::"))) [
        | inl made ↦ rw made (add_symbol-IsIndexed g (package_symbol to) indexed)
        | inr unmade ↦ rw unmade indexed
      ]

  -- If the indexes of a graph agree with its symbols, they still do after `add_relationship`,
  -- whether or not it makes a symbol for a package.
  pub add_relationship-IsIndexed :
      (g : InvarGraph P) (r : Relationship) → IsIndexed P g → IsIndexed P (add_relationship P g r)
  unfolding add_relationship
  add_relationship-IsIndexed g r indexed = elim (Option-cases (get g.node_index r.from)) [
    | inl absent ↦ rw (add_relationship, absent) indexed
    | inr (from, there) ↦
        let kept = with_package-IsIndexed g r.to indexed in
        elim (Option-cases (get (with_package P g r.to).node_index r.to)) [
          | inl dangling ↦ rw (add_relationship, there, dangling) kept
          | inr (to, reached) ↦
              rw (add_relationship, there, reached)
                (record { names = kept.names; files = kept.files; nodes = kept.nodes })
        ]
  ]

  symbols-IsIndexed :
      (g : InvarGraph P) (ss : List Symbol)
      → IsIndexed P g
      → IsIndexed P (foldl (add_symbol P) g ss)
  symbols-IsIndexed g [] indexed = indexed
  symbols-IsIndexed g (s ∷ ss) indexed =
      symbols-IsIndexed (add_symbol P g s) ss (add_symbol-IsIndexed g s indexed)

  relationships-IsIndexed :
      (g : InvarGraph P) (rs : List Relationship)
      → IsIndexed P g
      → IsIndexed P (foldl (add_relationship P) g rs)
  relationships-IsIndexed g [] indexed = indexed
  relationships-IsIndexed g (r ∷ rs) indexed =
      relationships-IsIndexed (add_relationship P g r) rs (add_relationship-IsIndexed g r indexed)

  -- The indexes agree with the symbols in every graph that is built from the empty one by adding a
  -- list of symbols and then a list of relationships.
  pub build-IsIndexed :
      (ss : List Symbol) (rs : List Relationship)
      → IsIndexed P (foldl (add_relationship P) (foldl (add_symbol P) (new P) ss) rs)
  build-IsIndexed ss rs =
      relationships-IsIndexed (foldl (add_symbol P) (new P) ss) rs
        (symbols-IsIndexed (new P) ss new-IsIndexed)
