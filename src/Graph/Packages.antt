-- ===== src/Graph/Packages.antt =====
-- graph.rs and rule_eval.rs: the node of a third-party package, and the path a rule sees for it.
use open_invar.Prelude.{
  ℕ, ◌≡◌, refl, ap, ◌∙◌, none, some, [], Text, bytes, arith, get, get-insert_self, insert,
  strip_prefix, list_ord, nat_ord,
}
use open_invar.Ir.{Relationship, SymbolId}
use open_invar.Graph.{
  Backend, InvarGraph, add_symbol, add_relationship, with_package, package_symbol,
}
use open_invar.RuleEval.Edges.{scope_path}

module _ (P : Backend) where
  symbols-with_package :
      (g : InvarGraph P) (to : SymbolId) (rest : Text)
      → get g.node_index to ≡ none
      → strip_prefix to (bytes "ext::") ≡ some rest
      → (with_package P g to).symbols ≡ insert g.symbols to (package_symbol to)
  unfolding with_package add_symbol package_symbol
  symbols-with_package g to rest fresh external = ground arith

  symbols-add_relationship :
      (g : InvarGraph P) (r : Relationship) (from : ℕ)
      → get g.node_index r.from ≡ some from
      → (add_relationship P g r).symbols ≡ (with_package P g r.to).symbols
  unfolding add_relationship
  symbols-add_relationship g r from known = ground arith

  -- Right after an edge is added from a symbol that has a node to an id that starts with `ext::` and has
  -- none, `scope_path` of that id is the empty text, whatever the package is called.
  pub scope_path-add_relationship :
      (g : InvarGraph P) (r : Relationship) (from : ℕ) (rest : Text)
      → get g.node_index r.from ≡ some from
      → get g.node_index r.to ≡ none
      → strip_prefix r.to (bytes "ext::") ≡ some rest
      → scope_path P (add_relationship P g r) r.to ≡ some []
  unfolding scope_path package_symbol
  scope_path-add_relationship g r from rest known fresh external =
      let stored : get (add_relationship P g r).symbols r.to ≡ some (package_symbol r.to) =
        ap (λ m. get m r.to)
          (symbols-add_relationship g r from known
            ∙ symbols-with_package g r.to rest fresh external)
        ∙ get-insert_self g.symbols r.to (package_symbol r.to) in
      rw (stored, scope_path) refl
