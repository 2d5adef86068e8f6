-- ===== src/Query/Usages.antt =====
-- crates/openinvar-core/src/query.rs: `symbol_usages`, the references to a symbol and the names they use.
use open_invar.Prelude.{
  ℕ, Bool, ◌||◌, ◌==◌, if◌then◌else◌, is_some, Option, none, some, List, map, retain, not, Text,
  bytes, get, contains, first_word, second_piece, trim_matches, list_ord, nat_ord,
}
use open_invar.Ir.{Resolution}
use open_invar.Petgraph.{incoming}
use open_invar.Graph.{Backend, InvarGraph, AliasEntry}
use open_invar.Index.{Result, ok, ◌>>=◌, find_symbol_id}
use open_invar.Query.Mask.{RelationshipKindMask}
use open_invar.Query.Rows.{QueryEdge, dedupe_edges}
use open_invar.Query.Traverse.{traverse}

-- `,` and `;`
unfoldable pub closes_name : ℕ → Bool
closes_name c = c == 44 || c == 59

-- The name after ` as `: the alias that a line of source gives.
unfoldable pub written_alias : Text → Option Text
unfolding second_piece first_word trim_matches closes_name
written_alias context = elim (second_piece context (bytes " as ")) [
  | none ↦ none
  | some rest ↦ elim (first_word rest) [
    | none ↦ none
    | some word ↦ some (trim_matches closes_name word)
  ]
]

-- The body of the loop over the rows. A context without ` as ` has no second piece.
unfoldable pub recover_alias : List Text → QueryEdge → QueryEdge
unfolding written_alias
recover_alias alias_set edge = elim edge.alias [
  | some alias ↦ edge
  | none ↦ elim (written_alias edge.context) [
    | none ↦ edge
    | some found ↦ if contains alias_set found then record edge { alias = some found } else edge
  ]
]

module _ (P : Backend) (g : InvarGraph P) where
  unfoldable pub symbol_usages :
      Text → Option Text → Bool → RelationshipKindMask → Resolution → Result (List QueryEdge)
  unfolding recover_alias traverse
  symbol_usages symbol file include_aliases kinds min_resolution =
      find_symbol_id P g symbol file >>= λ root.
      traverse P g incoming kinds min_resolution root 1 >>= λ results.
      let recovered : List QueryEdge = elim (get g.alias_chains root) [
        | none ↦ results
        | some aliases ↦
            map (recover_alias (map (λ (a : AliasEntry). a.alias_name) aliases)) results
      ] in
      let direct = retain (λ (edge : QueryEdge). not (is_some edge.alias)) results in
      ok (dedupe_edges (if include_aliases then recovered else direct))
