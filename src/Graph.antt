-- ===== src/Graph.antt =====
-- crates/openinvar-core/src/graph.rs: the graph of symbols with its indexes. The petgraph below it
-- is a parameter. (`AliasEntry` is of resolver.rs.)
pub mod Packages
pub mod Leftovers
pub mod Indexed
use open_invar.Prelude.{
  ℕ, ◌+◌, Bool, true, false, not, ◌&&◌, Option, none, some, List, [], ◌∷◌, ◌++◌, foldl, Map, Text,
  bytes, get, insert, remove, upsert, contains_key, unwrap_or, eqb, sort, dedup, retain, length,
  starts_with, strip_prefix, strip_suffix, if◌then◌else◌, list_ord, nat_ord,
}
use open_invar.Ir.{
  SymbolId, Symbol, Relationship, RelationshipKind, Resolution, ReExportEntry, external_package,
  type_script,
}
use open_invar.Petgraph.{Petgraph}

pub data AliasScope : Type 0 where
  import_alias re_export barrel_re_export default_import : AliasScope

pub record AliasEntry : Type 0 where
  pub alias_name : Text
  pub defined_in_file : Text
  pub scope : AliasScope

pub record RelationshipMeta : Type 0 where
  pub kind : RelationshipKind
  pub resolution : Resolution
  pub alias : Option Text
  pub properties_accessed : List Text
  pub context : Text
  pub file : Text
  pub line : ℕ

abbrev pub Backend : Type 1
Backend = Petgraph SymbolId RelationshipMeta

pub record InvarGraph (P : Backend) : Type 0 where
  pub graph : P.DiGraph
  pub node_index : Map SymbolId ℕ
  pub name_index : Map Text (List SymbolId)
  pub file_index : Map Text (List SymbolId)
  pub symbols : Map SymbolId Symbol
  pub alias_chains : Map SymbolId (List AliasEntry)
  pub file_reexports : Map Text (List ReExportEntry)
  pub assertions : Map SymbolId ℕ
  pub assertions_counted : Map Text Bool
  pub unbound_references : Map Text ℕ
  pub unbound_outside_repository : Map Text ℕ

-- `entry(key).and_modify(push; sort; dedup).or_insert(vec![id])`
unfoldable pub push_id : Map Text (List SymbolId) → Text → SymbolId → Map Text (List SymbolId)
push_id m key id = upsert m key (λ ids. dedup (sort (ids ++ id ∷ []))) (id ∷ [])

-- `if let Some(ids) = map.get_mut(key) { ids.retain(|x| x != id) }`
unfoldable pub drop_id : Map Text (List SymbolId) → Text → SymbolId → Map Text (List SymbolId)
drop_id m key id = elim (get m key) [
  | none ↦ m
  | some ids ↦ insert m key (retain (λ x. not (eqb x id)) ids)
]

-- An id under its old and its new key, where the key of its symbol changed.
unfoldable pub rekey : Map Text (List SymbolId) → Text → Text → SymbolId → Map Text (List SymbolId)
unfolding push_id drop_id
rekey m old key id = if eqb old key then m else push_id (drop_id m old id) key id

-- The symbol of a third-party package, made on the first reference to it.
unfoldable pub package_symbol : SymbolId → Symbol
package_symbol to = record {
  id = to;
  name =
      unwrap_or
        (elim (strip_prefix to (bytes "ext::")) [
          | none ↦ none
          | some rest ↦ strip_suffix rest (bytes "::package")
        ])
        to;
  kind = external_package;
  language = type_script;
  file = [];
  line_start = 0;
  line_end = 0;
  signature = none;
}

unfoldable pub meta_of : Relationship → RelationshipMeta
meta_of r = record {
  kind = r.kind;
  resolution = r.resolution;
  alias = r.alias;
  properties_accessed = r.properties_accessed;
  context = r.context;
  file = r.file;
  line = r.line;
}

module _ (P : Backend) where
  unfoldable pub new : InvarGraph P
  new = record {
    graph = P.new;
    node_index = [];
    name_index = [];
    file_index = [];
    symbols = [];
    alias_chains = [];
    file_reexports = [];
    assertions = [];
    assertions_counted = [];
    unbound_references = [];
    unbound_outside_repository = [];
  }

  unfoldable pub aliased_symbol_count : InvarGraph P → ℕ
  aliased_symbol_count g = length g.alias_chains

  unfoldable pub alias_count : InvarGraph P → ℕ
  alias_count g = foldl (λ n entry. n + length entry.1) 0 g.alias_chains

  unfoldable pub replace_symbol : InvarGraph P → Symbol → InvarGraph P
  unfolding rekey
  replace_symbol g symbol = elim (get g.symbols symbol.id) [
    | none ↦ record g { symbols = insert g.symbols symbol.id symbol }
    | some existing ↦ record g {
      name_index = rekey g.name_index existing.name symbol.name symbol.id;
      file_index = rekey g.file_index existing.file symbol.file symbol.id;
      symbols = insert g.symbols symbol.id symbol;
    }
  ]

  unfoldable pub add_symbol : InvarGraph P → Symbol → InvarGraph P
  unfolding replace_symbol push_id
  add_symbol g symbol =
      if contains_key g.node_index symbol.id
      then replace_symbol g symbol
      else let (graph, node) = P.add_node g.graph symbol.id in
        record g {
          graph = graph;
          node_index = insert g.node_index symbol.id node;
          symbols = insert g.symbols symbol.id symbol;
          name_index = push_id g.name_index symbol.name symbol.id;
          file_index = push_id g.file_index symbol.file symbol.id;
        }

  -- Auto-create external package nodes on first reference.
  unfoldable pub with_package : InvarGraph P → SymbolId → InvarGraph P
  unfolding add_symbol package_symbol
  with_package g to =
      if not (contains_key g.node_index to) && starts_with to (bytes "ext::")
      then add_symbol g (package_symbol to)
      else g

  unfoldable pub add_relationship : InvarGraph P → Relationship → InvarGraph P
  unfolding with_package meta_of
  add_relationship g r = elim (get g.node_index r.from) [
    | none ↦ g
    | some from ↦
        let g' = with_package g r.to in
        elim (get g'.node_index r.to) [
          | none ↦ g'
          | some to ↦ record g' { graph = P.add_edge g'.graph from to (meta_of r) }
        ]
  ]

  -- Whether the edge with this index was recorded in the file.
  unfoldable pub edge_in_file : Text → P.DiGraph → ℕ → Bool
  edge_in_file file graph i = elim (P.edge_weight graph i) [
    | none ↦ false
    | some meta ↦ eqb meta.file file
  ]

  -- The indices are collected first, and then removed one by one.
  unfoldable pub remove_relationships_in_file : InvarGraph P → Text → InvarGraph P × ℕ
  unfolding edge_in_file
  remove_relationships_in_file g file =
      let edge_ids = retain (edge_in_file file g.graph) (P.edge_indices g.graph) in
      (record g { graph = foldl P.remove_edge g.graph edge_ids }, length edge_ids)

  unfoldable pub rebuild_node_index : P.DiGraph → Map SymbolId ℕ
  rebuild_node_index graph =
      foldl (λ m i. elim (P.node_weight graph i) [ none ↦ m | some id ↦ insert m id i ]) []
        (P.node_indices graph)

  -- The body of the loop of `remove_file` over the ids of the file.
  unfoldable pub remove_id : InvarGraph P → SymbolId → InvarGraph P
  unfolding drop_id
  remove_id g id = record g {
    name_index = elim (get g.symbols id) [
      | none ↦ g.name_index
      | some symbol ↦ drop_id g.name_index symbol.name id
    ];
    symbols = remove g.symbols id;
    graph = elim (get g.node_index id) [ none ↦ g.graph | some node ↦ P.remove_node g.graph node ];
    node_index = remove g.node_index id;
    alias_chains = remove g.alias_chains id;
  }

  unfoldable pub remove_file : InvarGraph P → Text → InvarGraph P × List SymbolId
  unfolding remove_id rebuild_node_index
  remove_file g file =
      let symbol_ids = unwrap_or (get g.file_index file) [] in
      let cleared =
        foldl remove_id (record g { file_index = remove g.file_index file }) symbol_ids in
      (
        record cleared {
          file_reexports = remove cleared.file_reexports file;
          node_index = rebuild_node_index cleared.graph;
        },
        sort symbol_ids,
      )
