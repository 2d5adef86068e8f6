-- ===== src/Resolver.antt =====
-- crates/openinvar-core/src/resolver.rs: what the names that a file imports stand for.
use open_invar.Prelude.{
  ℕ, ◌||◌, if◌then◌else◌, is_some, Option, none, some, List, [], ◌∷◌, ◌++◌, map, Map, Text, bytes,
  find, get, insert, upsert, eqb, cmp, then_cmp, dedup, sort_by, Ordering, Ord, ord_by, ◌≡◌, ap,
  arith, nat_ord, list_ord, pair_ord,
}
use open_invar.Ir.{
  SymbolId, Relationship, imports, re_exports, accesses_property, relationship_kind_ord,
}
use open_invar.Graph.{
  Backend, InvarGraph, AliasScope, AliasEntry, import_alias, re_export, barrel_re_export,
  default_import,
}

-- `AliasScope` and `AliasEntry` are compared for equality only.
abbrev pub alias_scope_rank : AliasScope → ℕ
alias_scope_rank import_alias = 0
alias_scope_rank re_export = 1
alias_scope_rank barrel_re_export = 2
alias_scope_rank default_import = 3

pub alias_scope_rank_inj : (a b : AliasScope) → alias_scope_rank a ≡ alias_scope_rank b → a ≡ b
alias_scope_rank_inj a b h = ground arith

instance abbrev pub alias_scope_ord : Ord AliasScope
alias_scope_ord = ord_by nat_ord alias_scope_rank alias_scope_rank_inj

abbrev pub alias_fields : AliasEntry → Text × (Text × AliasScope)
alias_fields a = (a.alias_name, (a.defined_in_file, a.scope))

abbrev of_alias_fields : Text × (Text × AliasScope) → AliasEntry
of_alias_fields (alias_name, (defined_in_file, scope)) = record {
  alias_name = alias_name;
  defined_in_file = defined_in_file;
  scope = scope;
}

instance abbrev pub alias_entry_ord : Ord AliasEntry
alias_entry_ord = ord_by pair_ord alias_fields (λ a b h. ap of_alias_fields h)

-- The last test of the source has the same scope on both sides.
unfoldable pub infer_scope : Relationship → AliasScope
infer_scope r =
    if eqb r.kind re_exports
    then (if is_some (find r.context (bytes "export *")) then barrel_re_export else re_export)
    else if is_some (find r.context (bytes "default"))
    then default_import
    else import_alias

abbrev pub make_alias_key : Text → Text → Text
make_alias_key file alias = file ++ bytes "::" ++ alias

-- The table of `AliasResolver`: what an alias in a file stands for.
abbrev pub AliasResolver : Type 0
AliasResolver = Map Text SymbolId

-- The comparison that the entries of a chain are sorted by.
unfoldable pub alias_cmp : AliasEntry → AliasEntry → Ordering
alias_cmp a b = then_cmp (cmp a.defined_in_file b.defined_in_file) (cmp a.alias_name b.alias_name)

unfoldable pub resolve_alias_in_file : AliasResolver → Text → Text → Option SymbolId
resolve_alias_in_file resolver alias file = get resolver (make_alias_key file alias)

-- Only a read of a property through an alias is given another target.
unfoldable pub canonicalize_relationship : AliasResolver → Relationship → Relationship
unfolding resolve_alias_in_file
canonicalize_relationship resolver r =
    let target : Option SymbolId = elim r.alias [
      | none ↦ none
      | some alias ↦ resolve_alias_in_file resolver alias r.file
    ] in
    let normalized : Relationship = elim target [
      | none ↦ r
      | some canonical_to ↦ record r { to = canonical_to }
    ] in
    if eqb r.kind accesses_property then normalized else r

unfoldable pub canonicalize_relationships : AliasResolver → List Relationship → List Relationship
unfolding canonicalize_relationship
canonicalize_relationships resolver = map (canonicalize_relationship resolver)

-- The chain of a symbol, with one more alias.
unfoldable pub with_alias :
    Map SymbolId (List AliasEntry) → SymbolId → AliasEntry → Map SymbolId (List AliasEntry)
unfolding alias_cmp
with_alias chains id entry =
    upsert chains id (λ entries. dedup (sort_by alias_cmp (entries ++ entry ∷ []))) (entry ∷ [])

module _ (P : Backend) where
  -- The body of the loop: an import or a re-export with an alias.
  unfoldable pub ingest : AliasResolver × InvarGraph P → Relationship → AliasResolver × InvarGraph P
  unfolding with_alias infer_scope
  ingest (resolver, g) r =
      let known : AliasResolver × InvarGraph P = elim r.alias [
        | none ↦ (resolver, g)
        | some alias ↦
            let entry : AliasEntry = record {
              alias_name = alias;
              defined_in_file = r.file;
              scope = infer_scope r;
            } in
            (
              insert resolver (make_alias_key r.file alias) r.to,
              record g { alias_chains = with_alias g.alias_chains r.to entry },
            )
      ] in
      if eqb r.kind imports || eqb r.kind re_exports then known else (resolver, g)

  unfoldable pub ingest_relationships :
      AliasResolver × InvarGraph P → List Relationship → AliasResolver × InvarGraph P
  unfolding ingest
  ingest_relationships s [] = s
  ingest_relationships s (r ∷ rs) = ingest_relationships (ingest s r) rs
