-- ===== src/Findings.antt =====
-- crates/openinvar-core/src/findings.rs: the judgements about what changed between two graphs.
use open_invar.Prelude.{
  ℕ, ◌+◌, ltb, Bool, true, false, not, if◌then◌else◌, Option, none, some, List, [], ◌∷◌, ◌++◌,
  foldl, any, retain, filter_map, length, Map, Text, bytes, get, keys, tree_insert, unwrap_or,
  contains, set_insert, eqb, cmp, then_cmp, dedup, sort, sort_by, Ordering, Ord, ord_by, ◌≡◌, ap,
  arith, nat_ord, list_ord, pair_ord,
}
use open_invar.Ir.{
  SymbolId, Symbol, SymbolKind, Resolution, resolved, structural, RelationshipKind,
  relationship_kind_ord, resolution_ord, symbol_kind_ord, class, interface, type_alias, function,
  method, property, enum, enum_variant, file_module,
}
use open_invar.Petgraph.{EdgeReference, incoming}
use open_invar.Graph.{Backend, InvarGraph, RelationshipMeta}
use open_invar.Delta.{GraphDelta, SignatureChange, Continuity, EdgeRef}
use open_invar.Coverage.{Coverage, no_edges, by_file}

pub data FindingKind : Type 0 where
  broken_edge orphaned api_surface_removed signature_changed : FindingKind

abbrev pub finding_kind_rank : FindingKind → ℕ
finding_kind_rank broken_edge = 0
finding_kind_rank orphaned = 1
finding_kind_rank api_surface_removed = 2
finding_kind_rank signature_changed = 3

pub finding_kind_rank_inj : (a b : FindingKind) → finding_kind_rank a ≡ finding_kind_rank b → a ≡ b
finding_kind_rank_inj a b h = ground arith

instance abbrev pub finding_kind_ord : Ord FindingKind
finding_kind_ord = ord_by nat_ord finding_kind_rank finding_kind_rank_inj

-- `as_str`
unfoldable pub finding_kind_str : FindingKind → Text
finding_kind_str broken_edge = bytes "broken-edge"
finding_kind_str orphaned = bytes "orphaned"
finding_kind_str api_surface_removed = bytes "api-surface-removed"
finding_kind_str signature_changed = bytes "signature-changed"

pub record Referrer : Type 0 where
  pub symbol : Text
  pub file : Text
  pub line : ℕ
  pub kind : RelationshipKind
  pub resolution : Resolution

abbrev pub ReferrerFields : Type 0
ReferrerFields = Text × (Text × (ℕ × (RelationshipKind × Resolution)))

abbrev pub referrer_fields : Referrer → ReferrerFields
referrer_fields r = (r.symbol, (r.file, (r.line, (r.kind, r.resolution))))

abbrev of_referrer_fields : ReferrerFields → Referrer
of_referrer_fields (symbol, (file, (line, (kind, resolution)))) = record {
  symbol = symbol;
  file = file;
  line = line;
  kind = kind;
  resolution = resolution;
}

instance abbrev pub referrer_ord : Ord Referrer
referrer_ord = ord_by pair_ord referrer_fields (λ a b h. ap of_referrer_fields h)

pub record Finding : Type 0 where
  pub kind : FindingKind
  pub symbol : Text
  pub name : Text
  pub file : Text
  pub line : ℕ
  pub referrers : List Referrer
  pub resolution : Resolution

pub record DiffFindings : Type 0 where
  pub findings : List Finding
  pub changed_file_coverage : Coverage
  pub blast_radius : List Text

unfoldable pub of_kind : DiffFindings → FindingKind → List Finding
of_kind diff kind = retain (λ (f : Finding). eqb f.kind kind) diff.findings

-- `DiffFindings::gate_safe`
unfoldable pub gate_safe_findings : DiffFindings → List Finding
gate_safe_findings diff = retain (λ (f : Finding). eqb f.resolution resolved) diff.findings

unfoldable pub is_api_surface : SymbolKind → Bool
is_api_surface class = true
is_api_surface interface = true
is_api_surface type_alias = true
is_api_surface function = true
is_api_surface method = true
is_api_surface property = true
is_api_surface enum = true
is_api_surface enum_variant = true
is_api_surface _ = false

-- Without evidence, and with structural evidence, a finding is advisory.
unfoldable pub weakest : List Referrer → Resolution
weakest [] = structural
weakest (r ∷ rs) =
    if any (λ (q : Referrer). eqb q.resolution structural) (r ∷ rs) then structural else resolved

-- The files of the added and the removed symbols.
unfoldable pub symbol_files : GraphDelta → List Text
symbol_files delta =
    foldl (λ files (s : Symbol). set_insert s.file files) []
      (delta.added_symbols ++ delta.removed_symbols)

unfoldable pub continuity_files : List Text → List Continuity → List Text
continuity_files files cs =
    foldl (λ files (c : Continuity). set_insert c.after.file (set_insert c.before.file files)) files
      cs

unfoldable pub edited_files : GraphDelta → List Text
unfolding symbol_files continuity_files
edited_files delta =
    continuity_files
      (foldl
        (λ files (c : SignatureChange). set_insert c.after.file (set_insert c.before.file files))
        (symbol_files delta) delta.signature_changes)
      delta.continuities

unfoldable pub changed_files : GraphDelta → List Text
unfolding symbol_files continuity_files
changed_files delta =
    let signatures =
      foldl (λ files (c : SignatureChange). set_insert c.after.file files) (symbol_files delta)
        delta.signature_changes in
    foldl (λ files (e : EdgeRef). set_insert e.file files)
      (continuity_files signatures delta.continuities) (delta.added_edges ++ delta.removed_edges)

unfoldable pub coverage_of : List Text → Coverage → Map Text Coverage → Coverage
coverage_of files total [] = total
coverage_of files total ((file, c) ∷ rest) =
    let sum : Coverage = record {
      resolved = total.resolved + c.resolved;
      structural = total.structural + c.structural;
    } in
    coverage_of files (if contains files file then sum else total) rest

-- A signature or a removal is read off the symbols; what rests on edges is as good as the weakest.
unfoldable pub evidence_of : FindingKind → List Referrer → Resolution
unfolding weakest
evidence_of signature_changed referrers = resolved
evidence_of api_surface_removed referrers = resolved
evidence_of _ referrers = weakest referrers

unfoldable pub finding_for : FindingKind → Symbol → List Referrer → Finding
unfolding evidence_of
finding_for kind symbol referrers = record {
  kind = kind;
  symbol = symbol.id;
  name = symbol.name;
  file = symbol.file;
  line = symbol.line_start;
  referrers = referrers;
  resolution = evidence_of kind referrers;
}

-- The sources of the resolved referrers go into the blast radius.
unfoldable pub with_resolved : List Text → List Referrer → List Text
with_resolved radius [] = radius
with_resolved radius (r ∷ rs) =
    with_resolved (if eqb r.resolution resolved then set_insert r.symbol radius else radius) rs

unfoldable pub finding_cmp : Finding → Finding → Ordering
finding_cmp a b =
    then_cmp (cmp a.kind b.kind) (then_cmp (cmp a.symbol b.symbol) (cmp a.line b.line))

module _ (P : Backend) where
  unfoldable pub coverage_over : InvarGraph P → List Text → Coverage
  unfolding coverage_of by_file
  coverage_over g files = coverage_of files no_edges (by_file P g)

  unfoldable pub referrer : InvarGraph P → EdgeReference RelationshipMeta → Option Referrer
  referrer g edge = elim (P.node_weight g.graph edge.source) [
    | none ↦ none
    | some source ↦ some (record {
      symbol = source;
      file = edge.weight.file;
      line = edge.weight.line;
      kind = edge.weight.kind;
      resolution = edge.weight.resolution;
    })
  ]

  unfoldable pub inbound : InvarGraph P → SymbolId → List Referrer
  unfolding referrer
  inbound g id = elim (get g.node_index id) [
    | none ↦ []
    | some node ↦ dedup (sort (filter_map (referrer g) (P.edges_directed g.graph node incoming)))
  ]

  module _ (before after : InvarGraph P) where
    -- The referrers that are still there, in files that the author did not edit.
    unfoldable pub surviving : List Text → Symbol → List Referrer
    unfolding inbound
    surviving edited removed =
        retain (λ (r : Referrer). not (contains edited r.file))
          (retain (λ (r : Referrer). contains (keys after.symbols) r.symbol)
            (inbound before removed.id))

    -- The findings about one removed symbol.
    unfoldable pub of_removed : List Text → Symbol → List Finding
    unfolding surviving finding_for is_api_surface
    of_removed edited removed =
        let referrers = surviving edited removed in
        elim referrers [ [] ↦ [] | r ∷ rs ↦ finding_for broken_edge removed (r ∷ rs) ∷ [] ]
        ++ (if is_api_surface removed.kind
            then finding_for api_surface_removed removed referrers ∷ []
            else [])

    unfoldable pub of_all_removed : List Text → List Symbol → List Finding
    unfolding of_removed
    of_all_removed edited [] = []
    of_all_removed edited (s ∷ symbols) = of_removed edited s ++ of_all_removed edited symbols

    unfoldable pub radius_of_removed : List Text → List Text → List Symbol → List Text
    unfolding surviving with_resolved
    radius_of_removed edited radius [] = radius
    radius_of_removed edited radius (s ∷ symbols) =
        radius_of_removed edited (with_resolved radius (surviving edited s)) symbols

    -- `inbound_before`
    unfoldable pub inbound_counts : Map SymbolId ℕ → List SymbolId → Map SymbolId ℕ
    unfolding inbound
    inbound_counts m [] = m
    inbound_counts m (id ∷ ids) = inbound_counts (tree_insert m id (length (inbound before id))) ids

    -- The body of the loop over the symbols that are still there.
    unfoldable pub orphan : Map SymbolId ℕ → SymbolId × Symbol → Option Finding
    unfolding inbound weakest
    orphan inbound_before (id, symbol) =
        let had = unwrap_or (get inbound_before id) 0 in
        let left : Option Finding = elim (inbound after id) [
          | r ∷ rs ↦ none
          | [] ↦ some (record {
            kind = orphaned;
            symbol = id;
            name = symbol.name;
            file = symbol.file;
            line = symbol.line_start;
            referrers = [];
            resolution = weakest (inbound before id);
          })
        ] in
        if eqb symbol.kind file_module then none else if ltb 0 had then left else none

    unfoldable pub of_signatures : List SignatureChange → List Finding
    unfolding finding_for inbound
    of_signatures [] = []
    of_signatures (change ∷ changes) =
        finding_for signature_changed change.after (inbound after change.after.id)
        ∷ of_signatures changes

    unfoldable pub radius_of_signatures : List Text → List SignatureChange → List Text
    unfolding with_resolved inbound
    radius_of_signatures radius [] = radius
    radius_of_signatures radius (change ∷ changes) =
        radius_of_signatures (with_resolved radius (inbound after change.after.id)) changes

    unfoldable pub derive : GraphDelta → DiffFindings
    unfolding edited_files changed_files of_all_removed radius_of_removed orphan of_signatures
        radius_of_signatures finding_cmp coverage_over
    derive delta =
        let edited = edited_files delta in
        let inbound_before = inbound_counts [] (keys before.symbols) in
        record {
          findings = sort_by finding_cmp (
              of_all_removed edited delta.removed_symbols
              ++ (filter_map (orphan inbound_before) after.symbols
                  ++ of_signatures delta.signature_changes));
          changed_file_coverage = coverage_over after (changed_files delta);
          blast_radius =
              radius_of_signatures (radius_of_removed edited [] delta.removed_symbols)
                delta.signature_changes;
        }
