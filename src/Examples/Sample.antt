-- ===== src/Examples/Sample.antt =====
-- A repository of three files: `cli/main.rs` imports and calls `core/lib.rs`, `core/lib.rs` imports
-- `cli/main.rs` back, and one structural edge leaves `misc/x.rb`.
use open_invar.Prelude.{ℕ, none, List, [], ◌∷◌, Text, bytes}
use open_invar.Ir.{
  SymbolId, Symbol, function, RelationshipKind, imports, calls, Resolution, resolved, structural,
  rust,
}
use open_invar.Graph.{Backend, InvarGraph, RelationshipMeta}
use open_invar.Examples.ListGraph.{list_petgraph, Link}

abbrev pub backend : Backend
backend = list_petgraph SymbolId RelationshipMeta

abbrev pub symbol_at : Text → Text → Text → Symbol
symbol_at id name file = record {
  id = id;
  name = name;
  kind = function;
  language = rust;
  file = file;
  line_start = 1;
  line_end = 3;
  signature = none;
}

abbrev pub meta_of : RelationshipKind → Resolution → Text → ℕ → RelationshipMeta
meta_of k r file line = record {
  kind = k;
  resolution = r;
  alias = none;
  properties_accessed = [];
  context = [];
  file = file;
  line = line;
}

abbrev pub main_id : SymbolId
main_id = bytes "cli/main.rs::main::function"

abbrev pub lib_id : SymbolId
lib_id = bytes "core/lib.rs::run::function"

abbrev pub misc_id : SymbolId
misc_id = bytes "misc/x.rb::x::function"

abbrev pub cli : Text
cli = bytes "cli/main.rs"

abbrev pub core : Text
core = bytes "core/lib.rs"

abbrev pub misc : Text
misc = bytes "misc/x.rb"

abbrev pub sample_links : List (Link RelationshipMeta)
sample_links =
    record { source = 0; target = 1; weight = meta_of imports resolved cli 1 }
    ∷ record { source = 0; target = 1; weight = meta_of calls resolved cli 5 }
    ∷ record { source = 1; target = 0; weight = meta_of imports resolved core 2 }
    ∷ record { source = 2; target = 2; weight = meta_of calls structural misc 9 }
    ∷ []

abbrev pub sample : InvarGraph backend
sample = record {
  graph = record { nodes = main_id ∷ lib_id ∷ misc_id ∷ []; links = sample_links };
  node_index = (main_id, 0) ∷ (lib_id, 1) ∷ (misc_id, 2) ∷ [];
  name_index =
      (bytes "main", main_id ∷ []) ∷ (bytes "run", lib_id ∷ []) ∷ (bytes "x", misc_id ∷ []) ∷ [];
  file_index = (cli, main_id ∷ []) ∷ (core, lib_id ∷ []) ∷ (misc, misc_id ∷ []) ∷ [];
  symbols =
      (main_id, symbol_at main_id (bytes "main") cli)
      ∷ (lib_id, symbol_at lib_id (bytes "run") core)
      ∷ (misc_id, symbol_at misc_id (bytes "x") misc)
      ∷ [];
  alias_chains = [];
  file_reexports = [];
  assertions = [];
  assertions_counted = [];
  unbound_references = [];
  unbound_outside_repository = [];
}

-- The sample with the two edges of `cli/main.rs` alone.
abbrev pub two_edges : InvarGraph backend
two_edges = record sample {
  graph = record {
    nodes = main_id ∷ lib_id ∷ misc_id ∷ [];
    links =
        record { source = 0; target = 1; weight = meta_of imports resolved cli 1 }
        ∷ record { source = 0; target = 1; weight = meta_of calls resolved cli 5 }
        ∷ [];
  };
}
