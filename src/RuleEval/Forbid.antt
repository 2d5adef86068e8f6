-- ===== src/RuleEval/Forbid.antt =====
-- rule_eval.rs: `forbid-dependency`, `forbid-reference`, `layers` and `independence`.
pub mod Verdicts
use open_invar.Prelude.{
  ℕ, Bool, true, false, not, ◌&&◌, Option, none, some, List, [], ◌∷◌, ◌++◌, map, Text, bytes,
  display, ltb, ◌==◌, if◌then◌else◌, position, get_elem?, unwrap_or,
}
use open_invar.Graph.{Backend, InvarGraph}
use open_invar.RuleEval.Edges.{Glob, Edge, compile, scope_path}
use open_invar.RuleEval.Sweep.{Violation, Uncertainty, Judged, pass, weak, breach, sweep}

module _ (G : Glob) (P : Backend) (g : InvarGraph P) where
  -- "{source} -> {target} ({kind}), forbidden from '{from}' to '{to}'"
  unfoldable pub forbidden : Text → Text → Edge → Text → Text → Violation
  forbidden from to edge source_path target_path = record {
    file = edge.file;
    line = edge.line;
    symbol = edge.from;
    detail =
        source_path
        ++ (bytes " -> "
            ++ (target_path
                ++ (bytes " ("
                    ++ (edge.kind_name
                        ++ (bytes "), forbidden from '"
                            ++ (from ++ (bytes "' to '" ++ (to ++ bytes "'"))))))));
  }

  unfoldable pub forbid_judge : Text → Text → Bool → Edge → Judged
  forbid_judge from to dependency_only edge =
      if dependency_only && not edge.is_dependency then pass else elim (scope_path P g edge.from) [
        | none ↦ pass
        | some source_path ↦
            if not (G.matches (compile G from) source_path)
            then pass
            else if not edge.gate_safe
            then weak
            else elim (scope_path P g edge.to) [
              | none ↦ pass
              | some target_path ↦
                  if G.matches (compile G to) target_path
                  then breach (forbidden from to edge source_path target_path)
                  else pass
            ]
      ]

  unfoldable pub forbid_edges : List Edge → Text → Text → Bool → List Violation × Uncertainty
  unfolding forbid_judge
  forbid_edges all_edges from to dependency_only =
      sweep (forbid_judge from to dependency_only) all_edges

  -- The first glob of the list that accepts a path: `layer_of` and `module_of`.
  unfoldable pub group_of : List Text → Text → Option ℕ
  group_of globs path = position (λ glob. G.matches (compile G glob) path) globs

  -- "{source} (layer {i}: '{glob}') depends upward on {target} (layer {j}: '{glob}') via {kind}"
  unfoldable pub upward : List Text → Edge → Text → ℕ → Text → ℕ → Violation
  upward stack edge source_path source_layer target_path target_layer = record {
    file = edge.file;
    line = edge.line;
    symbol = edge.from;
    detail =
        source_path
        ++ (bytes " (layer "
            ++ (display source_layer
                ++ (bytes ": '"
                    ++ (unwrap_or (get_elem? stack source_layer) []
                        ++ (bytes "') depends upward on "
                            ++ (target_path
                                ++ (bytes " (layer "
                                    ++ (display target_layer
                                        ++ (bytes ": '"
                                            ++ (unwrap_or (get_elem? stack target_layer) []
                                                ++ (bytes "') via " ++ edge.kind_name)))))))))));
  }

  unfoldable pub layers_judge : List Text → Edge → Judged
  layers_judge stack edge =
      if not edge.is_dependency then pass else elim (scope_path P g edge.from) [
        | none ↦ pass
        | some source_path ↦ elim (group_of stack source_path) [
          | none ↦ pass
          | some source_layer ↦
              if source_layer == 0
              then pass
              else if not edge.gate_safe
              then weak
              else elim (scope_path P g edge.to) [
                | none ↦ pass
                | some target_path ↦ elim (group_of stack target_path) [
                  | none ↦ pass
                  | some target_layer ↦
                      if ltb target_layer source_layer
                      then breach
                          (upward stack edge source_path source_layer target_path target_layer)
                      else pass
                ]
              ]
        ]
      ]

  unfoldable pub layers : List Edge → List Text → List Violation × Uncertainty
  unfolding layers_judge group_of
  layers all_edges stack = sweep (layers_judge stack) all_edges

  -- "{source} ('{glob}') references {target} ('{glob}') via {kind}; these are declared independent"
  unfoldable pub dependent : List Text → Edge → Text → ℕ → Text → ℕ → Violation
  dependent modules edge source_path source_module target_path target_module = record {
    file = edge.file;
    line = edge.line;
    symbol = edge.from;
    detail =
        source_path
        ++ (bytes " ('"
            ++ (unwrap_or (get_elem? modules source_module) []
                ++ (bytes "') references "
                    ++ (target_path
                        ++ (bytes " ('"
                            ++ (unwrap_or (get_elem? modules target_module) []
                                ++ (bytes "') via "
                                    ++ (edge.kind_name
                                        ++ bytes "; these are declared independent"))))))));
  }

  unfoldable pub independence_judge : List Text → Edge → Judged
  independence_judge modules edge = elim (scope_path P g edge.from) [
    | none ↦ pass
    | some source_path ↦ elim (group_of modules source_path) [
      | none ↦ pass
      | some source_module ↦ if not edge.gate_safe then weak else elim (scope_path P g edge.to) [
        | none ↦ pass
        | some target_path ↦ elim (group_of modules target_path) [
          | none ↦ pass
          | some target_module ↦
              if source_module == target_module
              then pass
              else breach
                  (dependent modules edge source_path source_module target_path target_module)
        ]
      ]
    ]
  ]

  unfoldable pub independence : List Edge → List Text → List Violation × Uncertainty
  unfolding independence_judge group_of
  independence all_edges modules = sweep (independence_judge modules) all_edges
