-- ===== src/Examples/ListGraph.antt =====
-- A petgraph over two lists, with the index behaviour that petgraph documents, and a glob whose
-- pattern is a prefix.
pub mod Swap
use open_invar.Prelude.{
  ℕ, zero, suc, ◌+◌, ◌-◌, Bool, true, false, not, ◌&&◌, ◌||◌, Option, none, some, List, [], ◌∷◌,
  ◌++◌, map, length, get_elem?, retain, ◌==◌, ltb, if◌then◌else◌, below, Text, starts_with,
}
use open_invar.Petgraph.{Petgraph, EdgeReference, Direction, outgoing, incoming}
use open_invar.RuleEval.Edges.{Glob}

pub record Link (E : Type 0) : Type 0 where
  pub source : ℕ
  pub target : ℕ
  pub weight : E

pub record ListGraph (N E : Type 0) : Type 0 where
  pub nodes : List N
  pub links : List (Link E)

-- The last element takes the place of the one at `i`.
abbrev pub replace {ℓ} : {A : Type ℓ} → List A → ℕ → A → List A
replace [] i v = []
replace (x ∷ xs) zero v = v ∷ xs
replace (x ∷ xs) (suc i) v = x ∷ replace xs i v

abbrev pub drop_last {ℓ} : {A : Type ℓ} → List A → List A
drop_last [] = []
drop_last (x ∷ []) = []
drop_last (x ∷ y ∷ ys) = x ∷ drop_last (y ∷ ys)

abbrev pub swap_remove {ℓ} : {A : Type ℓ} → List A → ℕ → List A
swap_remove xs i = elim (get_elem? xs (length xs - 1)) [
  | none ↦ xs
  | some last ↦ if ltb i (length xs) then drop_last (replace xs i last) else xs
]

abbrev pub reference : {E : Type 0} → ℕ → Link E → EdgeReference E
reference i l = record { id = i; source = l.source; target = l.target; weight = l.weight }

abbrev pub references_from : {E : Type 0} → ℕ → List (Link E) → List (EdgeReference E)
references_from i [] = []
references_from i (l ∷ ls) = reference i l ∷ references_from (i + 1) ls

abbrev pub moved : ℕ → ℕ → ℕ → ℕ
moved last i n = if n == last then i else n

abbrev pub relink : {E : Type 0} → ℕ → ℕ → Link E → Link E
relink last i l = record {
  source = moved last i l.source;
  target = moved last i l.target;
  weight = l.weight;
}

abbrev pub without_node : {N E : Type 0} → ListGraph N E → ℕ → ListGraph N E
without_node g i =
    if ltb i (length g.nodes)
    then record {
      nodes = swap_remove g.nodes i;
      links =
          map (relink (length g.nodes - 1) i)
            (retain (λ l. not (l.source == i) && not (l.target == i)) g.links);
    }
    else g

abbrev pub towards : {E : Type 0} → Direction → ℕ → EdgeReference E → Bool
towards outgoing n r = r.source == n
towards incoming n r = r.target == n

abbrev pub list_petgraph : (N E : Type 0) → Petgraph N E
list_petgraph N E = record {
  DiGraph = ListGraph N E;
  new = record { nodes = []; links = [] };
  node_count = λ g. length g.nodes;
  edge_count = λ g. length g.links;
  node_weight = λ g i. get_elem? g.nodes i;
  node_indices = λ g. below (length g.nodes);
  edge_indices = λ g. below (length g.links);
  edge_weight = λ g i. elim (get_elem? g.links i) [ none ↦ none | some l ↦ some l.weight ];
  edge_endpoints =
      λ g i. elim (get_elem? g.links i) [ none ↦ none | some l ↦ some (l.source, l.target) ];
  edge_references = λ g. references_from 0 g.links;
  edge_weights = λ g. map (λ (e : EdgeReference E). e.weight) (references_from 0 g.links);
  edges_directed = λ g n d. retain (towards d n) (references_from 0 g.links);
  add_node = λ g w. (record g { nodes = g.nodes ++ w ∷ [] }, length g.nodes);
  add_edge =
      λ g a b w. record g { links = g.links ++ record { source = a; target = b; weight = w } ∷ [] };
  remove_node = without_node;
  remove_edge = λ g i. record g { links = swap_remove g.links i };
}

abbrev pub prefix_glob : Glob
prefix_glob = record {
  Pattern = Text;
  compile? = λ t. some t;
  empty = [];
  matches = λ p path. starts_with path p;
}
