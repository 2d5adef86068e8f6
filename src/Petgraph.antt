-- ===== src/Petgraph.antt =====
-- The directed graph of the petgraph crate, on which crates/openinvar-core builds, as an interface.
-- Node and edge indices are numbers, and those in use are the ones below the counts.
use open_invar.Prelude.{ℕ, suc, ◌≤◌, ◌<◌, ◌≡◌, ◌≢◌, Option, some, List, below}

pub data Direction : Type 0 where
  outgoing incoming : Direction

pub record EdgeReference (E : Type 0) : Type 0 where
  pub id : ℕ
  pub source : ℕ
  pub target : ℕ
  pub weight : E

-- `node_weight` and `edge_weight` answer for an index that is in use.
pub record Petgraph (N E : Type 0) : Type 1 where
  pub DiGraph : Type 0
  pub new : DiGraph
  pub node_count : DiGraph → ℕ
  pub edge_count : DiGraph → ℕ
  pub node_weight : DiGraph → ℕ → Option N
  pub node_indices : DiGraph → List ℕ
  pub edge_indices : DiGraph → List ℕ
  pub edge_weight : DiGraph → ℕ → Option E
  pub edge_endpoints : DiGraph → ℕ → Option (ℕ × ℕ)
  pub edge_references : DiGraph → List (EdgeReference E)
  pub edge_weights : DiGraph → List E
  pub edges_directed : DiGraph → ℕ → Direction → List (EdgeReference E)
  pub add_node : DiGraph → N → DiGraph × ℕ
  pub add_edge : DiGraph → ℕ → ℕ → E → DiGraph
  pub remove_node : DiGraph → ℕ → DiGraph
  pub remove_edge : DiGraph → ℕ → DiGraph

-- What petgraph documents of removal: "Apart from `e`, this invalidates the last edge index in the
-- graph (that edge will adopt the removed edge index)", and nothing happens for an index not in use.
pub record RemovesBySwap {N E : Type 0} (P : Petgraph N E) : Type 0 where
  pub edge_indices_below : (g : P.DiGraph) → P.edge_indices g ≡ below (P.edge_count g)
  pub remove_edge_count :
      (g : P.DiGraph) (i : ℕ)
      → i < P.edge_count g
      → suc (P.edge_count (P.remove_edge g i)) ≡ P.edge_count g
  pub remove_edge_absent : (g : P.DiGraph) (i : ℕ) → P.edge_count g ≤ i → P.remove_edge g i ≡ g
  pub remove_edge_kept :
      (g : P.DiGraph) (i j : ℕ)
      → j ≢ i
      → suc j < P.edge_count g
      → P.edge_weight (P.remove_edge g i) j ≡ P.edge_weight g j
  pub remove_edge_moved :
      (g : P.DiGraph) (i last : ℕ)
      → i < last
      → P.edge_count g ≡ suc last
      → P.edge_weight (P.remove_edge g i) i ≡ P.edge_weight g last

-- "Node indices are … in the range 0 .. node_count".
pub record IsCompact {N E : Type 0} (P : Petgraph N E) : Type 0 where
  pub node_weight_below :
      (g : P.DiGraph) (i : ℕ) (n : N) → P.node_weight g i ≡ some n → i < P.node_count g
