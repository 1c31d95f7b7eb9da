-- ===== src/Lattice/Petgraph.antt =====
-- What the lattice relies on of `petgraph`, which is not part of the program: `StableGraph`
-- (indices stay valid under additions and removals of others) and `DfsPostOrder` over the
-- reversed graph. `edges` and `ends` only serve the laws.
use erdos.Prelude.{
  ℕ, ◌+◌, ◌<◌, ◌≡◌, ◌≢◌, Bool, false, ◌&&◌, ◌||◌, List, Option, none, some, ◌==◌, if◌then◌else◌,
  count,
}

pub record StableGraph (N : Type 0) : Type 1 where
  pub Graph : Type 0
  pub node_weight : Graph → ℕ → Option N
  -- `neighbors_directed`, a neighbour once for each edge
  pub incoming : Graph → ℕ → List ℕ
  pub outgoing : Graph → ℕ → List ℕ
  pub find_edge : Graph → ℕ → ℕ → Option ℕ
  pub new : Graph
  pub add_node : Graph → N → Graph × ℕ
  pub set_weight : Graph → ℕ → N → Graph
  pub add_edge : Graph → ℕ → ℕ → Graph
  -- `None` if there is no such edge
  pub remove_edge : Graph → ℕ → Option Graph
  pub remove_node : Graph → ℕ → Graph
  -- How many edges lead from the one node to the other; the ends of an edge.
  pub edges : Graph → ℕ → ℕ → ℕ
  pub ends : Graph → ℕ → Option (ℕ × ℕ)
  pub count-incoming : (g : Graph) (a b : ℕ) → count a (incoming g b) ≡ edges g a b
  pub count-outgoing : (g : Graph) (a b : ℕ) → count b (outgoing g a) ≡ edges g a b
  pub edge_present :
      (g : Graph) (a b : ℕ) → 0 < edges g a b → (node_weight g a ≢ none) × (node_weight g b ≢ none)
  pub find_edge_lem :
      (g : Graph) (a b : ℕ)
      → 0 < edges g a b
      → (e : ℕ) × (find_edge g a b ≡ some e) × (ends g e ≡ some (a, b))
  pub new-weight : (n : ℕ) → node_weight new n ≡ none
  pub add_node-fresh : (g : Graph) (w : N) → node_weight g (add_node g w).1 ≡ none
  pub add_node-weight :
      (g : Graph) (w : N) (n : ℕ)
      → node_weight (add_node g w).0 n ≡ (if (add_node g w).1 == n then some w else node_weight g n)
  pub add_node-edges : (g : Graph) (w : N) (a b : ℕ) → edges (add_node g w).0 a b ≡ edges g a b
  pub add_node-ends :
      (g : Graph) (w : N) (e : ℕ) (p : ℕ × ℕ) → ends g e ≡ some p → ends (add_node g w).0 e ≡ some p
  pub set_weight-weight :
      (g : Graph) (i : ℕ) (w : N) (n : ℕ)
      → node_weight g i ≢ none
      → node_weight (set_weight g i w) n ≡ (if i == n then some w else node_weight g n)
  pub set_weight-edges :
      (g : Graph) (i : ℕ) (w : N) (a b : ℕ) → edges (set_weight g i w) a b ≡ edges g a b
  pub add_edge-weight : (g : Graph) (a b n : ℕ) → node_weight (add_edge g a b) n ≡ node_weight g n
  pub add_edge-edges :
      (g : Graph) (a b x y : ℕ)
      → node_weight g a ≢ none
      → node_weight g b ≢ none
      → edges (add_edge g a b) x y ≡ edges g x y + (if a == x && b == y then 1 else 0)
  pub add_edge-ends :
      (g : Graph) (a b e : ℕ) (p : ℕ × ℕ) → ends g e ≡ some p → ends (add_edge g a b) e ≡ some p
  pub remove_edge_lem :
      (g : Graph) (e a b : ℕ)
      → ends g e ≡ some (a, b)
      → (g' : Graph) × (remove_edge g e ≡ some g')
        × ((n : ℕ) → node_weight g' n ≡ node_weight g n)
        × ((x y : ℕ) → edges g x y ≡ edges g' x y + (if a == x && b == y then 1 else 0))
        × ((e' : ℕ) → e ≢ e' → ends g' e' ≡ ends g e')
  pub remove_node-weight :
      (g : Graph) (i n : ℕ)
      → node_weight (remove_node g i) n ≡ (if i == n then none else node_weight g n)
  pub remove_node-edges :
      (g : Graph) (i a b : ℕ)
      → edges (remove_node g i) a b ≡ (if i == a || i == b then 0 else edges g a b)
  -- `DfsPostOrder`: `next` emits a node when it is left, each node once over the life of the
  -- search, also when `move_to` starts anew from another node.
  pub Dfs : Type 0
  pub dfs_empty : Graph → Dfs
  pub move_to : Dfs → ℕ → Dfs
  pub next : Graph → Dfs → Option (ℕ × Dfs)
  -- What was emitted, how many nodes are still to be emitted, and that only nodes of the graph
  -- stand on the stack.
  pub emitted : Dfs → ℕ → Bool
  pub remaining : Graph → Dfs → ℕ
  pub Within : Graph → Dfs → Type 0
  pub dfs_empty-Within : (g : Graph) → Within g (dfs_empty g)
  pub move_to-Within :
      (g : Graph) (s : Dfs) (n : ℕ) → Within g s → node_weight g n ≢ none → Within g (move_to s n)
  pub move_to-emitted : (s : Dfs) (n m : ℕ) → emitted (move_to s n) m ≡ emitted s m
  pub next_lem :
      (g : Graph) (s s' : Dfs) (n : ℕ)
      → Within g s
      → next g s ≡ some (n, s')
      → Within g s'
        × (node_weight g n ≢ none)
        × (remaining g s' < remaining g s)
        × (emitted s n ≡ false)
        × ((m : ℕ) → emitted s' m ≡ (n == m || emitted s m))
