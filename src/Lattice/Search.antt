-- ===== src/Lattice/Search.antt =====
-- src/node/lattice.rs: the search of `add_events` for the dependencies of an added event.
use erdos.Prelude.{
  ℕ, zero, suc, Bool, true, false, List, [], ◌∷◌, ◌++◌, Option, none, some, Ordering, ◌==◌, length,
  contains, insert_set, if◌then◌else◌, ◌||◌,
}
use erdos.Event.{OperatorEvent, event_cmp}
use erdos.Lattice.Runnable.{RunnableEvent, queued}
use erdos.Lattice.Petgraph.{StableGraph}

unfoldable pub insert_all : List ℕ → List ℕ → List ℕ
insert_all [] xs = xs
insert_all (n ∷ ns) xs = insert_all ns (insert_set n xs)

unfoldable pub any_in : List ℕ → List ℕ → Bool
any_in xs [] = false
any_in xs (n ∷ ns) = contains xs n || any_in xs ns

module _ {C : Type 0} (SG : StableGraph (Option (OperatorEvent C))) where
  -- The local variables of the search; a `HashSet` is a list without repetition.
  pub record Scan : Type 0 where
    pub dfs_from_leaf : SG.Dfs
    pub preceding_events : List ℕ
    pub children : List ℕ
    pub parents : List ℕ
    pub demoted_leaves : List ℕ
    pub redundant_edges : List ℕ

  -- `forest.node_weight(i).unwrap().as_ref().unwrap()`
  unfoldable pub waiting : SG.Graph → ℕ → Option (OperatorEvent C)
  waiting g i = elim (SG.node_weight g i) [
    | none ↦ none
    | some none ↦ none
    | some (some e) ↦ some e
  ]

  -- The nodes among these whose event is greater than the added one.
  unfoldable pub followers : SG.Graph → OperatorEvent C → List ℕ → Option (List ℕ)
  followers g added [] = some []
  followers g added (p ∷ ps) = elim (waiting g p) [
    | none ↦ none
    | some parent_event ↦ elim (event_cmp parent_event added) [
      | none ↦ none
      | some c ↦ elim (followers g added ps) [
        | none ↦ none
        | some rest ↦
            some (elim c [ Ordering.gt ↦ p ∷ rest | Ordering.eq ↦ rest | Ordering.lt ↦ rest ])
      ]
    ]
  ]

  -- `forest.find_edge(p, v).unwrap()` for each
  unfoldable pub edges_to : SG.Graph → ℕ → List ℕ → Option (List ℕ)
  edges_to g v [] = some []
  edges_to g v (p ∷ ps) = elim (SG.find_edge g p v) [
    | none ↦ none
    | some e ↦ elim (edges_to g v ps) [ none ↦ none | some es ↦ some (e ∷ es) ]
  ]

  unfoldable pub visit_less : SG.Graph → List RunnableEvent → ℕ → Scan → Scan
  visit_less g run_queue v s =
      if length (SG.outgoing g v) == 0
      then record s {
        parents = insert_set v s.parents;
        demoted_leaves = s.demoted_leaves ++ queued v run_queue;
      }
      else s

  -- Also the branch of a node that is executing.
  unfoldable pub visit_equal : SG.Graph → OperatorEvent C → ℕ → Scan → Option Scan
  visit_equal g added v s = elim (followers g added (SG.incoming g v)) [
    | none ↦ none
    | some ps ↦ some (record s { parents = insert_all ps s.parents })
  ]

  unfoldable pub visit_greater : SG.Graph → OperatorEvent C → ℕ → Scan → Option Scan
  visit_greater g added v s = elim (followers g added (SG.incoming g v)) [
    | none ↦ none
    | some ps ↦ elim (edges_to g v ps) [
      | none ↦ none
      | some es ↦ some (record s {
        children = insert_set v s.children;
        preceding_events = insert_set v s.preceding_events;
        parents = insert_all ps s.parents;
        redundant_edges = s.redundant_edges ++ es;
      })
    ]
  ]

  unfoldable pub visit_event :
      SG.Graph
      → List RunnableEvent
      → OperatorEvent C
      → ℕ
      → Option (OperatorEvent C)
      → Scan
      → Option Scan
  visit_event g run_queue added v none s = visit_equal g added v s
  visit_event g run_queue added v (some visited_event) s = elim (event_cmp added visited_event) [
    | none ↦ none
    | some Ordering.lt ↦ some (visit_less g run_queue v s)
    | some Ordering.eq ↦ visit_equal g added v s
    | some Ordering.gt ↦ visit_greater g added v s
  ]

  -- The body of the `while let`; the flag says `continue 'dfs_leaves`.
  unfoldable pub visit :
      SG.Graph → List RunnableEvent → OperatorEvent C → ℕ → Scan → Option (Scan × Bool)
  visit g run_queue added v s =
      if any_in s.preceding_events (SG.incoming g v)
      then some (record s { preceding_events = insert_set v s.preceding_events }, true)
      else elim (SG.node_weight g v) [
        | none ↦ none
        | some weight ↦ elim (visit_event g run_queue added v weight s) [
          | none ↦ none
          | some s' ↦ some (s', false)
        ]
      ]

  -- The `while let`. `None` also when the fuel runs out.
  unfoldable pub walk : ℕ → SG.Graph → List RunnableEvent → OperatorEvent C → Scan → Option Scan
  walk zero g run_queue added s = none
  walk (suc fuel) g run_queue added s = elim (SG.next g s.dfs_from_leaf) [
    | none ↦ some s
    | some (v, dfs) ↦ elim (visit g run_queue added v (record s { dfs_from_leaf = dfs })) [
      | none ↦ none
      | some (s', true) ↦ some s'
      | some (s', false) ↦ walk fuel g run_queue added s'
    ]
  ]

  -- `'dfs_leaves`; each step of the search emits a node that was not yet emitted.
  unfoldable pub search :
      SG.Graph → List RunnableEvent → OperatorEvent C → List RunnableEvent → Scan → Option Scan
  search g run_queue added [] s = some s
  search g run_queue added (leaf ∷ leaves) s =
      let dfs = SG.move_to s.dfs_from_leaf leaf.node_index in
      elim (walk (suc (SG.remaining g dfs)) g run_queue added (record s { dfs_from_leaf = dfs })) [
        | none ↦ none
        | some s' ↦ search g run_queue added leaves s'
      ]

  abbrev pub start : SG.Graph → Scan
  start g = record {
    dfs_from_leaf = SG.dfs_empty g;
    preceding_events = [];
    children = [];
    parents = [];
    demoted_leaves = [];
    redundant_edges = [];
  }
