-- ===== src/Lattice.antt =====
-- src/node/lattice.rs: `ExecutionLattice`, the waiting events in a dependency graph. An edge
-- leads from an event to one that must complete before it. Each method holds all locks, so it
-- is a function of the state; `None` is a panic.
pub mod Petgraph
pub mod Runnable
pub mod Search
pub mod SmallGraph
pub mod RunQueue
pub mod Invariant
pub mod Taking
pub mod Promote
pub mod Complete
pub mod Adding
pub mod History
pub mod Justified
use erdos.Prelude.{
  ℕ, zero, suc, Bool, true, false, not, List, [], ◌∷◌, ◌++◌, Option, none, some, Ordering, ◌==◌,
  ltb, length, keep, contains, insert_set, if◌then◌else◌, ◌||◌, compare, reverse_ord,
}
use erdos.Event.{OperatorEvent}
use erdos.Lattice.Runnable.{RunnableEvent, pop, with_timestamp, remove_index, not_in}
use erdos.Lattice.Search.{Scan, search, start, waiting}
use erdos.Lattice.Petgraph.{StableGraph}

module _ {C : Type 0} (SG : StableGraph (Option (OperatorEvent C))) where
  pub record ExecutionLattice : Type 0 where
    pub forest : SG.Graph
    pub leaves : List RunnableEvent
    pub run_queue : List RunnableEvent

  abbrev pub new : ExecutionLattice
  new = record { forest = SG.new; leaves = []; run_queue = [] }

  unfoldable pub add_edges_to : ℕ → List ℕ → SG.Graph → SG.Graph
  add_edges_to i [] g = g
  add_edges_to i (c ∷ cs) g = add_edges_to i cs (SG.add_edge g i c)

  unfoldable pub add_edges_from : ℕ → List ℕ → SG.Graph → SG.Graph
  add_edges_from i [] g = g
  add_edges_from i (p ∷ ps) g = add_edges_from i ps (SG.add_edge g p i)

  unfoldable pub remove_edges : List ℕ → SG.Graph → Option SG.Graph
  remove_edges [] g = some g
  remove_edges (e ∷ es) g = elim (SG.remove_edge g e) [ none ↦ none | some g' ↦ remove_edges es g' ]

  -- The part after the search.
  unfoldable pub insert_event :
      ExecutionLattice → OperatorEvent C → Scan SG → Option ExecutionLattice
  insert_event L added s =
      let (g, i) = SG.add_node L.forest (some added) in
      let g' = add_edges_from i s.parents (add_edges_to i s.children g) in
      let demoted = ltb 0 (length s.demoted_leaves) in
      let leaves = if demoted then keep (not_in s.demoted_leaves) L.leaves else L.leaves in
      let run_queue = if demoted then keep (not_in s.demoted_leaves) L.run_queue else L.run_queue in
      let event = with_timestamp i added.timestamp in
      let runnable = length s.preceding_events == 0 in
      elim (remove_edges s.redundant_edges g') [
        | none ↦ none
        | some forest ↦ some (record {
          forest = forest;
          leaves = if runnable then leaves ++ (event ∷ []) else leaves;
          run_queue = if runnable then event ∷ run_queue else run_queue;
        })
      ]

  unfoldable pub add_event : ExecutionLattice → OperatorEvent C → Option ExecutionLattice
  add_event L added = elim (search SG L.forest L.run_queue added L.leaves (start SG L.forest)) [
    | none ↦ none
    | some s ↦ insert_event L added s
  ]

  unfoldable pub add_events : ExecutionLattice → List (OperatorEvent C) → Option ExecutionLattice
  add_events L [] = some L
  add_events L (e ∷ es) = elim (add_event L e) [ none ↦ none | some L' ↦ add_events L' es ]

  unfoldable pub get_event :
      ExecutionLattice → Option (Option (OperatorEvent C × ℕ) × ExecutionLattice)
  get_event L = elim (pop L.run_queue) [
    | none ↦ some (none, L)
    | some (x, rest) ↦ elim (waiting SG L.forest x.node_index) [
      | none ↦ none
      | some event ↦ some (
        some (event, x.node_index),
        record L { forest = SG.set_weight L.forest x.node_index none; run_queue = rest },
      )
    ]
  ]

  -- The loop of `mark_as_completed`, which pushes on the leaves and the run queue.
  unfoldable pub promote :
      SG.Graph
      → List ℕ
      → List RunnableEvent
      → List RunnableEvent
      → Option (List RunnableEvent × List RunnableEvent)
  promote g [] leaves run_queue = some (leaves, run_queue)
  promote g (p ∷ ps) leaves run_queue = elim (length (SG.outgoing g p)) [
    | suc n ↦ promote g ps leaves run_queue
    | zero ↦ elim (waiting SG g p) [
      | none ↦ none
      | some event ↦
          let parent = with_timestamp p event.timestamp in
          promote g ps (leaves ++ (parent ∷ [])) (parent ∷ run_queue)
    ]
  ]

  unfoldable pub mark_as_completed : ExecutionLattice → ℕ → Option ExecutionLattice
  mark_as_completed L event_id = elim (remove_index event_id L.leaves) [
    | none ↦ none
    | some leaves ↦
        let parent_ids = SG.incoming L.forest event_id in
        let g = SG.remove_node L.forest event_id in
        elim (promote g parent_ids leaves L.run_queue) [
          | none ↦ none
          | some (leaves', run_queue') ↦
              some (record { forest = g; leaves = leaves'; run_queue = run_queue' })
        ]
  ]
