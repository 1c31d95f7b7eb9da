-- ===== src/Tests/Dependencies.antt =====
-- A lattice of two events, of which one depends on the other, and a runner of events.
use erdos.Prelude.{
  insert_set, ◌⊎◌, inr, ℕ, zero, suc, ◌≡◌, refl, inl, [], ◌∷◌, none, some, arith, ◌≢◌,
}
use erdos.Message
use erdos.Message.{Timestamp}
use erdos.Event.{OperatorEvent, event_cmp, cmp_watermarks, resolve_access_conflicts, is_disjoint}
use mathlib.Core.Path.{subst₂}
use erdos.Lattice.{
  ExecutionLattice, new, add_event, insert_event, add_edges_to, add_edges_from, remove_edges,
}
use erdos.Lattice.Search.{
  search, walk, visit, visit_event, visit_equal, visit_greater, followers, edges_to, any_in,
  insert_all, waiting,
}
use erdos.Lattice.Justified.{Justified, Reachable-Justified}
use erdos.Lattice.Adding.Edges.{added_index, add_event_while_executing}
use erdos.Lattice.RunQueue.{count_index}
use erdos.Lattice.History.{Reachable, started, added}
use erdos.Lattice.Runnable.{with_timestamp}
use erdos.Lattice.Invariant.{IsValid}
use erdos.Node.Executor.{Covers, run_events, run_events-ends}
use erdos.Lattice.SmallGraph.Instance.{small_graph}
use erdos.Lattice.SmallGraph.Slots.{with_nodes}
use erdos.Tests.Lattices.{
  at, event, executing, executing-IsValid, graph, one_event, one_event-IsValid,
}

-- A later watermark callback is added: it depends on the first.
abbrev later : OperatorEvent (Unit {0})
later = record event { timestamp = at 2 }

abbrev two_events : ExecutionLattice graph
two_events = record {
  forest = graph.add_edge (graph.add_node one_event.forest (some later)).0 1 0;
  leaves = with_timestamp 0 (at 1) ∷ [];
  run_queue = with_timestamp 0 (at 1) ∷ [];
}

Either : OperatorEvent (Unit {0}) → Type 0
Either e = (event ≡ e) ⊎ (later ≡ e)

Either-no_panic : (x y : OperatorEvent (Unit {0})) → Either x → Either y → event_cmp x y ≢ none
unfolding Either event_cmp cmp_watermarks resolve_access_conflicts is_disjoint Message.cmp
    Message.cmp_time
Either-no_panic x y (inl p) (inl q) = subst₂ (λ a b. event_cmp a b ≢ none) p q (λ h. cc)
Either-no_panic x y (inl p) (inr q) = subst₂ (λ a b. event_cmp a b ≢ none) p q (λ h. cc)
Either-no_panic x y (inr p) (inl q) = subst₂ (λ a b. event_cmp a b ≢ none) p q (λ h. cc)
Either-no_panic x y (inr p) (inr q) = subst₂ (λ a b. event_cmp a b ≢ none) p q (λ h. cc)

two_events-added : add_event graph one_event later ≡ some two_events
unfolding insert_set small_graph with_nodes add_event insert_event search walk visit visit_event
    visit_equal visit_greater followers edges_to any_in insert_all add_edges_to add_edges_from
    remove_edges event_cmp cmp_watermarks resolve_access_conflicts is_disjoint Message.cmp
    Message.cmp_time waiting
two_events-added = refl

while_executing : ExecutionLattice graph
unfolding small_graph with_nodes
while_executing = record {
  forest = (graph.add_node executing.forest (some later)).0;
  leaves = with_timestamp 0 (at 1) ∷ with_timestamp 1 (at 2) ∷ [];
  run_queue = with_timestamp 1 (at 2) ∷ [];
}

while_executing-added : add_event graph executing later ≡ some while_executing
unfolding while_executing small_graph with_nodes add_event insert_event search walk visit
    visit_event visit_equal visit_greater followers edges_to any_in insert_all add_edges_to
    add_edges_from remove_edges event_cmp cmp_watermarks resolve_access_conflicts is_disjoint
    Message.cmp Message.cmp_time waiting
while_executing-added = refl

two_events-Reachable : Reachable graph Either two_events
unfolding small_graph Either add_event insert_event search add_edges_to add_edges_from remove_edges
two_events-Reachable =
    added one_event two_events later (added (new graph) one_event event started (inl refl) refl)
      (inr refl) two_events-added

Reachable-Justified_example : Justified graph two_events
Reachable-Justified_example =
    Reachable-Justified graph Either Either-no_panic two_events two_events-Reachable

executing-none_wait :
    (n : ℕ) (e : OperatorEvent (Unit {0})) → graph.node_weight executing.forest n ≢ some (some e)
unfolding small_graph with_nodes
executing-none_wait zero e = λ h. cc
executing-none_wait (suc n) e = λ h. cc

add_event_while_executing_example :
    (graph.node_weight while_executing.forest (added_index graph executing later)
      ≡ some (some later))
    × (count_index (added_index graph executing later) while_executing.run_queue ≡ 1)
add_event_while_executing_example =
    add_event_while_executing graph executing while_executing later executing-IsValid
      (λ n e h. absurd (executing-none_wait n e h)) while_executing-added executing-none_wait

one_event-Covers : Covers graph (0 ∷ []) one_event.forest
unfolding small_graph
one_event-Covers zero h = refl
one_event-Covers (suc n) h = absurd (cc)

-- The world counts the callbacks that ran.
run_events-ends_example :
    (L' : ExecutionLattice graph) × (n : ℕ) × (run_events graph (λ c k. suc k) 2 one_event 0
      ≡ some (L', n))
    × IsValid graph L'
    × (L'.run_queue ≡ [])
run_events-ends_example =
    run_events-ends graph (λ c k. suc k) (0 ∷ []) 2 one_event 0 one_event-IsValid one_event-Covers
      (omega arith)
