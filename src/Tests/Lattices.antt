-- ===== src/Tests/Lattices.antt =====
-- A lattice of one event, on the small graph.
use erdos.Prelude.{
  ℕ, zero, suc, ◌≡◌, refl, inl, true, [], ◌∷◌, Option, none, some, arith, ◌≢◌, ◌==◌, if◌then◌else◌,
}
use erdos.Prelude.Int.{pos}
use erdos.Message
use erdos.Message.{Timestamp}
use erdos.Event.{OperatorEvent, event_cmp, cmp_watermarks, resolve_access_conflicts, is_disjoint}
use mathlib.Core.Path.{subst₂}
use erdos.Lattice.{
  ExecutionLattice, new, add_event, insert_event, add_edges_to, add_edges_from, remove_edges,
  get_event, mark_as_completed,
}
use erdos.Lattice.Search.{search}
use erdos.Lattice.Adding.Visits.{Comparable}
use erdos.Lattice.Adding.Result.{add_event-IsValid}
use erdos.Lattice.History.{Reachable, started, added, Reachable-no_panic}
use erdos.Lattice.Runnable.{with_timestamp}
use erdos.Lattice.Invariant.{IsValid, Statuses}
use erdos.Lattice.Complete.{mark_as_completed-IsValid}
use erdos.Lattice.Petgraph.{StableGraph}
use erdos.Lattice.SmallGraph.Instance.{small_graph}
use erdos.Lattice.SmallGraph.Slots.{with_nodes}

abbrev pub at : ℕ → Timestamp
at t = Message.new (t ∷ [])

abbrev pub event : OperatorEvent (Unit {0})
event = record {
  timestamp = at 1;
  is_watermark_callback = true;
  priority = pos 0;
  callback = tt;
  read_ids = [];
  write_ids = [];
}

abbrev pub graph : StableGraph (Option (OperatorEvent (Unit {0})))
graph = small_graph (Option (OperatorEvent (Unit {0})))

abbrev pub one_event : ExecutionLattice graph
one_event = record {
  forest = (graph.add_node graph.new (some event)).0;
  leaves = with_timestamp 0 (at 1) ∷ [];
  run_queue = with_timestamp 0 (at 1) ∷ [];
}

one_event-Statuses : Statuses graph one_event
unfolding small_graph
one_event-Statuses zero = inl (refl, refl, λ b. refl)
one_event-Statuses (suc n) = (ground arith, ground arith)

pub one_event-IsValid : IsValid graph one_event
unfolding small_graph
one_event-IsValid = (one_event-Statuses, λ a b. omega arith, ((event, refl, refl), tt))

-- The same with the event taken.
abbrev pub executing : ExecutionLattice graph
executing = record one_event { forest = graph.set_weight one_event.forest 0 none; run_queue = [] }

executing-Statuses : Statuses graph executing
unfolding small_graph with_nodes
executing-Statuses zero = (refl, refl, λ b. refl)
executing-Statuses (suc n) = (ground arith, ground arith)

pub executing-IsValid : IsValid graph executing
unfolding small_graph with_nodes
executing-IsValid = (executing-Statuses, λ a b. omega arith, tt)

mark_as_completed-IsValid_example :
    (L' : ExecutionLattice graph) × (mark_as_completed graph executing 0 ≡ some L')
    × IsValid graph L'
    × (L'.forest ≡ graph.remove_node executing.forest 0)
unfolding small_graph with_nodes
mark_as_completed-IsValid_example =
    mark_as_completed-IsValid graph executing 0 executing-IsValid refl

event-no_panic : event_cmp event event ≢ none
unfolding event_cmp cmp_watermarks resolve_access_conflicts is_disjoint Message.cmp Message.cmp_time
event-no_panic = λ h. cc

Same : OperatorEvent (Unit {0}) → Type 0
Same e = event ≡ e

Same-no_panic : (x y : OperatorEvent (Unit {0})) → Same x → Same y → event_cmp x y ≢ none
unfolding Same
Same-no_panic x y p q = subst₂ (λ a b. event_cmp a b ≢ none) p q event-no_panic

one_event-Waiting :
    (n : ℕ) (e : OperatorEvent (Unit {0}))
    → graph.node_weight one_event.forest n ≡ some (some e)
    → Same e
unfolding small_graph Same
one_event-Waiting zero e h = ground (arith, h)
one_event-Waiting (suc n) e h = absurd (ground (arith, h))

one_event-Comparable : Comparable graph one_event event
unfolding Same
one_event-Comparable n e h =
    let s = one_event-Waiting n e h in (Same-no_panic event e refl s, Same-no_panic e event s refl)

add_event-IsValid_example :
    (L' : ExecutionLattice graph) × (add_event graph one_event event ≡ some L')
    × IsValid graph L'
    × ((n : ℕ)
        → graph.node_weight L'.forest n ≡ (
            if (graph.add_node one_event.forest (some event)).1 == n
            then some (some event)
            else graph.node_weight one_event.forest n))
add_event-IsValid_example =
    add_event-IsValid graph one_event event one_event-IsValid one_event-Comparable

one_event-Reachable : Reachable graph Same one_event
unfolding small_graph Same add_event insert_event search add_edges_to add_edges_from remove_edges
one_event-Reachable = added (new graph) one_event event started refl refl

Reachable-no_panic_example :
    IsValid graph one_event
    × ((e : OperatorEvent (Unit {0})) → Same e → add_event graph one_event e ≢ none)
    × (get_event graph one_event ≢ none)
    × ((id : ℕ)
        → graph.node_weight one_event.forest id ≡ some none
        → mark_as_completed graph one_event id ≢ none)
Reachable-no_panic_example =
    Reachable-no_panic graph Same Same-no_panic one_event one_event-Reachable
