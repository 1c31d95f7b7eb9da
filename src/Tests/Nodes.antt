-- ===== src/Tests/Nodes.antt =====
-- What a node of three waits for.
use erdos.Prelude.{
  true, leb, ℕ, length, ◌↔◌, ◌≡◌, refl, false, List, [], ◌∷◌, ◌++◌, some, is_some, count,
  insert_set,
}
use erdos.Communication.Control.{
  ControlMessage, ControlMessageHandler, Channels, run_operator,
  read_sender_or_receiver_initialized, read_loop, all_operators_initialized_on_node,
  operator_initialized, control_sender_initialized, control_receiver_initialized,
  data_sender_initialized, data_receiver_initialized,
}
use erdos.Node.{
  wait_loop, wait_for_all_operators_initialized, wait_for_communication_layer_initialized,
  wait_for_local_operators_initialized, some_missing, insert_initialized, insert_operator,
}
use erdos.Node.Loop.{insert_msgs}
use erdos.Node.Reports.{AllReported}
use erdos.Node.Waits.{
  announced, wait_for_all_operators_initialized-returns,
  wait_for_communication_layer_initialized-returns, wait_for_local_operators_initialized-returns,
}
use erdos.Graph
use erdos.Graph.Edges
use erdos.Scheduler
use erdos.Prelude.HashMap
use erdos.Node.Startup
use erdos.Communication.Control
use erdos.Graph.{Graph}
use erdos.Scheduler.{schedule}
use erdos.Node.Startup.{start_operators, running, local_operators}
use erdos.Node.Startup.Barrier.{start_operators-running}
use erdos.Tests.Graphs.{graph}
use erdos.Tests.Streams.{channel}

abbrev with_queue : List ControlMessage → ControlMessageHandler (channel ControlMessage)
with_queue queue = record {
  queue = queue;
  channels_to_control_senders = [];
  channels_to_control_receivers = [];
  channels_to_data_senders = [];
  channels_to_data_receivers = [];
  channels_to_nodes = [];
}

-- Node 1 announces itself twice, node 2 not.
abbrev one_of_two : ControlMessageHandler (channel ControlMessage)
one_of_two =
    with_queue (all_operators_initialized_on_node 1 ∷ all_operators_initialized_on_node 1 ∷ [])

wait_for_all_operators_initialized-returns_example :
    is_some (wait_for_all_operators_initialized (channel ControlMessage) 0 3 one_of_two) ≡ false
unfolding insert_set
wait_for_all_operators_initialized-returns_example =
    wait_for_all_operators_initialized-returns (channel ControlMessage) 0 3 one_of_two

-- In a network of two nodes, node 1 reports late that its data sender is there.
abbrev reports : List ControlMessage
reports =
    control_sender_initialized 1
    ∷ control_receiver_initialized 1
    ∷ all_operators_initialized_on_node 1
    ∷ data_receiver_initialized 1
    ∷ data_sender_initialized 1
    ∷ []

wait_for_communication_layer_initialized-returns_example :
    (is_some
        (wait_for_communication_layer_initialized (channel ControlMessage) 0 2 (with_queue reports))
      ≡ true)
    ↔ AllReported 0 2 reports
wait_for_communication_layer_initialized-returns_example =
    wait_for_communication_layer_initialized-returns (channel ControlMessage) 0 2
      (with_queue reports)

wait_for_local_operators_initialized-returns_example :
    is_some (wait_for_local_operators_initialized (operator_initialized 4 ∷ []) 2) ≡ false
unfolding insert_set insert_operator
wait_for_local_operators_initialized-returns_example =
    wait_for_local_operators_initialized-returns (operator_initialized 4 ∷ []) 2

-- Node 0 of a network of two, on which operator 1 of the graph is.
abbrev started : ControlMessageHandler (channel ControlMessage)
started = record (with_queue reports) { channels_to_nodes = (1, (true, [])) ∷ [] }

abbrev told : Channels (channel ControlMessage)
told = (1, (true, run_operator 1 ∷ [])) ∷ []

started-running :
    start_operators
      (channel ControlMessage)
      0
      2
      (λ g. some tt)
      (λ g m. some m)
      graph
      started
      (operator_initialized 1 ∷ [])
      []
      ((1, (true, [])) ∷ [])
    ≡ running told
unfolding start_operators wait_for_communication_layer_initialized wait_loop some_missing
    read_sender_or_receiver_initialized read_loop insert_initialized insert_set schedule
    Scheduler.schedule_streams Scheduler.schedule_stream Scheduler.schedule_channels
    Scheduler.schedule_channel Scheduler.node_of Graph.add_operator Graph.add_reads
    Graph.add_stream_channel Graph.add_operator_stream Graph.resolve_stream_id Graph.add_channels
    Graph.operator_channels Graph.driver_channels Graph.add_channels_to Edges.add_channel
    HashMap.get HashMap.insert Startup.announce_and_run Startup.tell_to_run Control.broadcast
    Control.read_all_operators_initialized_on_node_msg insert_operator
    wait_for_local_operators_initialized wait_for_all_operators_initialized
started-running = refl

start_operators-running_example :
    AllReported 0 2 reports
    × ((g : Graph (Unit {0}) (Unit {0})) × (schedule graph ≡ some g)
        × (leb
              (length (local_operators 0 g))
              (length (insert_msgs insert_operator (operator_initialized 1 ∷ []) []))
            ≡ true))
    × ((queue : List ControlMessage) × ((n : ℕ)
          → count n (announced queue) ≡ count n (announced reports))
        × (leb 2 (length (insert_msgs insert_set (announced (queue ++ [])) (0 ∷ []))) ≡ true))
start_operators-running_example =
    start_operators-running (channel ControlMessage) 0 2 (λ g. some tt) (λ g m. some m) graph
      started (operator_initialized 1 ∷ []) [] ((1, (true, [])) ∷ []) told started-running
