-- ===== src/Tests/Graphs.antt =====
-- A graph of two operators on two nodes, joined by a stream.
use erdos.Prelude.{ℕ, ◌≡◌, ◌≢◌, ◌≤◌, ◌↔◌, refl, Bool, true, List, [], ◌∷◌, none, some, arith}
use erdos.Prelude.HashMap.{get, insert, IsMap}
use erdos.Message.{Message}
use erdos.Communication.{err, Mpsc}
use erdos.Communication.Endpoint.{SendEndpoint, Outgoing, inter_thread}
use erdos.Graph.{
  Graph, new, add_operator, add_operator_stream, add_loop_stream, add_stream_alias, unreachable,
  add_channels, operator_channels, driver_channels, add_channels_to, add_stream_channel, add_reads,
  resolve_stream_id, get_vertices_on,
}
use erdos.Graph.Vertices.{operator, vertex_eq}
use erdos.Graph.Edges.{StreamMetadata, inter_node, unscheduled, add_channel}
use erdos.Graph.Channels.{channels_to, Labelled}
use erdos.Graph.Subscriptions.{subscribed}
use erdos.Graph.Wiring.{resolved_count}
use erdos.Graph.Wiring.Reachable.{
  Reachable, start, operator_added, operator_stream_added, loop_stream_added, channels_match_reads,
}
use erdos.Graph.Wiring.Aliases.{add_stream_alias-unreachable}
use erdos.Scheduler.{
  schedule, schedule_streams, schedule_stream, schedule_channels, schedule_channel, node_of,
}
use erdos.Scheduler.Known.{schedule-panics, schedule-IsScheduled}
use erdos.Scheduler.Placement.{IsScheduled}
use erdos.ChannelManager.{ChannelManager}
use erdos.ChannelManager.Manager
use erdos.ChannelManager
use erdos.ChannelManager.Counts.{due_recv}
use erdos.ChannelManager.Taking.{take_many, take_many-due}
use erdos.Tests.Streams.{channel}

-- Operator 1 on node 0 writes stream 7, which operator 2 on node 1 reads.
abbrev writer : Graph (Unit {0}) (Unit {0})
writer = add_operator_stream (add_operator new 1 0 [] (7 ∷ []) tt) 1 7

abbrev pub graph : Graph (Unit {0}) (Unit {0})
graph = add_operator writer 2 1 (7 ∷ []) [] tt

writer-Reachable : Reachable writer
unfolding get add_operator
writer-Reachable =
    operator_stream_added 1 7 (operator_added 1 0 [] (7 ∷ []) tt start refl)
      (refl, λ x h. ground arith)

graph-Reachable : Reachable graph
unfolding get add_operator add_operator_stream insert
graph-Reachable = operator_added 2 1 (7 ∷ []) [] tt writer-Reachable refl

abbrev stream : StreamMetadata
stream = record {
  id = 7;
  source = operator 1;
  channels = unscheduled (record { stream_id = 7; source = operator 1; sink = operator 2 }) ∷ [];
}

stream-found : get 7 graph.streams ≡ some stream
unfolding get add_operator add_operator_stream insert add_reads add_stream_channel add_channel
    add_channels operator_channels driver_channels add_channels_to resolve_stream_id
stream-found = refl

channels_match_reads_example :
    (stream.id ≡ 7)
    × Labelled stream
    × (channels_to (operator 2) stream.channels
        ≡ resolved_count graph.stream_aliases 7 (subscribed graph (operator 2)))
channels_match_reads_example =
    channels_match_reads 7 stream (operator 2) graph-Reachable stream-found

-- One channel, to operator 2.
one_channel : channels_to (operator 2) stream.channels ≡ 1
unfolding vertex_eq
one_channel = refl

abbrev scheduled_stream : StreamMetadata
scheduled_stream = record stream {
  channels = inter_node (record { stream_id = 7; source = operator 1; sink = operator 2 }) ∷ [];
}

abbrev scheduled : Graph (Unit {0}) (Unit {0})
scheduled = record graph { streams = (7, scheduled_stream) ∷ [] }

graph-scheduled : schedule graph ≡ some scheduled
unfolding get add_operator add_operator_stream insert add_reads add_stream_channel add_channel
    add_channels operator_channels driver_channels add_channels_to resolve_stream_id schedule
    schedule_streams schedule_stream schedule_channels schedule_channel node_of
graph-scheduled = refl

scheduled-found : get 7 scheduled.streams ≡ some scheduled_stream
unfolding get
scheduled-found = refl

schedule-IsScheduled_example :
    ((s : StreamMetadata) × (get 7 graph.streams ≡ some s)
      × IsScheduled graph.operators s scheduled_stream)
    × (scheduled.operators ≡ graph.operators)
    × (scheduled.drivers ≡ graph.drivers)
    × (scheduled.stream_aliases ≡ graph.stream_aliases)
schedule-IsScheduled_example =
    schedule-IsScheduled graph scheduled 7 scheduled_stream graph-Reachable graph-scheduled
      scheduled-found

-- A loop stream that is never set has no source.
abbrev looped : Graph (Unit {0}) (Unit {0})
looped = add_loop_stream graph 9

looped-Reachable : Reachable looped
unfolding get add_operator add_operator_stream
looped-Reachable = loop_stream_added 9 graph-Reachable (refl, λ x h. ground arith)

schedule-panics_example : (schedule looped ≡ none) ↔ (
    (id : ℕ) × (s : StreamMetadata) × (get id looped.streams ≡ some s)
    × (node_of looped.operators s.source ≡ none))
schedule-panics_example = schedule-panics looped looped-Reachable

graph-IsMap : IsMap graph.streams
unfolding get add_operator add_operator_stream insert add_reads add_stream_channel add_channel
    add_channels operator_channels driver_channels add_channels_to resolve_stream_id
graph-IsMap = (refl, tt)

add_stream_alias-unreachable_example :
    (add_stream_alias graph 7 7 ≡ err unreachable)
    ↔ ((◌≡◌ {A = ℕ} 7 7) × ((s : StreamMetadata) × (get 7 graph.streams ≡ some s)))
add_stream_alias-unreachable_example = add_stream_alias-unreachable graph 7 7 graph-IsMap

abbrev local : Mpsc (Message ℕ)
local = channel (Message ℕ)

abbrev remote : Mpsc (Outgoing ℕ)
remote = channel (Outgoing ℕ)

abbrev updates : Mpsc (ℕ × List (SendEndpoint local remote))
updates = channel (ℕ × List (SendEndpoint local remote))

abbrev unbounded_channel : ℕ → (Bool × List (Message ℕ)) × ℕ
unbounded_channel n = ((true, []), n)

-- The manager of node 1: the stream arrives there once.
abbrev manager : ChannelManager local remote ℕ (Unit {0}) (Unit {0})
manager = record {
  node_id = 1;
  graph = scheduled;
  stream_entries = (7, record { stream_id = 7; recv_endpoints = 0 ∷ []; send_endpoints = [] }) ∷ [];
}

abbrev updated : List (Mpsc.Tx updates)
updated = (true, (7, inter_thread (true, []) ∷ []) ∷ []) ∷ []

manager-new :
    Manager.new unbounded_channel updates scheduled 1 ((true, []) ∷ []) [] ≡ some (manager, updated)
unfolding Manager.new ChannelManager.add_streams ChannelManager.add_stream
    ChannelManager.contains_vertex add_operator insert add_operator_stream vertex_eq
    Manager.send_updates ChannelManager.sink_channels ChannelManager.add_inter_node_recv_endpoint
    Manager.send_update get
manager-new = refl

take_many-due_example :
    (take_many 1 manager 7 ≢ none) ↔ (1 ≤ due_recv (get_vertices_on scheduled 1) scheduled_stream)
unfolding get resolve_stream_id add_operator add_operator_stream
take_many-due_example =
    take_many-due unbounded_channel updates scheduled 1 ((true, []) ∷ []) updated [] manager 7 1
      scheduled_stream (refl, tt) (refl, tt) manager-new refl
