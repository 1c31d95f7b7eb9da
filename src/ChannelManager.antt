-- ===== src/ChannelManager.antt =====
-- src/scheduler/channel_manager.rs and src/scheduler/endpoints_manager.rs: the endpoints of the
-- streams on a node. All streams carry data of one type, so a cast of an entry succeeds. The
-- senders and receivers of channels belong to tokio: `unbounded_channel n` is the channel that
-- the call number `n` makes. `None` is a panic.
pub mod Manager
pub mod Counts
pub mod Endpoints
pub mod Taking
use erdos.Prelude.{
  ℕ, suc, Bool, true, false, List, [], ◌∷◌, ◌++◌, Option, none, some, if◌then◌else◌, ◌||◌,
}
use erdos.Prelude.HashMap.{get, insert}
use erdos.Message.{Message}
use erdos.Communication.{Result, ok, err, Mpsc}
use erdos.Communication.Endpoint.{SendEndpoint, Outgoing, inter_thread, inter_process}
use erdos.Graph.{Graph, get_vertices_on, resolve_stream_id, get_streams}
use erdos.Graph.Vertices.{Vertex, vertex_eq, OperatorMetadata}
use erdos.Graph.Edges.{Channel, StreamMetadata, unscheduled}
use erdos.Graph.Edges
use erdos.Scheduler.{node_of}

-- `node_vertices.contains(v)`
unfoldable pub contains_vertex : List Vertex → Vertex → Bool
contains_vertex [] v = false
contains_vertex (w ∷ ws) v = vertex_eq w v || contains_vertex ws v

-- `Vec::pop`
unfoldable pub pop : {A : Type 0} → List A → Option (A × List A)
pop [] = none
pop (x ∷ xs) = elim (pop xs) [ none ↦ some (x, []) | some (last, rest) ↦ some (last, x ∷ rest) ]

pub data EndpointError : Type 0 where
  no_more_endpoints no_entry : EndpointError

module _ {D : Type 0} (local : Mpsc (Message D)) (remote : Mpsc (Outgoing D)) (Rx : Type 0) where
  pub record StreamEndpoints : Type 0 where
    pub stream_id : ℕ
    pub recv_endpoints : List Rx
    pub send_endpoints : List (SendEndpoint local remote)

  -- What `ChannelManager::new` builds; `next` counts the channels made so far, and a `Pusher` is
  -- the list of its endpoints.
  pub record Building : Type 0 where
    pub stream_entries : List (ℕ × StreamEndpoints)
    pub receiver_pushers : List (ℕ × List (SendEndpoint local remote))
    pub next : ℕ

  pub record ChannelManager (R H : Type 0) : Type 0 where
    pub node_id : ℕ
    pub graph : Graph R H
    pub stream_entries : List (ℕ × StreamEndpoints)

abbrev pub pusher_or_new : {E : Type 0} → ℕ → List (ℕ × List E) → List E
pusher_or_new id m = elim (get id m) [ none ↦ [] | some es ↦ es ]

module _ {D : Type 0} {local : Mpsc (Message D)} {remote : Mpsc (Outgoing D)} {Rx : Type 0} where
  abbrev pub new_endpoints : ℕ → StreamEndpoints local remote Rx
  new_endpoints stream_id = record {
    stream_id = stream_id;
    recv_endpoints = [];
    send_endpoints = [];
  }

  unfoldable pub take_recv_endpoint :
      StreamEndpoints local remote Rx → Result (Rx × StreamEndpoints local remote Rx) EndpointError
  take_recv_endpoint e = elim (pop e.recv_endpoints) [
    | none ↦ err no_more_endpoints
    | some (rx, rest) ↦ ok (rx, record e { recv_endpoints = rest })
  ]

  -- `result.append(&mut self.send_endpoints)`
  abbrev pub take_send_endpoints :
      StreamEndpoints local remote Rx
      → List (SendEndpoint local remote) × StreamEndpoints local remote Rx
  take_send_endpoints e = (e.send_endpoints, record e { send_endpoints = [] })

  abbrev pub add_send_endpoint :
      StreamEndpoints local remote Rx → SendEndpoint local remote → StreamEndpoints local remote Rx
  add_send_endpoint e endpoint = record e { send_endpoints = e.send_endpoints ++ (endpoint ∷ []) }

  abbrev pub add_recv_endpoint :
      StreamEndpoints local remote Rx → Rx → StreamEndpoints local remote Rx
  add_recv_endpoint e endpoint = record e { recv_endpoints = e.recv_endpoints ++ (endpoint ∷ []) }

  -- `ChannelsToSenders::add_sender` and `clone_channel` are `insert` and `get`.
  unfoldable pub add_inter_node_send_endpoint :
      List (ℕ × Mpsc.Tx remote)
      → ℕ
      → StreamEndpoints local remote Rx
      → Option (StreamEndpoints local remote Rx)
  add_inter_node_send_endpoint senders other_node_id e = elim (get other_node_id senders) [
    | none ↦ none
    | some tx ↦ some (add_send_endpoint e (inter_process e.stream_id tx))
  ]

  -- `entry(id).or_insert_with(…)`
  abbrev pub entry_or_new :
      ℕ → List (ℕ × StreamEndpoints local remote Rx) → StreamEndpoints local remote Rx
  entry_or_new id m = elim (get id m) [ none ↦ new_endpoints id | some e ↦ e ]

  module _ (unbounded_channel : ℕ → Mpsc.Tx local × Rx) where
    unfoldable pub add_inter_thread_channel :
        ℕ → StreamEndpoints local remote Rx → StreamEndpoints local remote Rx
    add_inter_thread_channel n e =
        let (tx, rx) = unbounded_channel n in
        add_recv_endpoint (add_send_endpoint e (inter_thread tx)) rx

    -- The channels of a stream that starts on the node.
    unfoldable pub source_channels :
        {R : Type 0}
        → List (ℕ × OperatorMetadata R)
        → List (ℕ × Mpsc.Tx remote)
        → List Channel
        → StreamEndpoints local remote Rx
        → ℕ
        → Option (StreamEndpoints local remote Rx × ℕ)
    source_channels operators senders [] e next = some (e, next)
    source_channels operators senders (Channel.inter_node cm ∷ cs) e next =
        elim (node_of operators cm.sink) [
          | none ↦ none
          | some other_node_id ↦ elim (add_inter_node_send_endpoint senders other_node_id e) [
            | none ↦ none
            | some e' ↦ source_channels operators senders cs e' next
          ]
        ]
    source_channels operators senders (Channel.inter_thread cm ∷ cs) e next =
        source_channels operators senders cs (add_inter_thread_channel next e) (suc next)
    source_channels operators senders (unscheduled cm ∷ cs) e next =
        source_channels operators senders cs e next

    -- `add_inter_node_recv_endpoint` on the entry of the stream.
    unfoldable pub add_inter_node_recv_endpoint :
        ℕ → Building local remote Rx → Building local remote Rx
    add_inter_node_recv_endpoint id b =
        let (tx, rx) = unbounded_channel b.next in
        let e = entry_or_new id b.stream_entries in
        record {
          stream_entries = insert id (add_recv_endpoint e rx) b.stream_entries;
          receiver_pushers =
              insert e.stream_id
                (pusher_or_new e.stream_id b.receiver_pushers ++ (inter_thread tx ∷ []))
                b.receiver_pushers;
          next = suc b.next;
        }

    -- The channels of a stream that starts elsewhere.
    unfoldable pub sink_channels :
        List Vertex → ℕ → List Channel → Building local remote Rx → Building local remote Rx
    sink_channels node_vertices id [] b = b
    sink_channels node_vertices id (Channel.inter_node cm ∷ cs) b =
        sink_channels node_vertices id cs
          (if contains_vertex node_vertices cm.sink then add_inter_node_recv_endpoint id b else b)
    sink_channels node_vertices id (Channel.inter_thread cm ∷ cs) b =
        sink_channels node_vertices id cs b
    sink_channels node_vertices id (unscheduled cm ∷ cs) b = sink_channels node_vertices id cs b

    unfoldable pub add_stream :
        {R : Type 0}
        → List (ℕ × OperatorMetadata R)
        → List Vertex
        → List (ℕ × Mpsc.Tx remote)
        → StreamMetadata
        → Building local remote Rx
        → Option (Building local remote Rx)
    add_stream operators node_vertices senders s b =
        if contains_vertex node_vertices s.source
        then elim (source_channels operators senders s.channels (entry_or_new s.id b.stream_entries)
            b.next) [
              | none ↦ none
              | some (e, next) ↦
                  some (record b { stream_entries = insert s.id e b.stream_entries; next = next })
            ]
        else some (sink_channels node_vertices s.id s.channels b)

    unfoldable pub add_streams :
        {R : Type 0}
        → List (ℕ × OperatorMetadata R)
        → List Vertex
        → List (ℕ × Mpsc.Tx remote)
        → List StreamMetadata
        → Building local remote Rx
        → Option (Building local remote Rx)
    add_streams operators node_vertices senders [] b = some b
    add_streams operators node_vertices senders (s ∷ ss) b =
        elim (add_stream operators node_vertices senders s b) [
          | none ↦ none
          | some b' ↦ add_streams operators node_vertices senders ss b'
        ]
