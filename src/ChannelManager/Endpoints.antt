-- ===== src/ChannelManager/Endpoints.antt =====
-- src/scheduler/channel_manager.rs: a channel manager has, for each stream, the endpoints that
-- the stream is due on its node, and gives them away one by one.
use erdos.Prelude.{
  ℕ, ◌+◌, ◌≡◌, refl, ap, true, false, List, [], ◌∷◌, none, some, ◌==◌, if◌then◌else◌, arith,
  Bool-cases, Option-cases, inl, inr, ==_iff, All,
}
use mathlib.Core.Path.{subst}
use erdos.Prelude.HashMap.{get, insert, IsMap, values}
use erdos.Message.{Message}
use erdos.Communication.{Mpsc}
use erdos.Communication.Endpoint.{SendEndpoint, Outgoing}
use erdos.Graph.{Graph, get_vertices_on}
use erdos.Graph.Vertices.{Vertex, OperatorMetadata}
use erdos.Graph.Edges.{StreamMetadata}
use erdos.ChannelManager.{
  StreamEndpoints, Building, ChannelManager, contains_vertex, source_channels, entry_or_new,
  sink_channels, add_stream, add_streams,
}
use erdos.ChannelManager.Manager.{new, send_updates}
use erdos.ChannelManager.Counts.{
  due_recv, due_send, recv_count, send_count, recv_at, send_at, entry_or_new-insert,
  source_channels-counts, sink_channels-counts,
}

some-injective {ℓ} : {A : Type ℓ} {x y : A} → some x ≡ some y → x ≡ y
some-injective h = cc

-- What the streams of an id are due together.
abbrev pub due_at : (StreamMetadata → ℕ) → ℕ → List StreamMetadata → ℕ
due_at due j [] = 0
due_at due j (s ∷ ss) = (if s.id == j then due s else 0) + due_at due j ss

pub due_at-values :
    (due : StreamMetadata → ℕ) (j : ℕ) (m : List (ℕ × StreamMetadata))
    → IsMap m
    → All (λ e. e.1.id ≡ e.0) m
    → due_at due j (values m) ≡ elim (get j m) [ none ↦ 0 | some s ↦ due s ]
unfolding get
due_at-values due j [] u k = refl
due_at-values due j ((i, s) ∷ m) u k =
    let rest = due_at-values due j m u.1 k.1 in
    elim (Bool-cases (i == j)) [
      | inl t ↦
          let gone : get j m ≡ none = rw (← (==_iff i j).0 t) u.0 in
          let hit : (s.id == j) ≡ true = rw k.0 t in rw (t, hit) (omega (arith, (rw gone at rest)))
      | inr t ↦ let miss : (s.id == j) ≡ false = rw k.0 t in rw (t, miss) (omega (arith, rest))
    ]

module _ {D : Type 0} {local : Mpsc (Message D)} {remote : Mpsc (Outgoing D)} {Rx R : Type 0}
    (unbounded_channel : ℕ → Mpsc.Tx local × Rx) (operators : List (ℕ × OperatorMetadata R))
    (vs : List Vertex) (senders : List (ℕ × Mpsc.Tx remote)) where
  -- One step of the building adds `r` receiving and `k` sending endpoints at an id.
  abbrev Adds : ℕ → ℕ → ℕ → Building local remote Rx → Building local remote Rx → Type 0
  Adds j r k b b' =
      (recv_at j b'.stream_entries ≡ recv_at j b.stream_entries + r)
      × (send_at j b'.stream_entries ≡ send_at j b.stream_entries + k)

  -- The entry of the stream, put back with `r` and `k` endpoints more.
  insert-Adds :
      (id j r k next : ℕ) (e : StreamEndpoints local remote Rx) (b : Building local remote Rx)
      → recv_count e ≡ recv_at id b.stream_entries + r
      → send_count e ≡ send_at id b.stream_entries + k
      → Adds j
          (if id == j then r else 0)
          (if id == j then k else 0)
          b
          (record b { stream_entries = insert id e b.stream_entries; next = next })
  insert-Adds id j r k next e b hr hk =
      let put = entry_or_new-insert id j e b.stream_entries in
      elim (Bool-cases (id == j)) [
        | inl t ↦
            let now = rw t at put in
            let same = ap (λ k. entry_or_new k b.stream_entries) ((==_iff id j).0 t) in
            let recv = ap recv_count now in
            let recv_same = ap recv_count same in
            let send = ap send_count now in
            let send_same = ap send_count same in
            rw t (omega (arith, recv, recv_same), omega (arith, send, send_same))
        | inr t ↦
            let now = rw t at put in
            let recv = ap recv_count now in
            let send = ap send_count now in rw t (omega (arith, recv), omega (arith, send))
      ]

  add_stream-counts :
      (s : StreamMetadata) (b b' : Building local remote Rx) (j : ℕ)
      → add_stream unbounded_channel operators vs senders s b ≡ some b'
      → Adds j
          (if s.id == j then due_recv vs s else 0)
          (if s.id == j then due_send vs s else 0)
          b
          b'
  unfolding add_stream
  add_stream-counts s b b' j h = elim (Bool-cases (contains_vertex vs s.source)) [
    | inr t ↦
        let is : sink_channels unbounded_channel vs s.id s.channels b ≡ b' =
          cc (rw (t, add_stream) at h) in
        let (r, k) = sink_channels-counts unbounded_channel vs s.id j s.channels b in
        let none_sent : ◌≡◌ {A = ℕ} (if s.id == j then 0 else 0) 0 = ground arith in
        rw (t, none_sent) (subst (Adds j _ 0 b) is (r, omega (arith, k)))
    | inl t ↦
        let e0 = entry_or_new s.id b.stream_entries in
        elim (Option-cases
          (source_channels unbounded_channel operators senders s.channels e0 b.next)) [
            | inl fails ↦ absurd (cc (rw (t, fails, add_stream) at h))
            | inr ((e, next), made) ↦
                let is : record b { stream_entries = insert s.id e b.stream_entries; next = next }
                    ≡ b' =
                  cc (rw (t, made, add_stream) at h) in
                let (r, k) =
                  source_channels-counts unbounded_channel operators senders s.channels e0 e b.next
                    next made in
                rw t (subst (Adds j _ _ b) is (insert-Adds s.id j _ _ next e b r k))
          ]
  ]

  pub add_streams-counts :
      (ss : List StreamMetadata) (b b' : Building local remote Rx) (j : ℕ)
      → add_streams unbounded_channel operators vs senders ss b ≡ some b'
      → Adds j (due_at (due_recv vs) j ss) (due_at (due_send vs) j ss) b b'
  unfolding add_streams
  add_streams-counts [] b b' j h =
      let is : b ≡ b' = cc in subst (Adds j 0 0 b) is (omega arith, omega arith)
  add_streams-counts (s ∷ ss) b b' j h =
      elim (Option-cases (add_stream unbounded_channel operators vs senders s b)) [
        | inl fails ↦ absurd (cc (rw (fails, add_streams) at h))
        | inr (b1, made) ↦
            let first = add_stream-counts s b b1 j made in
            let rest = add_streams-counts ss b1 b' j (rw (made, add_streams) at h) in
            (omega (arith, first.0, rest.0), omega (arith, first.1, rest.1))
      ]

module _ {D : Type 0} {local : Mpsc (Message D)} {remote : Mpsc (Outgoing D)}
    {Rx R H : Type 0} where
  abbrev HasDue : Graph R H → ℕ → ChannelManager local remote Rx R H → Type 0
  HasDue graph node_id cm =
      (cm.graph ≡ graph)
      × ((id : ℕ) (s : StreamMetadata)
          → get id graph.streams ≡ some s
          → (recv_at id cm.stream_entries ≡ due_recv (get_vertices_on graph node_id) s)
            × (send_at id cm.stream_entries ≡ due_send (get_vertices_on graph node_id) s))

module _ {D : Type 0} {local : Mpsc (Message D)} {remote : Mpsc (Outgoing D)} {Rx R H : Type 0}
    (unbounded_channel : ℕ → Mpsc.Tx local × Rx)
    (updates : Mpsc (ℕ × List (SendEndpoint local remote))) where
  new-HasDue :
      (graph : Graph R H) (node_id : ℕ) (receivers receivers' : List (Mpsc.Tx updates))
      (senders : List (ℕ × Mpsc.Tx remote)) (cm : ChannelManager local remote Rx R H)
      → IsMap graph.streams
      → All (λ e. e.1.id ≡ e.0) graph.streams
      → new unbounded_channel updates graph node_id receivers senders ≡ some (cm, receivers')
      → HasDue graph node_id cm
  unfolding new get
  new-HasDue graph node_id receivers receivers' senders cm u k h =
      let vs = get_vertices_on graph node_id in
      let empty : Building local remote Rx = record {
        stream_entries = [];
        receiver_pushers = [];
        next = 0;
      } in
      elim (Option-cases
        (add_streams unbounded_channel graph.operators vs senders (values graph.streams) empty)) [
          | inl fails ↦ absurd (cc (rw (fails, new) at h))
          | inr (b, made) ↦
              elim (Option-cases (send_updates updates receivers b.receiver_pushers)) [
                | inl fails ↦ absurd (cc (rw (made, fails, new) at h))
                | inr (rs, sent) ↦
                    let is : record {
                      node_id = node_id;
                      graph = graph;
                      stream_entries = b.stream_entries;
                    }
                        ≡ cm =
                      ap (λ o. o.0) (some-injective (rw (made, sent, new) at h)) in
                    subst (HasDue graph node_id) is (
                      refl,
                      λ id s e.
                          let all =
                            add_streams-counts unbounded_channel graph.operators vs senders
                              (values graph.streams) empty b id made in
                          let recv = due_at-values (due_recv vs) id graph.streams u k in
                          let send = due_at-values (due_send vs) id graph.streams u k in
                          (
                            omega (arith, all.0, (rw e at recv)),
                            omega (arith, all.1, (rw e at send)),
                          ),
                    )
              ]
        ]

  pub new-graph :
      (graph : Graph R H) (node_id : ℕ) (receivers receivers' : List (Mpsc.Tx updates))
      (senders : List (ℕ × Mpsc.Tx remote)) (cm : ChannelManager local remote Rx R H)
      → IsMap graph.streams
      → All (λ e. e.1.id ≡ e.0) graph.streams
      → new unbounded_channel updates graph node_id receivers senders ≡ some (cm, receivers')
      → cm.graph ≡ graph
  new-graph graph node_id receivers receivers' senders cm u k made =
      (new-HasDue graph node_id receivers receivers' senders cm u k made).0

  -- The manager of a node has for each stream exactly the endpoints that the stream is due there:
  -- a stream that starts on the node a receiving endpoint for each channel within the node and a
  -- sending endpoint for each of these and each channel to another node; another stream a
  -- receiving endpoint for each channel between nodes that leads to a vertex of the node.
  pub new-endpoints :
      (graph : Graph R H) (node_id : ℕ) (receivers receivers' : List (Mpsc.Tx updates))
      (senders : List (ℕ × Mpsc.Tx remote)) (cm : ChannelManager local remote Rx R H) (id : ℕ)
      (s : StreamMetadata)
      → IsMap graph.streams
      → All (λ e. e.1.id ≡ e.0) graph.streams
      → new unbounded_channel updates graph node_id receivers senders ≡ some (cm, receivers')
      → get id graph.streams ≡ some s
      → (recv_at id cm.stream_entries ≡ due_recv (get_vertices_on graph node_id) s)
        × (send_at id cm.stream_entries ≡ due_send (get_vertices_on graph node_id) s)
  new-endpoints graph node_id receivers receivers' senders cm id s u k made found =
      (new-HasDue graph node_id receivers receivers' senders cm u k made).1 id s found
