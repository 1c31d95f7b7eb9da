-- ===== src/ChannelManager/Counts.antt =====
-- src/scheduler/channel_manager.rs: how many endpoints `ChannelManager::new` makes.
use erdos.Prelude.{
  ℕ, suc, ◌+◌, ◌≡◌, refl, ap, ◌∙◌, List, [], ◌∷◌, some, ◌==◌, if◌then◌else◌, arith, Bool-cases,
  Option-cases, inl, inr, ==_iff, length, length-append,
}
use erdos.Prelude.HashMap.{get, insert, get-insert}
use erdos.Message.{Message}
use erdos.Communication.{Mpsc}
use erdos.Communication.Endpoint.{Outgoing, inter_thread, inter_process}
use erdos.Graph.Vertices.{Vertex, OperatorMetadata}
use erdos.Graph.Edges.{Channel, StreamMetadata, unscheduled}
use erdos.Scheduler.{node_of}
use erdos.ChannelManager.{
  StreamEndpoints, Building, contains_vertex, add_recv_endpoint, add_send_endpoint,
  add_inter_node_send_endpoint, add_inter_thread_channel, source_channels, entry_or_new,
  add_inter_node_recv_endpoint, sink_channels,
}

-- The channels of a stream within the node, those to other nodes, and those from another node
-- to one of the given vertices.
abbrev pub threads : List Channel → ℕ
threads [] = 0
threads (Channel.inter_thread cm ∷ cs) = suc (threads cs)
threads (Channel.inter_node cm ∷ cs) = threads cs
threads (unscheduled cm ∷ cs) = threads cs

abbrev pub crossings : List Channel → ℕ
crossings [] = 0
crossings (Channel.inter_thread cm ∷ cs) = crossings cs
crossings (Channel.inter_node cm ∷ cs) = suc (crossings cs)
crossings (unscheduled cm ∷ cs) = crossings cs

abbrev pub arrivals : List Vertex → List Channel → ℕ
arrivals vs [] = 0
arrivals vs (Channel.inter_thread cm ∷ cs) = arrivals vs cs
arrivals vs (Channel.inter_node cm ∷ cs) =
    (if contains_vertex vs cm.sink then 1 else 0) + arrivals vs cs
arrivals vs (unscheduled cm ∷ cs) = arrivals vs cs

-- The receiving and the sending endpoints that a stream is due on a node.
abbrev pub due_recv : List Vertex → StreamMetadata → ℕ
due_recv vs s = if contains_vertex vs s.source then threads s.channels else arrivals vs s.channels

abbrev pub due_send : List Vertex → StreamMetadata → ℕ
due_send vs s = if contains_vertex vs s.source then threads s.channels + crossings s.channels else 0

module _ {D : Type 0} {local : Mpsc (Message D)} {remote : Mpsc (Outgoing D)} {Rx : Type 0} where
  abbrev pub recv_count : StreamEndpoints local remote Rx → ℕ
  recv_count e = length e.recv_endpoints

  abbrev pub send_count : StreamEndpoints local remote Rx → ℕ
  send_count e = length e.send_endpoints

  abbrev pub recv_at : ℕ → List (ℕ × StreamEndpoints local remote Rx) → ℕ
  recv_at j m = recv_count (entry_or_new j m)

  abbrev pub send_at : ℕ → List (ℕ × StreamEndpoints local remote Rx) → ℕ
  send_at j m = send_count (entry_or_new j m)

  pub entry_or_new-insert :
      (k j : ℕ) (e : StreamEndpoints local remote Rx)
      (m : List (ℕ × StreamEndpoints local remote Rx))
      → entry_or_new j (insert k e m) ≡ (if k == j then e else entry_or_new j m)
  entry_or_new-insert k j e m = elim (Bool-cases (k == j)) [
    | inl t ↦ rw (entry_or_new, get-insert k j e m, t) refl
    | inr t ↦ rw (entry_or_new, get-insert k j e m, t) refl
  ]

  module _ (unbounded_channel : ℕ → Mpsc.Tx local × Rx) where
    pub source_channels-counts :
        {R : Type 0} (operators : List (ℕ × OperatorMetadata R))
        (senders : List (ℕ × Mpsc.Tx remote)) (cs : List Channel)
        (e e' : StreamEndpoints local remote Rx) (next next' : ℕ)
        → source_channels unbounded_channel operators senders cs e next ≡ some (e', next')
        → (recv_count e' ≡ recv_count e + threads cs)
          × (send_count e' ≡ send_count e + (threads cs + crossings cs))
    unfolding source_channels add_inter_thread_channel add_inter_node_send_endpoint
    source_channels-counts operators senders [] e e' next next' h = ground arith
    source_channels-counts operators senders (Channel.inter_thread cm ∷ cs) e e' next next' h =
        let (tx, rx) = unbounded_channel next in
        let r = length-append e.recv_endpoints (rx ∷ []) in
        let s = length-append e.send_endpoints (inter_thread tx ∷ []) in
        let ih =
          source_channels-counts operators senders cs
            (add_inter_thread_channel unbounded_channel next e) e' (suc next) next' h in
        (omega (arith, ih.0, r), omega (arith, ih.1, s))
    source_channels-counts operators senders (Channel.inter_node cm ∷ cs) e e' next next' h =
        elim (Option-cases (node_of operators cm.sink)) [
          | inl no_sink ↦ absurd (cc (rw (no_sink, source_channels) at h))
          | inr (n, found) ↦ elim (Option-cases (get n senders)) [
            | inl no_sender ↦
                absurd
                  (cc (rw (found, no_sender, source_channels, add_inter_node_send_endpoint) at h))
            | inr (tx, sender) ↦
                let e1 = add_send_endpoint e (inter_process e.stream_id tx) in
                let sends = length-append e.send_endpoints (inter_process e.stream_id tx ∷ []) in
                let go = rw (found, sender, source_channels, add_inter_node_send_endpoint) at h in
                let ih = source_channels-counts operators senders cs e1 e' next next' go in
                (ih.0, omega (arith, ih.1, sends))
          ]
        ]
    source_channels-counts operators senders (unscheduled cm ∷ cs) e e' next next' h =
        source_channels-counts operators senders cs e e' next next' h

    recv_endpoint-counts :
        (id j : ℕ) (b : Building local remote Rx)
        → (recv_at j (add_inter_node_recv_endpoint unbounded_channel id b).stream_entries
            ≡ recv_at j b.stream_entries + (if id == j then 1 else 0))
          × (send_at j (add_inter_node_recv_endpoint unbounded_channel id b).stream_entries
              ≡ send_at j b.stream_entries)
    unfolding add_inter_node_recv_endpoint
    recv_endpoint-counts id j b =
        let rx = (unbounded_channel b.next).1 in
        let e = entry_or_new id b.stream_entries in
        let put = entry_or_new-insert id j (add_recv_endpoint e rx) b.stream_entries in
        let longer = length-append e.recv_endpoints (rx ∷ []) in
        elim (Bool-cases (id == j)) [
          | inl t ↦
              let same = ap (λ k. entry_or_new k b.stream_entries) ((==_iff id j).0 t) in
              let now = rw t at put in
              (
                rw t (ap recv_count now ∙ (longer ∙ ap (λ e. recv_count e + 1) same)),
                ap send_count now ∙ ap send_count same,
              )
          | inr t ↦
              let now = rw t at put in
              let kept = ap recv_count now in (rw t (omega (arith, kept)), ap send_count now)
        ]

    pub sink_channels-counts :
        (vs : List Vertex) (id j : ℕ) (cs : List Channel) (b : Building local remote Rx)
        → (recv_at j (sink_channels unbounded_channel vs id cs b).stream_entries
            ≡ recv_at j b.stream_entries + (if id == j then arrivals vs cs else 0))
          × (send_at j (sink_channels unbounded_channel vs id cs b).stream_entries
              ≡ send_at j b.stream_entries)
    unfolding sink_channels
    sink_channels-counts vs id j [] b = (ground arith, refl)
    sink_channels-counts vs id j (Channel.inter_thread cm ∷ cs) b =
        sink_channels-counts vs id j cs b
    sink_channels-counts vs id j (unscheduled cm ∷ cs) b = sink_channels-counts vs id j cs b
    sink_channels-counts vs id j (Channel.inter_node cm ∷ cs) b =
        elim (Bool-cases (contains_vertex vs cm.sink)) [
          | inr t ↦
              let ih = sink_channels-counts vs id j cs b in
              rw (t, sink_channels) (ih.0 ∙ ground arith, ih.1)
          | inl t ↦
              let b1 = add_inter_node_recv_endpoint unbounded_channel id b in
              let ih = sink_channels-counts vs id j cs b1 in
              let one = recv_endpoint-counts id j b in
              rw (t, sink_channels) (ih.0 ∙ ground (arith, one.0), ih.1 ∙ one.1)
        ]
