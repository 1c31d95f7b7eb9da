-- ===== src/ChannelManager/Manager.antt =====
-- src/scheduler/channel_manager.rs: `ChannelManager`; and `ChannelsToReceivers` of
-- src/scheduler/endpoints_manager.rs, where `updates` stands for the channels to the receivers.
use erdos.Prelude.{ℕ, List, [], ◌∷◌, ◌++◌, Option, none, some}
use erdos.Prelude.HashMap.{get, insert}
use erdos.Message.{Message}
use erdos.Communication.{Result, ok, err, Mpsc}
use erdos.Communication.Endpoint.{SendEndpoint, Outgoing}
use erdos.Graph.{Graph, get_vertices_on, resolve_stream_id, get_streams}
use erdos.ChannelManager.{
  ChannelManager, Building, StreamEndpoints, EndpointError, no_entry, add_streams,
  take_send_endpoints,
}
use erdos.ChannelManager

module _ {U : Type 0} (updates : Mpsc U) where
  abbrev pub add_sender : List (Mpsc.Tx updates) → Mpsc.Tx updates → List (Mpsc.Tx updates)
  add_sender senders sender = senders ++ (sender ∷ [])

  -- `send` unwraps what each sender returns.
  unfoldable pub send_update : List (Mpsc.Tx updates) → U → Option (List (Mpsc.Tx updates))
  send_update [] u = some []
  send_update (tx ∷ txs) u = elim (updates.send tx u) [
    | none ↦ none
    | some tx' ↦ elim (send_update txs u) [ none ↦ none | some txs' ↦ some (tx' ∷ txs') ]
  ]

  unfoldable pub send_updates : List (Mpsc.Tx updates) → List U → Option (List (Mpsc.Tx updates))
  send_updates txs [] = some txs
  send_updates txs (u ∷ us) = elim (send_update txs u) [
    | none ↦ none
    | some txs' ↦ send_updates txs' us
  ]

module _ {D : Type 0} {local : Mpsc (Message D)} {remote : Mpsc (Outgoing D)} {Rx R H : Type 0}
    (unbounded_channel : ℕ → Mpsc.Tx local × Rx)
    (updates : Mpsc (ℕ × List (SendEndpoint local remote))) where
  -- `ChannelManager::new`, and the channels to the receivers after it.
  unfoldable pub new :
      Graph R H
      → ℕ
      → List (Mpsc.Tx updates)
      → List (ℕ × Mpsc.Tx remote)
      → Option (ChannelManager local remote Rx R H × List (Mpsc.Tx updates))
  new graph node_id receivers senders =
      let vertices = get_vertices_on graph node_id in
      let empty : Building local remote Rx = record {
        stream_entries = [];
        receiver_pushers = [];
        next = 0;
      } in
      elim (add_streams unbounded_channel graph.operators vertices senders (get_streams graph)
        empty) [
          | none ↦ none
          | some b ↦ elim (send_updates updates receivers b.receiver_pushers) [
            | none ↦ none
            | some receivers' ↦ some (
              record { node_id = node_id; graph = graph; stream_entries = b.stream_entries },
              receivers',
            )
          ]
        ]

module _ {D : Type 0} {local : Mpsc (Message D)} {remote : Mpsc (Outgoing D)} {Rx R H : Type 0}
    (cm : ChannelManager local remote Rx R H) where
  unfoldable pub take_recv_endpoint :
      ℕ → Result (Rx × ChannelManager local remote Rx R H) EndpointError
  take_recv_endpoint stream_id =
      let id = resolve_stream_id cm.graph stream_id in
      elim (get id cm.stream_entries) [
        | none ↦ err no_entry
        | some entry ↦ elim (ChannelManager.take_recv_endpoint entry) [
          | err e ↦ err e
          | ok (rx, entry') ↦
              ok (rx, record cm { stream_entries = insert id entry' cm.stream_entries })
        ]
      ]

  unfoldable pub get_send_endpoints :
      ℕ
      → Result (List (SendEndpoint local remote) × ChannelManager local remote Rx R H) EndpointError
  get_send_endpoints stream_id = elim (get stream_id cm.stream_entries) [
    | none ↦ err no_entry
    | some entry ↦
        let (endpoints, entry') = take_send_endpoints entry in
        ok (endpoints, record cm { stream_entries = insert stream_id entry' cm.stream_entries })
  ]
