-- ===== src/Communication/Zenoh/Receivers.antt =====
-- src/communication/zenoh_receivers.rs: the tasks that take messages from another node's resource.
-- A subscription is the list of the payloads that it gives until it ends.
use erdos.Prelude.{ℕ, List, [], ◌∷◌, none, some, map}
use erdos.Prelude.HashMap.{get, insert}
use erdos.Message.{Message}
use erdos.Communication.{CommunicationError, bincode_error, zenoh_error, Result, ok, err, Mpsc}
use erdos.Communication.Codec.{Wire, serialized, deserialized}
use erdos.Communication.Control.{
  ControlMessage, data_receiver_initialized, control_receiver_initialized,
}
use erdos.Communication.ControlCodec
use erdos.Communication.Endpoint.{Outgoing}
use erdos.Communication.Receivers.{
  End, closed, failed, panicked, Pushers, send_from_bytes, update_pushers, announce,
  forward_control,
}
use erdos.Communication.Slices.{from_rbuf, concat}
use erdos.Communication.Zenoh.{Session, data_from_to, control_from_to, from_codec}

-- Each payload comes with the pushers that the channel of updates holds by then.
abbrev pub Payloads : {D : Type 0} → Mpsc (Message D) → Mpsc (Outgoing D) → Type 0
Payloads local remote = List (Pushers local remote × List (List ℕ))

module _ {D E : Type 0} {local : Mpsc (Message D)} {remote : Mpsc (Outgoing D)} (wire : Wire ℕ E)
    (decode : List ℕ → Result (Message D) CommunicationError) where
  -- The loop of `ZenohDataReceiver::run`: a message without a pusher is dropped.
  unfoldable pub receive_payloads :
      Payloads local remote → Pushers local remote → Pushers local remote × End
  receive_payloads [] pushers = (pushers, closed)
  receive_payloads ((rx, payload) ∷ stream) pushers = elim (from_codec (from_rbuf wire payload)) [
    | err end ↦ (pushers, end)
    | ok (deserialized metadata d) ↦ (update_pushers decode rx pushers, panicked)
    | ok (serialized stream_id bytes) ↦
        let updated = update_pushers decode rx pushers in
        elim (get stream_id updated) [
          | none ↦ receive_payloads stream updated
          | some pusher ↦
              let (pusher', result) = send_from_bytes decode pusher bytes in
              elim result [
                | err e ↦ (insert stream_id pusher' updated, failed e)
                | ok u ↦ receive_payloads stream (insert stream_id pusher' updated)
              ]
        ]
  ]

-- `ControlMessage::from_rbuf`
unfoldable pub control_from_rbuf :
    ControlCodec.Wire ControlMessage → List (List ℕ) → Result ControlMessage CommunicationError
control_from_rbuf wire payload = elim (wire.deserialize (concat payload)) [
  | none ↦ err bincode_error
  | some msg ↦ ok msg
]

module _ (session : Session) (control : Mpsc ControlMessage) (self_node_id node_id : ℕ) where
  unfoldable pub run_data :
      {D E : Type 0} {local : Mpsc (Message D)} {remote : Mpsc (Outgoing D)}
      → Wire ℕ E
      → (List ℕ → Result (Message D) CommunicationError)
      → Payloads local remote
      → Session.Net session
      → Mpsc.Tx control
      → Pushers local remote × End
  run_data wire decode stream net control_tx =
      elim (session.declare_subscriber net (data_from_to node_id self_node_id)) [
        | none ↦ ([], failed zenoh_error)
        | some net' ↦ elim (announce control (data_receiver_initialized node_id) control_tx) [
          | err end ↦ ([], end)
          | ok tx ↦ receive_payloads wire decode stream []
        ]
      ]

  unfoldable pub run_control :
      ControlCodec.Wire ControlMessage
      → List (List (List ℕ))
      → Session.Net session
      → Mpsc.Tx control
      → Mpsc.Tx control × End
  run_control wire stream net control_tx =
      elim (session.declare_subscriber net (control_from_to node_id self_node_id)) [
        | none ↦ (control_tx, failed zenoh_error)
        | some net' ↦ elim (announce control (control_receiver_initialized node_id) control_tx) [
          | err end ↦ (control_tx, end)
          | ok tx ↦ forward_control control (map (control_from_rbuf wire) stream) tx
        ]
      ]
