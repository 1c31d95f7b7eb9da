-- ===== src/Communication/Receivers.antt =====
-- src/communication/receivers.rs and `send_from_bytes` of src/communication/pusher.rs, over TCP: the
-- tasks that take messages from the connection to another node. All streams carry data of one
-- type, which `decode` reads from bytes. A connection is the list of what it gives until it ends.
pub mod Delivery
use erdos.Prelude.{ℕ, List, [], ◌∷◌, Option, none, some}
use erdos.Prelude.HashMap.{get, insert}
use erdos.Message.{Message}
use erdos.Communication.{CommunicationError, disconnected, Result, ok, err, Mpsc}
use erdos.Communication.Control.{
  ControlMessage, data_receiver_initialized, control_receiver_initialized,
}
use erdos.Communication.Codec.{InterProcessMessage, serialized, deserialized}
use erdos.Communication.Endpoint.{SendEndpoint, Outgoing, push}

-- How `run` ends: the connection is closed, an error, or a panic.
pub data End : Type 0 where
  closed : End
  failed : CommunicationError → End
  panicked : End

module _ {D : Type 0} (local : Mpsc (Message D)) (remote : Mpsc (Outgoing D)) where
  abbrev pub Pushers : Type 0
  Pushers = List (ℕ × List (SendEndpoint local remote))

  -- Each item of the connection comes with the pushers that the channel of updates holds by then.
  abbrev pub Arrivals : Type 0
  Arrivals = List (Pushers × Result (InterProcessMessage ℕ D) CommunicationError)

module _ {D : Type 0} {local : Mpsc (Message D)} {remote : Mpsc (Outgoing D)}
    (decode : List ℕ → Result (Message D) CommunicationError) where
  unfoldable pub send_from_bytes :
      List (SendEndpoint local remote)
      → List ℕ
      → List (SendEndpoint local remote) × Result (Unit {0}) CommunicationError
  send_from_bytes [] buf = ([], ok tt)
  send_from_bytes (e ∷ es) buf = elim (decode buf) [
    | err x ↦ (e ∷ es, err x)
    | ok msg ↦ push (e ∷ es) msg
  ]

  unfoldable pub update_pushers : Pushers local remote → Pushers local remote → Pushers local remote
  update_pushers [] pushers = pushers
  update_pushers ((stream_id, pusher) ∷ rx) pushers =
      update_pushers rx (insert stream_id pusher pushers)

  -- The loop of `DataReceiver::run`.
  unfoldable pub receive : Arrivals local remote → Pushers local remote → Pushers local remote × End
  receive [] pushers = (pushers, closed)
  receive ((rx, err e) ∷ stream) pushers = (pushers, failed e)
  receive ((rx, ok (deserialized stream_id d)) ∷ stream) pushers =
      (update_pushers rx pushers, panicked)
  receive ((rx, ok (serialized stream_id bytes)) ∷ stream) pushers =
      let updated = update_pushers rx pushers in
      elim (get stream_id updated) [
        | none ↦ (updated, panicked)
        | some pusher ↦
            let (pusher', result) = send_from_bytes pusher bytes in
            elim result [
              | err e ↦ (insert stream_id pusher' updated, failed e)
              | ok u ↦ receive stream (insert stream_id pusher' updated)
            ]
      ]

module _ (control : Mpsc ControlMessage) where
  -- The start of `run` of a data receiver, and the whole of a control receiver's: the message that
  -- it is there, and then each control message, goes to the handler.
  unfoldable pub announce : ControlMessage → Mpsc.Tx control → Result (Mpsc.Tx control) End
  announce msg control_tx = elim (control.send control_tx msg) [
    | none ↦ err (failed disconnected)
    | some tx ↦ ok tx
  ]

  unfoldable pub forward_control :
      List (Result ControlMessage CommunicationError) → Mpsc.Tx control → Mpsc.Tx control × End
  forward_control [] control_tx = (control_tx, closed)
  forward_control (err e ∷ stream) control_tx = (control_tx, failed e)
  forward_control (ok msg ∷ stream) control_tx = elim (control.send control_tx msg) [
    | none ↦ (control_tx, failed disconnected)
    | some tx ↦ forward_control stream tx
  ]

  unfoldable pub run_control :
      ℕ → List (Result ControlMessage CommunicationError) → Mpsc.Tx control → Mpsc.Tx control × End
  run_control node_id stream control_tx =
      elim (announce (control_receiver_initialized node_id) control_tx) [
        | err end ↦ (control_tx, end)
        | ok tx ↦ forward_control stream tx
      ]

  unfoldable pub run_data :
      {D : Type 0} {local : Mpsc (Message D)} {remote : Mpsc (Outgoing D)}
      → (List ℕ → Result (Message D) CommunicationError)
      → ℕ
      → Arrivals local remote
      → Mpsc.Tx control
      → Pushers local remote × End
  run_data decode node_id stream control_tx =
      elim (announce (data_receiver_initialized node_id) control_tx) [
        | err end ↦ ([], end)
        | ok tx ↦ receive decode stream []
      ]
