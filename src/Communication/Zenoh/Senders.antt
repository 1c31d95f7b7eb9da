-- ===== src/Communication/Zenoh/Senders.antt =====
-- src/communication/zenoh_senders.rs: the tasks that write messages to another node's resource.
use erdos.Prelude.{ℕ, List, [], ◌∷◌, none, some}
use erdos.Communication.{CommunicationError, disconnected, zenoh_error, Result, ok, err, Mpsc}
use erdos.Communication.Codec.{Wire, InterProcessMessage}
use erdos.Communication.Control.{
  ControlMessage, data_sender_initialized, control_sender_initialized,
}
use erdos.Communication.ControlCodec
use erdos.Communication.Receivers.{End, failed}
use erdos.Communication.Slices
use erdos.Communication.Slices.{Outcome, into_rbuf}
use erdos.Communication.Zenoh.{Session, Resource, data_from_to, control_from_to, from_codec}

-- `ControlMessage::into_rbuf`
unfoldable pub control_into_rbuf :
    ControlCodec.Wire ControlMessage → ControlMessage → Outcome (List ℕ)
control_into_rbuf wire msg = elim (wire.serialize msg) [
  | none ↦ Slices.bincode_error
  | some bytes ↦ Slices.value bytes
]

module _ (session : Session) where
  -- Declares the resource with its publisher.
  unfoldable pub declare :
      Resource
      → Session.Net session
      → Session.Net session × Result (Session.Key session) CommunicationError
  declare resource net = elim (session.declare_resource net resource) [
    | none ↦ (net, err zenoh_error)
    | some (net1, reskey) ↦ elim (session.declare_publisher net1 reskey) [
      | none ↦ (net1, err zenoh_error)
      | some net2 ↦ (net2, ok reskey)
    ]
  ]

  -- The loop over what the task's channel gives until it is closed.
  unfoldable pub send_over :
      {M : Type 0}
      → (M → Outcome (List ℕ))
      → Resource
      → List M
      → Session.Net session
      → Session.Net session × End
  send_over into resource [] net = (net, failed disconnected)
  send_over into resource (msg ∷ rx) net =
      let (net', declared) = declare resource net in
      elim declared [
        | err e ↦ (net', failed e)
        | ok reskey ↦ elim (from_codec (into msg)) [
          | err end ↦ (net', end)
          | ok rbf ↦ elim (session.write_ext net' reskey rbf) [
            | none ↦ (net', failed zenoh_error)
            | some net'' ↦ send_over into resource rx net''
          ]
        ]
      ]

  -- `run`: the channel to the handler and the session after it.
  abbrev run_sender :
      {M : Type 0} (control : Mpsc ControlMessage)
      → (M → Outcome (List ℕ))
      → ControlMessage
      → Resource
      → List M
      → Mpsc.Tx control
      → Session.Net session
      → (Mpsc.Tx control × Session.Net session) × End
  run_sender control into initialized resource rx control_tx net =
      elim (control.send control_tx initialized) [
        | none ↦ ((control_tx, net), failed disconnected)
        | some control_tx' ↦
            let (net', end) = send_over into resource rx net in ((control_tx', net'), end)
      ]

  module _ (control : Mpsc ControlMessage) (self_node_id node_id : ℕ) where
    unfoldable pub run_data_sender :
        {D : Type 0}
        → Wire ℕ D
        → List (InterProcessMessage ℕ D)
        → Mpsc.Tx control
        → Session.Net session
        → (Mpsc.Tx control × Session.Net session) × End
    run_data_sender wire =
        run_sender control (into_rbuf wire) (data_sender_initialized node_id)
          (data_from_to self_node_id node_id)

    unfoldable pub run_control_sender :
        ControlCodec.Wire ControlMessage
        → List ControlMessage
        → Mpsc.Tx control
        → Session.Net session
        → (Mpsc.Tx control × Session.Net session) × End
    run_control_sender wire =
        run_sender control (control_into_rbuf wire) (control_sender_initialized node_id)
          (control_from_to self_node_id node_id)
