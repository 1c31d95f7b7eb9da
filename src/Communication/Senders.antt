-- ===== src/Communication/Senders.antt =====
-- src/communication/senders.rs: the tasks that put messages on the connection to another node. A
-- connection is like a channel: it accepts a message at its end, or fails.
use erdos.Prelude.{ℕ, List, [], ◌∷◌, none, some}
use erdos.Communication.{CommunicationError, disconnected, io_error, Mpsc}
use erdos.Communication.Control.{
  ControlMessage, data_sender_initialized, control_sender_initialized,
}
use erdos.Communication.Codec.{InterProcessMessage}

-- The loop over what the task's channel gives until it is closed.
unfoldable pub send_all_messages :
    {M : Type 0} (sink : Mpsc M) → List M → Mpsc.Tx sink → Mpsc.Tx sink × CommunicationError
send_all_messages sink [] tx = (tx, disconnected)
send_all_messages sink (msg ∷ rx) tx = elim (sink.send tx msg) [
  | none ↦ (tx, io_error)
  | some tx' ↦ send_all_messages sink rx tx'
]

-- `run`, which returns only an error: the connection, and the channel to the handler, after it.
abbrev run_sender :
    {M : Type 0} (control : Mpsc ControlMessage) (sink : Mpsc M)
    → ControlMessage
    → List M
    → Mpsc.Tx control
    → Mpsc.Tx sink
    → (Mpsc.Tx control × Mpsc.Tx sink) × CommunicationError
run_sender control sink initialized rx control_tx tx = elim (control.send control_tx initialized) [
  | none ↦ ((control_tx, tx), disconnected)
  | some control_tx' ↦ let (tx', e) = send_all_messages sink rx tx in ((control_tx', tx'), e)
]

module _ (control : Mpsc ControlMessage) where
  unfoldable pub run_data_sender :
      {D : Type 0} (sink : Mpsc (InterProcessMessage ℕ D))
      → ℕ
      → List (InterProcessMessage ℕ D)
      → Mpsc.Tx control
      → Mpsc.Tx sink
      → (Mpsc.Tx control × Mpsc.Tx sink) × CommunicationError
  run_data_sender sink node_id = run_sender control sink (data_sender_initialized node_id)

  unfoldable pub run_control_sender :
      (sink : Mpsc ControlMessage)
      → ℕ
      → List ControlMessage
      → Mpsc.Tx control
      → Mpsc.Tx sink
      → (Mpsc.Tx control × Mpsc.Tx sink) × CommunicationError
  run_control_sender sink node_id = run_sender control sink (control_sender_initialized node_id)
