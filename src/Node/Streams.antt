-- ===== src/Node/Streams.antt =====
-- `OperatorExecutorStream` of src/node/operator_executor.rs, the messages of a read stream as events,
-- and what the executor waits for before it runs the operator. `make_events` is that of the read
-- stream. `poll_recv` of a channel is `try_recv`, for which a message that is not there yet is no
-- error.
pub mod Polls
use erdos.Prelude.{
  ℕ, Bool, true, false, List, [], ◌∷◌, Option, none, some, if◌then◌else◌, ◌==◌, ◌&&◌,
}
use erdos.Message.{Message, is_top_watermark}
use erdos.Communication.{ok, err, TryRecvError}
use erdos.Communication.Control.{
  ControlMessage, run_operator, all_operators_initialized_on_node, operator_initialized,
  data_sender_initialized, data_receiver_initialized, control_sender_initialized,
  control_receiver_initialized,
}
use erdos.ReadStream.{Receiver, InternalReadStream, take_endpoint}

pub data Poll (A : Type 0) : Type 0 where
  ready : A → Poll A
  pending : Poll A

module _ {D : Type 0} (R : Receiver (Message D)) where
  pub record OperatorExecutorStream : Type 0 where
    pub stream : InternalReadStream R
    pub recv_endpoint : Option (Receiver.Rx R)
    pub closed : Bool

  abbrev pub new : InternalReadStream R → OperatorExecutorStream
  new stream = record { stream = stream; recv_endpoint = none; closed = stream.closed }

  -- The endpoint is taken out of the read stream when there is none.
  unfoldable pub with_endpoint : OperatorExecutorStream → OperatorExecutorStream
  with_endpoint s = elim s.recv_endpoint [
    | some rx ↦ s
    | none ↦
        let (endpoint, stream) = take_endpoint R s.stream in
        record s { stream = stream; recv_endpoint = endpoint }
  ]

  unfoldable pub poll_received :
      OperatorExecutorStream → Message D → Receiver.Rx R → OperatorExecutorStream
  poll_received s msg rx =
      if is_top_watermark msg
      then record s { closed = true; recv_endpoint = none }
      else record s { recv_endpoint = some rx }

  unfoldable pub poll_endpoint :
      {E : Type 0}
      → (Message D → E)
      → OperatorExecutorStream
      → Poll (Option E) × OperatorExecutorStream
  poll_endpoint make_events s = elim s.recv_endpoint [
    | none ↦ (ready none, s)
    | some rx ↦ elim (R.try_recv rx) [
      | ok (msg, rx') ↦ (ready (some (make_events msg)), poll_received s msg rx')
      | err TryRecvError.empty ↦ (pending, s)
      | err TryRecvError.disconnected ↦ (ready none, s)
      | err TryRecvError.bincode_error ↦ (ready none, s)
    ]
  ]

  unfoldable pub poll_next :
      {E : Type 0}
      → (Message D → E)
      → OperatorExecutorStream
      → Poll (Option E) × OperatorExecutorStream
  poll_next make_events s =
      if s.closed then (ready none, s) else poll_endpoint make_events (with_endpoint s)

-- The flags of the input streams; an operator with no input is done when it has run.
unfoldable pub all_streams_closed : List (ℕ × Bool) → Bool
all_streams_closed [] = true
all_streams_closed ((id, closed) ∷ streams) = closed && all_streams_closed streams

-- The first loop of `execute`, which ends at the message for this operator: what is left of the
-- messages. `None` while there is no such message.
unfoldable pub await_run : ℕ → List ControlMessage → Option (List ControlMessage)
await_run op_id [] = none
await_run op_id (run_operator id ∷ rx) =
    let rest = await_run op_id rx in if id == op_id then some rx else rest
await_run op_id (all_operators_initialized_on_node n ∷ rx) = await_run op_id rx
await_run op_id (operator_initialized n ∷ rx) = await_run op_id rx
await_run op_id (data_sender_initialized n ∷ rx) = await_run op_id rx
await_run op_id (data_receiver_initialized n ∷ rx) = await_run op_id rx
await_run op_id (control_sender_initialized n ∷ rx) = await_run op_id rx
await_run op_id (control_receiver_initialized n ∷ rx) = await_run op_id rx
