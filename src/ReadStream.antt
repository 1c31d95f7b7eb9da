-- ===== src/ReadStream.antt =====
-- src/dataflow/stream/internal_read_stream.rs, its handle in src/dataflow/stream/read_stream.rs,
-- the read errors of src/dataflow/stream/errors.rs and `RecvEndpoint` of
-- src/communication/endpoints.rs. A stream's name is left out; callbacks are in `Events`.
pub mod Reads
pub mod Events
pub mod Callbacks
pub mod Extract
use erdos.Prelude.{
  ℕ, zero, suc, ◌≡◌, Bool, true, false, List, [], ◌∷◌, ◌++◌, Option, none, some, if◌then◌else◌,
}
use erdos.Message.{Message, is_top_watermark}
use erdos.Communication.{Result, ok, err, TryRecvError}
use erdos.Communication

-- The receiving half of an unbounded channel (`tokio::sync::mpsc`), which is not part of the
-- program: `queued` is what was sent and not received, `is_open` whether a sender is left.
pub record Receiver (M : Type 0) : Type 1 where
  pub Rx : Type 0
  pub try_recv : Rx → Result (M × Rx) TryRecvError
  pub queued : Rx → List M
  pub is_open : Rx → Bool
  pub try_recv-next :
      (rx : Rx) (m : M) (ms : List M)
      → queued rx ≡ m ∷ ms
      → (rx' : Rx) × (try_recv rx ≡ ok (m, rx')) × (queued rx' ≡ ms) × (is_open rx' ≡ is_open rx)
  pub try_recv-none :
      (rx : Rx)
      → queued rx ≡ []
      → try_recv rx ≡ err (if is_open rx then TryRecvError.empty else TryRecvError.disconnected)

pub data ReadError : Type 0 where
  serialization_error disconnected closed : ReadError

pub data TryReadError : Type 0 where
  empty disconnected serialization_error closed : TryReadError

-- `From<TryRecvError>`
abbrev pub from_try_recv : TryRecvError → TryReadError
from_try_recv TryRecvError.empty = TryReadError.empty
from_try_recv TryRecvError.disconnected = TryReadError.disconnected
from_try_recv TryRecvError.bincode_error = TryReadError.serialization_error

module _ {D : Type 0} (R : Receiver (Message D)) where
  pub record InternalReadStream : Type 0 where
    pub id : ℕ
    pub closed : Bool
    pub recv_endpoint : Option (Receiver.Rx R)

  abbrev pub new_with_id : ℕ → InternalReadStream
  new_with_id id = record { id = id; closed = false; recv_endpoint = none }

  abbrev pub from_endpoint : Receiver.Rx R → ℕ → InternalReadStream
  from_endpoint rx id = record { id = id; closed = false; recv_endpoint = some rx }

  abbrev pub take_endpoint : InternalReadStream → Option (Receiver.Rx R) × InternalReadStream
  take_endpoint s = (s.recv_endpoint, record s { recv_endpoint = none })

  -- The stream after a message is received: a top watermark closes it.
  unfoldable pub received : InternalReadStream → Message D → Receiver.Rx R → InternalReadStream
  received s msg rx =
      if is_top_watermark msg
      then record s { closed = true; recv_endpoint = none }
      else record s { recv_endpoint = some rx }

  unfoldable pub try_read :
      InternalReadStream → Result (Message D) TryReadError × InternalReadStream
  try_read s = if s.closed then (err TryReadError.closed, s) else elim s.recv_endpoint [
    | none ↦ (err TryReadError.disconnected, s)
    | some rx ↦ elim (R.try_recv rx) [
      | err e ↦ (err (from_try_recv e), s)
      | ok (msg, rx') ↦ (ok msg, received s msg rx')
    ]
  ]

  -- One round of the loop of `read`: `None` while the channel is empty, when the loop goes on.
  unfoldable pub read :
      InternalReadStream → Option (Result (Message D) ReadError × InternalReadStream)
  read s = if s.closed then some (err ReadError.closed, s) else elim s.recv_endpoint [
    | none ↦ some (err ReadError.disconnected, s)
    | some rx ↦ elim (R.try_recv rx) [
      | err TryRecvError.empty ↦ none
      | err TryRecvError.disconnected ↦ some (err ReadError.disconnected, s)
      | err TryRecvError.bincode_error ↦ some (err ReadError.serialization_error, s)
      | ok (msg, rx') ↦ some (ok msg, received s msg rx')
    ]
  ]
