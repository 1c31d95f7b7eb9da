-- ===== src/WriteStream.antt =====
-- src/dataflow/stream/write_stream.rs and the write errors of src/dataflow/stream/errors.rs.
-- A stream's name, which only log lines read, is left out.
pub mod Watermark
pub mod Timed
pub mod Log
pub mod Ingest
use erdos.Prelude.{
  ℕ, zero, ◌≡◌, Bool, true, false, List, [], ◌∷◌, ◌++◌, Option, none, some, if◌then◌else◌,
}
use erdos.Message
use erdos.Message.{Message, Timestamp, timestamped_data, watermark, lt, is_top_watermark}
use erdos.Communication.{CommunicationError, Result, ok, err, Mpsc}
use erdos.Communication.Endpoint.{SendEndpoint, Outgoing, push}

pub data WriteStreamError : Type 0 where
  serialization_error write_io_error timestamp_error closed : WriteStreamError

-- `From<CommunicationError>`; the branches for transports that are not compiled in are left out.
unfoldable pub from_communication : CommunicationError → WriteStreamError
from_communication CommunicationError.no_capacity = write_io_error
from_communication CommunicationError.disconnected = write_io_error
from_communication CommunicationError.serialize_not_implemented = serialization_error
from_communication CommunicationError.deserialize_not_implemented = serialization_error
from_communication CommunicationError.abomonation_error = serialization_error
from_communication CommunicationError.bincode_error = serialization_error
from_communication CommunicationError.io_error = write_io_error
from_communication CommunicationError.zenoh_error = write_io_error
from_communication CommunicationError.zenoh_shared_memory_error = write_io_error

module _ {D : Type 0} (local : Mpsc (Message D)) (remote : Mpsc (Outgoing D)) where
  pub record WriteStream : Type 0 where
    pub id : ℕ
    -- The endpoints of the stream's `Pusher`.
    pub pusher : Option (List (SendEndpoint local remote))
    pub low_watermark : Timestamp
    pub stream_closed : Bool

module _ {D : Type 0} {local : Mpsc (Message D)} {remote : Mpsc (Outgoing D)} where
  unfoldable pub new_internal : ℕ → WriteStream local remote
  new_internal id = record {
    id = id;
    pusher = some [];
    low_watermark = Message.new (0 ∷ []);
    stream_closed = false;
  }

  -- `None` is the panic of `expect`.
  unfoldable pub add_endpoint :
      WriteStream local remote → SendEndpoint local remote → Option (WriteStream local remote)
  add_endpoint ws e = elim ws.pusher [
    | none ↦ none
    | some es ↦ some (record ws { pusher = some (es ++ e ∷ []) })
  ]

  add_endpoints :
      WriteStream local remote
      → List (SendEndpoint local remote)
      → Option (WriteStream local remote)
  add_endpoints ws [] = some ws
  add_endpoints ws (e ∷ es) = elim (add_endpoint ws e) [
    | none ↦ none
    | some ws' ↦ add_endpoints ws' es
  ]

  unfoldable pub from_endpoints :
      List (SendEndpoint local remote) → ℕ → Option (WriteStream local remote)
  unfolding add_endpoints add_endpoint new_internal
  from_endpoints endpoints id = add_endpoints (new_internal id) endpoints

  abbrev pub close_stream : WriteStream local remote → WriteStream local remote
  close_stream ws = record ws { stream_closed = true; pusher = none }

  unfoldable pub update_watermark :
      WriteStream local remote → Message D → Result (WriteStream local remote) WriteStreamError
  update_watermark ws (timestamped_data td) =
      if lt td.timestamp ws.low_watermark then err timestamp_error else ok ws
  update_watermark ws (watermark t) =
      if lt t ws.low_watermark then err timestamp_error else ok (record ws { low_watermark = t })

  -- The `match` on the pusher: without one nothing is sent.
  unfoldable pub deliver :
      WriteStream local remote
      → Message D
      → WriteStream local remote × Result (Unit {0}) WriteStreamError
  deliver ws msg = elim ws.pusher [
    | none ↦ (ws, ok tt)
    | some es ↦
        let w : WriteStream local remote = record ws { pusher = some (push es msg).0 } in
        elim (push es msg).1 [ ok _ ↦ (w, ok tt) | err x ↦ (w, err (from_communication x)) ]
  ]

  -- The rest of `send` once the watermark is updated: a closed stream lets go of its pusher.
  forward :
      Bool
      → WriteStream local remote
      → Message D
      → WriteStream local remote × Result (Unit {0}) WriteStreamError
  unfolding deliver
  forward close ws msg =
      let (w, result) = deliver ws msg in
      elim result [ ok _ ↦ (if close then close_stream w else w, ok tt) | err x ↦ (w, err x) ]

  -- `send`: the stream after the call and its result.
  unfoldable pub send :
      WriteStream local remote
      → Message D
      → WriteStream local remote × Result (Unit {0}) WriteStreamError
  unfolding update_watermark deliver forward
  send ws msg = if ws.stream_closed then (ws, err closed) else elim (update_watermark ws msg) [
    | err x ↦ (ws, err x)
    | ok ws' ↦ forward (is_top_watermark msg) ws' msg
  ]

  -- A history of calls, whatever each returns.
  pub send_all : WriteStream local remote → List (Message D) → WriteStream local remote
  send_all ws [] = ws
  send_all ws (m ∷ ms) = send_all (send ws m).0 ms
