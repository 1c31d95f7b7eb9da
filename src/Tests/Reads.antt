-- ===== src/Tests/Reads.antt =====
-- Streams that are read, and an ingest stream.
use erdos.Prelude.{ℕ, ◌≡◌, refl, Bool, true, List, [], ◌∷◌, some, take, map, All, if◌then◌else◌}
use erdos.Message
use erdos.Message.{Message, Timestamp, TimestampedData, watermark, new_message}
use erdos.Communication.{Result, ok, err, TryRecvError}
use erdos.Communication.Endpoint.{Outgoing}
use erdos.Event.{OperatorEvent}
use erdos.ReadStream.{Receiver, InternalReadStream, from_endpoint}
use erdos.ReadStream.Reads.{read_many, pending, read_many-pending}
use erdos.Node.Streams
use erdos.Node.Streams.Polls.{poll_many, poll_many-read_many}
use erdos.ReadStream.Callbacks.{InternalStatefulReadStream, new_stateful, add_callback}
use erdos.ReadStream.Events.{events_of, Unordered, message_events-Unordered}
use erdos.WriteStream.{WriteStreamError}
use erdos.WriteStream.Ingest.{IngestStream, send_ingested, sent_by, send_ingested-sent_by}
use erdos.WriteStream.Ingest
use erdos.Tests.Streams.{channel}

-- A channel that has a sender or has none, and what waits in it.
abbrev take_first : {M : Type 0} → Bool × List M → Result (M × (Bool × List M)) TryRecvError
take_first (o, []) = err (if o then TryRecvError.empty else TryRecvError.disconnected)
take_first (o, m ∷ ms) = ok (m, (o, ms))

take_first-next :
    {M : Type 0} (rx : Bool × List M) (m : M) (ms : List M)
    → rx.1 ≡ m ∷ ms
    → (rx' : Bool × List M) × (take_first rx ≡ ok (m, rx')) × (rx'.1 ≡ ms) × (rx'.0 ≡ rx.0)
take_first-next (o, xs) m ms h = ((o, ms), rw h refl, refl, refl)

take_first-none :
    {M : Type 0} (rx : Bool × List M)
    → rx.1 ≡ []
    → take_first rx ≡ err (if rx.0 then TryRecvError.empty else TryRecvError.disconnected)
take_first-none (o, xs) h = rw h refl

abbrev receiver : (M : Type 0) → Receiver M
receiver M = record {
  Rx = Bool × List M;
  try_recv = take_first;
  queued = λ rx. rx.1;
  is_open = λ rx. rx.0;
  try_recv-next = take_first-next;
  try_recv-none = take_first-none;
}

abbrev at : ℕ → Timestamp
at t = Message.new (t ∷ [])

-- A message after the top watermark is never read.
abbrev waiting : List (Message ℕ)
waiting = new_message (at 1) 5 ∷ watermark Message.top ∷ new_message (at 2) 6 ∷ []

abbrev read_stream : InternalReadStream (receiver (Message ℕ))
read_stream = from_endpoint (receiver (Message ℕ)) (true, waiting) 3

read_many-pending_example :
    read_many (receiver (Message ℕ)) 5 read_stream
    ≡ take 5 (pending (receiver (Message ℕ)) read_stream)
read_many-pending_example = read_many-pending (receiver (Message ℕ)) 5 read_stream

two_read :
    read_many (receiver (Message ℕ)) 5 read_stream
    ≡ new_message (at 1) 5 ∷ watermark Message.top ∷ []
two_read = read_many-pending_example

-- The executor's stream of events, where a message stands for its events.
poll_many-read_many_example :
    poll_many (receiver (Message ℕ)) (λ m. m) 3 (Streams.new (receiver (Message ℕ)) read_stream)
    ≡ map (λ m. m) (read_many (receiver (Message ℕ)) 3 read_stream)
poll_many-read_many_example = poll_many-read_many (receiver (Message ℕ)) (λ m. m) 3 read_stream

-- A stream with two callbacks on a state, a number, where a closure is a function on it.
abbrev stateful : InternalStatefulReadStream ℕ ℕ (Unit {0})
stateful = add_callback (add_callback (new_stateful 3 8) (λ t d s. d)) (λ t d s. s)

abbrev data_at : ℕ → TimestampedData ℕ
data_at t = record { timestamp = at t; payload = 5 }

abbrev no_events : ℕ → Timestamp → Unit {0} → List (OperatorEvent (ℕ → ℕ)) × Unit {0}
no_events id t child = ([], child)

message_events-Unordered_example :
    All
      (λ x.
        All
          (λ y. Unordered x y)
          (events_of
            (λ f. f)
            (λ c s. s)
            (λ t s. s)
            no_events
            stateful
            (Message.timestamped_data (data_at 2))))
      (events_of
        (λ f. f)
        (λ c s. s)
        (λ t s. s)
        no_events
        stateful
        (Message.timestamped_data (data_at 1)))
message_events-Unordered_example =
    message_events-Unordered (λ f. f) (λ c s. s) (λ t s. s) no_events stateful (data_at 1)
      (data_at 2)

abbrev ingest : IngestStream (channel (Message ℕ)) (channel (Outgoing ℕ))
ingest = Ingest.new 3 0

send_ingested-sent_by_example :
    send_ingested ingest (new_message (at 1) 5) ≡ some (ingest, err WriteStreamError.closed)
send_ingested-sent_by_example = send_ingested-sent_by ingest (new_message (at 1) 5)
