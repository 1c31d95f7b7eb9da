-- ===== src/Tests/Zenoh.antt =====
-- Two nodes with one session of zenoh, and a shared memory of 64 bytes.
use erdos.Prelude.{
  ℕ, ◌≡◌, ◌⊎◌, refl, sym, ap, ◌∙◌, Bool, true, false, List, [], ◌∷◌, ◌++◌, Option, none, some, map,
  length, arith, ◌==◌, ◌&&◌, if◌then◌else◌,
}
use erdos.Prelude.HashMap.{get}
use erdos.Message
use erdos.Message.{Message, new_message, timestamped_data, watermark}
use erdos.Communication.{CommunicationError, bincode_error, disconnected, Result, ok, err}
use erdos.Communication.Codec.{Wire, write_u32}
use erdos.Communication.Endpoint.{SendEndpoint, Outgoing, log}
use erdos.Communication.Receivers.{Pushers, closed, failed}
use erdos.Communication.Slices.{into_rbuf, sizes, contents}
use erdos.Communication.Zenoh.{Session, Resource, data_from_to, control_from_to, from_codec}
use erdos.Communication.Zenoh.Senders.{declare, send_over}
use erdos.Communication.Zenoh.Receivers.{receive_payloads}
use erdos.Communication.Zenoh.Delivery.{coming, receive_payloads-send_over}
use erdos.Communication.Zenoh.Carried.{to_message, IsSmall}
use erdos.Tests.Control.{read_byte, read_byte-byte, byte-length}
use erdos.Tests.Streams.{channel, open_end}

abbrev same_resource : Resource → Resource → Bool
same_resource (data_from_to a b) (data_from_to c d) = a == c && b == d
same_resource (control_from_to a b) (control_from_to c d) = a == c && b == d
same_resource (data_from_to a b) (control_from_to c d) = false
same_resource (control_from_to a b) (data_from_to c d) = false

same_resource_refl : (r : Resource) → same_resource r r ≡ true
same_resource_refl (data_from_to a b) = ground arith
same_resource_refl (control_from_to a b) = ground arith

abbrev written_to : (Resource → List (List ℕ)) → Resource → List ℕ → Resource → List (List ℕ)
written_to net key buf r = if same_resource key r then net r ++ buf ∷ [] else net r

session_write :
    (net net' : Resource → List (List ℕ)) (key : Resource) (buf : List ℕ)
    → some (written_to net key buf) ≡ some net'
    → net' key ≡ net key ++ buf ∷ []
session_write net net' key buf h =
    let same : written_to net key buf ≡ net' = ap (λ o. elim o [ none ↦ net | some n ↦ n ]) h in
    ap (λ n. n key) (sym same) ∙ rw (same_resource_refl key) refl

first_of :
    {A B : Type 0} (a a' : A) (b b' : B)
    → ◌≡◌ {A = Option (A × B)} (some (a, b)) (some (a', b'))
    → (a ≡ a') × (b ≡ b')
first_of a a' b b' h = (cc, cc)

pub same_net : {A : Type 0} (a a' : A) → some a ≡ some a' → a ≡ a'
same_net a a' h = cc

-- Every resource is its own key.
abbrev session : Session
session = record {
  Net = Resource → List (List ℕ);
  Key = Resource;
  declare_resource = λ net r. some (net, r);
  declare_publisher = λ net key. some net;
  declare_subscriber = λ net r. some net;
  write_ext = λ net key buf. some (written_to net key buf);
  name = λ key. key;
  written = λ net r. net r;
  name-declare_resource = λ net net' r key h. sym (first_of net net' r key h).1;
  written-declare_resource =
      λ net net' r q key h. ap (λ n. n q) (sym (first_of net net' r key h).0);
  written-declare_publisher = λ net net' key q h. ap (λ n. n q) (sym (same_net net net' h));
  written-write_ext = session_write;
}

-- Messages at timestamps of one coordinate, with a payload of one byte.
abbrev encode_at : List ℕ → Bool → ℕ → Option (List ℕ)
encode_at (t ∷ []) false d = some (t ∷ d ∷ [])
encode_at time is_top d = none

abbrev encode_message : Message ℕ → Option (List ℕ)
encode_message (timestamped_data d) = encode_at d.timestamp.time d.timestamp.is_top d.payload
encode_message (watermark t) = none

abbrev pub decode : List ℕ → Result (Message ℕ) CommunicationError
decode (t ∷ d ∷ []) = ok (new_message (Message.new (t ∷ [])) d)
decode bytes = err bincode_error

decode_at :
    (time : List ℕ) (is_top : Bool) (d : ℕ) (bytes : List ℕ)
    → encode_at time is_top d ≡ some bytes
    → (decode bytes ≡ ok (new_message (record { time = time; is_top = is_top }) d))
      × (length bytes ≡ 2)
decode_at [] is_top d bytes h = absurd (cc)
decode_at (t ∷ []) true d bytes h = absurd (cc)
decode_at (t ∷ []) false d bytes h =
    let same : t ∷ d ∷ [] ≡ bytes = cc in (ap decode (sym same), ap length (sym same))
decode_at (t ∷ u ∷ time) is_top d bytes h = absurd (cc)

decode-encode_message :
    (m : Message ℕ) (bytes : List ℕ) → encode_message m ≡ some bytes → decode bytes ≡ ok m
decode-encode_message (timestamped_data d) bytes h =
    (decode_at d.timestamp.time d.timestamp.is_top d.payload bytes h).0
decode-encode_message (watermark t) bytes h = absurd (cc)

pub size-encode_message :
    (m : Message ℕ) (bytes : List ℕ) → encode_message m ≡ some bytes → some 2 ≡ some (length bytes)
size-encode_message (timestamped_data d) bytes h =
    ap some (sym (decode_at d.timestamp.time d.timestamp.is_top d.payload bytes h).1)
size-encode_message (watermark t) bytes h = absurd (cc)

abbrev pub wire : Wire ℕ (Message ℕ)
wire = record {
  serialize = λ m. some (m ∷ []);
  serialized_size = λ m. some 1;
  deserialize = read_byte;
  encode_data = encode_message;
  data_size = λ m. some 2;
  deserialize-serialize = read_byte-byte;
  size-serialize = byte-length;
  size-encode_data = size-encode_message;
}

abbrev pub message_of : ℕ → Message ℕ
message_of d = new_message (Message.new (1 ∷ [])) d

abbrev outgoing : List (Outgoing ℕ)
outgoing =
    record { stream_id = 3; content = message_of 7 }
    ∷ record { stream_id = 4; content = message_of 8 }
    ∷ record { stream_id = 3; content = message_of 9 }
    ∷ []

abbrev no_messages : Resource → List (List ℕ)
no_messages r = []

abbrev pub buffer_of : ℕ → ℕ → List ℕ
buffer_of id d = 0 ∷ 0 ∷ 0 ∷ 1 ∷ 0 ∷ 0 ∷ 0 ∷ 2 ∷ id ∷ 1 ∷ d ∷ []

abbrev sent_net : Resource → List (List ℕ)
sent_net =
    written_to
      (written_to (written_to no_messages (data_from_to 0 1) (buffer_of 3 7)) (data_from_to 0 1)
        (buffer_of 4 8))
      (data_from_to 0 1) (buffer_of 3 9)

outgoing-sent :
    send_over session (into_rbuf wire) (data_from_to 0 1) (map to_message outgoing) no_messages
    ≡ (sent_net, failed disconnected)
unfolding send_over declare into_rbuf sizes contents from_codec write_u32
outgoing-sent = refl

small : (o : Outgoing ℕ) → IsSmall wire o
small o = λ ms ds p q.
    let a : 1 ≡ length ms = same_net 1 (length ms) (byte-length o.stream_id ms p) in
    let b : 2 ≡ length ds = same_net 2 (length ds) (size-encode_message o.content ds q) in
    (omega (arith, a), omega (arith, b))

abbrev pub pushers : Pushers (channel (Message ℕ)) (channel (Outgoing ℕ))
pushers = (3, open_end ∷ open_end ∷ []) ∷ []

-- What arrives, the second payload in two slices.
abbrev payloads : List (List (List ℕ))
payloads =
    (buffer_of 3 7 ∷ [])
    ∷ ((0 ∷ 0 ∷ 0 ∷ []) ∷ (1 ∷ 0 ∷ 0 ∷ 0 ∷ 2 ∷ 4 ∷ 1 ∷ 8 ∷ []) ∷ [])
    ∷ (buffer_of 3 9 ∷ [])
    ∷ []

receive_payloads-send_over_example :
    ((receive_payloads wire decode (coming payloads) pushers).1 ≡ failed disconnected)
    ⊎ (((receive_payloads wire decode (coming payloads) pushers).1 ≡ closed)
        × (es' : List (SendEndpoint (channel (Message ℕ)) (channel (Outgoing ℕ)))) × (get 3
              (receive_payloads wire decode (coming payloads) pushers).0
            ≡ some es')
        × (map log es'
            ≡ (message_of 7 ∷ message_of 9 ∷ []) ∷ (message_of 7 ∷ message_of 9 ∷ []) ∷ []))
unfolding get
receive_payloads-send_over_example =
    receive_payloads-send_over wire decode decode-encode_message session 0 1 outgoing no_messages
      sent_net payloads pushers 3 (open_end ∷ open_end ∷ [])
      (
        small (record { stream_id = 3; content = message_of 7 }),
        (
          small (record { stream_id = 4; content = message_of 8 }),
          (small (record { stream_id = 3; content = message_of 9 }), tt),
        ),
      )
      refl outgoing-sent refl refl
