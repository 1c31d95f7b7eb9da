-- ===== src/Tests/SharedMemory.antt =====
-- A shared memory of 64 bytes.
use erdos.Prelude.{
  ℕ, zero, suc, ◌+◌, ◌≤◌, ◌≡◌, ◌≢◌, ◌↔◌, inl, refl, ap, List, [], ◌∷◌, Option, none, some, length,
  arith, leb, if◌then◌else◌, Bool-cases, inr,
}
use erdos.Prelude.HashMap.{get, insert}
use erdos.Message.{Message}
use erdos.Communication.{ok}
use erdos.Communication.Codec.{Wire, serialized, deserialized, read_u32}
use erdos.Communication.Endpoint
use erdos.Communication.Endpoint.{SendEndpoint, Outgoing, log, push}
use erdos.Communication.Receivers.{Arrivals, panicked, receive, send_from_bytes, update_pushers}
use erdos.Communication.Slices.{value, concat, from_slice, from_parts}
use erdos.Communication.Zenoh.{from_codec}
use erdos.Communication.Zenoh.Receivers.{Payloads, receive_payloads}
use erdos.Communication.Zenoh.SharedMemory.{SharedMemory, write_shared, read_shared, receive_shared}
use erdos.Communication.Zenoh.SharedMemory.Retries.{attempt, write_shared-ends, write_shared-waits}
use erdos.Communication.Zenoh.Agreement.{
  ReadAs, ReadThrough, receive_payloads-receive, receive_shared-receive,
}
use erdos.Tests.Control.{read_byte, read_byte-byte, byte-length}
use erdos.Tests.Streams.{channel, open_end}
use erdos.Tests.Zenoh.{buffer_of, decode, message_of, pushers, same_net, wire}

-- `n` zeros.
abbrev zeros : ℕ → List ℕ
zeros zero = []
zeros (suc n) = 0 ∷ zeros n

length-zeros : (n : ℕ) → length (zeros n) ≡ n
length-zeros zero = refl
length-zeros (suc n) = ap suc (length-zeros n)

-- The state is the number of bytes in use.
abbrev take_bytes : ℕ → ℕ → ℕ × Option (List ℕ)
take_bytes used n = if leb (used + n) 64 then (used + n, some (zeros n)) else (used, none)

length-take_bytes :
    (used n : ℕ) (sbuf : List ℕ) → (take_bytes used n).1 ≡ some sbuf → n ≤ length sbuf
length-take_bytes used n sbuf h = elim (Bool-cases (leb (used + n) 64)) [
  | inl e ↦
      let same : length (zeros n) ≡ length sbuf = ap length (same_net (zeros n) sbuf (rw e at h)) in
      let l = length-zeros n in omega (arith, same, l)
  | inr e ↦ absurd (cc (rw e at h))
]

abbrev shm : SharedMemory
shm = record {
  Memory = ℕ;
  alloc = take_bytes;
  garbage_collect = λ used. 0;
  into_shm = λ used payload. (used, some (concat payload));
  length-alloc = length-take_bytes;
}

write_shared-ends_example :
    (mem' : ℕ) × (buf : List ℕ) × (write_shared shm wire 2 60 (deserialized 3 (message_of 7))
      ≡ some (mem', value buf))
    × (from_slice wire buf ≡ value (serialized 3 (1 ∷ 7 ∷ [])))
write_shared-ends_example =
    write_shared-ends shm wire 3 (message_of 7) (3 ∷ []) (1 ∷ 7 ∷ []) refl refl (omega arith)
      (omega arith) 1 60 (λ h. cc)

write_shared-waits_example :
    ((fuel : ℕ) → write_shared shm wire fuel 60 (deserialized 3 (message_of 7)) ≡ none)
    ↔ ((n : ℕ) → (shm.alloc (attempt shm 11 n 60) 11).1 ≡ none)
write_shared-waits_example =
    write_shared-waits shm wire 3 (message_of 7) (3 ∷ []) (1 ∷ 7 ∷ []) refl refl (omega arith)
      (omega arith) 60

-- The first and the third payload, and what the connection over TCP would give.
abbrev arrivals : Arrivals (channel (Message ℕ)) (channel (Outgoing ℕ))
arrivals =
    ([], ok (serialized 3 (1 ∷ 7 ∷ [])))
    ∷ ((4, open_end ∷ []) ∷ [], ok (serialized 4 (1 ∷ 8 ∷ [])))
    ∷ []

abbrev with_pushers : Payloads (channel (Message ℕ)) (channel (Outgoing ℕ))
with_pushers = ([], buffer_of 3 7 ∷ []) ∷ ((4, open_end ∷ []) ∷ [], buffer_of 4 8 ∷ []) ∷ []

abbrev byte_wire : Wire ℕ ℕ
byte_wire = record {
  serialize = λ m. some (m ∷ []);
  serialized_size = λ m. some 1;
  deserialize = read_byte;
  encode_data = λ d. some (d ∷ []);
  data_size = λ d. some 1;
  deserialize-serialize = read_byte-byte;
  size-serialize = byte-length;
  size-encode_data = byte-length;
}

with_pushers-ReadAs : ReadAs byte_wire with_pushers arrivals
unfolding from_codec from_slice from_parts read_u32
with_pushers-ReadAs = (refl, refl, (refl, refl, tt))

arrivals-calm : (receive decode arrivals pushers).1 ≢ panicked
unfolding receive get update_pushers send_from_bytes push Endpoint.send insert
arrivals-calm = λ h. cc

receive_payloads-receive_example :
    receive_payloads byte_wire decode with_pushers pushers ≡ receive decode arrivals pushers
receive_payloads-receive_example =
    receive_payloads-receive byte_wire decode with_pushers arrivals pushers with_pushers-ReadAs
      arrivals-calm

with_pushers-ReadThrough : ReadThrough byte_wire shm 1 with_pushers 0 arrivals
unfolding from_codec from_slice from_parts read_u32 read_shared
with_pushers-ReadThrough = (
  0,
  value (serialized 3 (1 ∷ 7 ∷ [])),
  refl,
  refl,
  refl,
  (0, value (serialized 4 (1 ∷ 8 ∷ [])), refl, refl, refl, tt),
)

receive_shared-receive_example :
    receive_shared shm byte_wire decode 1 with_pushers 0 pushers
    ≡ some (receive decode arrivals pushers)
receive_shared-receive_example =
    receive_shared-receive byte_wire decode shm 1 with_pushers arrivals 0 pushers
      with_pushers-ReadThrough
