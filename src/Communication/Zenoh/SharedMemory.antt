-- ===== src/Communication/Zenoh/SharedMemory.antt =====
-- src/communication/zenoh_shm_senders.rs and src/communication/zenoh_shm_receivers.rs: the tasks for
-- data over zenoh's shared memory, which wait for memory. The tasks for control messages are those
-- of src/communication/zenoh_senders.rs and src/communication/zenoh_receivers.rs.
pub mod Retries
use erdos.Prelude.{
  ℕ, zero, suc, ◌+◌, ◌%◌, ◌≤◌, ◌≡◌, length, List, [], ◌∷◌, Option, none, some, ◌==◌, if◌then◌else◌,
}
use erdos.Prelude.HashMap.{get, insert}
use erdos.Message.{Message}
use erdos.Communication.{CommunicationError, disconnected, zenoh_error, Result, ok, err, Mpsc}
use erdos.Communication.Codec.{Wire, InterProcessMessage, serialized, deserialized}
use erdos.Communication.Control.{ControlMessage, data_sender_initialized, data_receiver_initialized}
use erdos.Communication.Receivers.{
  End, closed, failed, panicked, Pushers, send_from_bytes, update_pushers, announce,
}
use erdos.Communication.Endpoint.{Outgoing}
use erdos.Communication.Slices
use erdos.Communication.Slices.{Outcome, sizes, into_sbuf, from_sbuf}
use erdos.Communication.Zenoh.{Session, Resource, data_from_to, from_codec}
use erdos.Communication.Zenoh.Senders.{declare}
use erdos.Communication.Zenoh.Receivers.{Payloads}

-- `zenoh::net::SharedMemoryManager`, which is not part of the program. `alloc` and `into_shm` may
-- fail, and change the manager; a buffer is at least as long as was asked for.
pub record SharedMemory : Type 1 where
  pub Memory : Type 0
  pub alloc : Memory → ℕ → Memory × Option (List ℕ)
  pub garbage_collect : Memory → Memory
  pub into_shm : Memory → List (List ℕ) → Memory × Option (List ℕ)
  pub length-alloc :
      (mem : Memory) (n : ℕ) (sbuf : List ℕ) → (alloc mem n).1 ≡ some sbuf → n ≤ length sbuf

module _ (shm : SharedMemory) {E : Type 0} (wire : Wire ℕ E) where
  -- `into_sbuf` with the memory after it.
  unfoldable pub try_into_sbuf :
      SharedMemory.Memory shm → InterProcessMessage ℕ E → SharedMemory.Memory shm × Outcome (List ℕ)
  try_into_sbuf mem msg = elim (sizes wire msg) [
    | none ↦ (mem, into_sbuf wire (λ n. (shm.alloc mem n).1) msg)
    | some (metadata_size, data_size) ↦ (
      (shm.alloc mem (8 + metadata_size + data_size)).0,
      into_sbuf wire (λ n. (shm.alloc mem n).1) msg,
    )
  ]

  -- The loop around it, in at most `fuel` rounds.
  unfoldable pub write_shared :
      ℕ
      → SharedMemory.Memory shm
      → InterProcessMessage ℕ E
      → Option (SharedMemory.Memory shm × Outcome (List ℕ))
  write_shared zero mem msg = none
  write_shared (suc fuel) mem msg =
      let (after, sbuf) = try_into_sbuf mem msg in
      elim sbuf [
        | Slices.shared_memory_error ↦ write_shared fuel (shm.garbage_collect after) msg
        | Slices.value buf ↦ some (after, Slices.value buf)
        | Slices.bincode_error ↦ some (after, Slices.bincode_error)
        | Slices.panic ↦ some (after, Slices.panic)
      ]

  -- The loop around `from_sbuf`.
  unfoldable pub read_shared :
      ℕ
      → SharedMemory.Memory shm
      → List (List ℕ)
      → Option (SharedMemory.Memory shm × Outcome (InterProcessMessage ℕ E))
  read_shared zero mem payload = none
  read_shared (suc fuel) mem payload =
      let after = (shm.into_shm mem payload).0 in
      elim (from_sbuf wire (λ p. (shm.into_shm mem p).1) payload) [
        | Slices.shared_memory_error ↦ read_shared fuel (shm.garbage_collect after) payload
        | Slices.value msg ↦ some (after, Slices.value msg)
        | Slices.bincode_error ↦ some (after, Slices.bincode_error)
        | Slices.panic ↦ some (after, Slices.panic)
      ]

  module _ (session : Session) where
    -- The loop over what the task's channel gives until it is closed; `k` counts the messages in
    -- 64 bits.
    unfoldable pub send_shared :
        ℕ
        → Session.Key session
        → ℕ
        → List (InterProcessMessage ℕ E)
        → SharedMemory.Memory shm
        → Session.Net session
        → Option (Session.Net session × End)
    send_shared fuel reskey k [] mem net = some (net, failed disconnected)
    send_shared fuel reskey k (msg ∷ rx) mem net =
        let k' = (k + 1) % 18446744073709551616 in
        let mem' = if k' % 256 == 0 then shm.garbage_collect mem else mem in
        elim (write_shared fuel mem' msg) [
          | none ↦ none
          | some (after, sbuf) ↦ elim (from_codec sbuf) [
            | err end ↦ some (net, end)
            | ok rbf ↦ elim (session.write_ext net reskey rbf) [
              | none ↦ some (net, failed zenoh_error)
              | some net' ↦ send_shared fuel reskey k' rx after net'
            ]
          ]
        ]

    -- `run`. `shm_new` is the new manager, if there is one.
    unfoldable pub run_data_sender :
        (control : Mpsc ControlMessage)
        → ℕ
        → ℕ
        → ℕ
        → Option (SharedMemory.Memory shm)
        → List (InterProcessMessage ℕ E)
        → Mpsc.Tx control
        → Session.Net session
        → Option (Session.Net session × End)
    run_data_sender control fuel self_node_id node_id none rx control_tx net =
        some (net, failed zenoh_error)
    run_data_sender control fuel self_node_id node_id (some mem) rx control_tx net =
        let (net', declared) = declare session (data_from_to self_node_id node_id) net in
        elim declared [
          | err e ↦ some (net', failed e)
          | ok reskey ↦ elim (control.send control_tx (data_sender_initialized node_id)) [
            | none ↦ some (net', failed disconnected)
            | some tx ↦ send_shared fuel reskey 0 rx mem net'
          ]
        ]

  module _ {D : Type 0} {local : Mpsc (Message D)} {remote : Mpsc (Outgoing D)}
      (decode : List ℕ → Result (Message D) CommunicationError) where
    -- The loop of `ZenohShmDataReceiver::run`.
    unfoldable pub receive_shared :
        ℕ
        → Payloads local remote
        → SharedMemory.Memory shm
        → Pushers local remote
        → Option (Pushers local remote × End)
    receive_shared fuel [] mem pushers = some (pushers, closed)
    receive_shared fuel ((rx, payload) ∷ stream) mem pushers = elim (read_shared fuel mem payload) [
      | none ↦ none
      | some (after, m) ↦ elim (from_codec m) [
        | err end ↦ some (pushers, end)
        | ok (deserialized metadata d) ↦ some (update_pushers decode rx pushers, panicked)
        | ok (serialized stream_id bytes) ↦
            let updated = update_pushers decode rx pushers in
            elim (get stream_id updated) [
              | none ↦ some (updated, panicked)
              | some pusher ↦
                  let (pusher', result) = send_from_bytes decode pusher bytes in
                  elim result [
                    | err e ↦ some (insert stream_id pusher' updated, failed e)
                    | ok u ↦ receive_shared fuel stream after (insert stream_id pusher' updated)
                  ]
            ]
      ]
    ]

    unfoldable pub run_data :
        (session : Session) (control : Mpsc ControlMessage)
        → ℕ
        → ℕ
        → ℕ
        → Option (SharedMemory.Memory shm)
        → Payloads local remote
        → Session.Net session
        → Mpsc.Tx control
        → Option (Pushers local remote × End)
    run_data session control fuel self_node_id node_id none stream net control_tx =
        some ([], failed zenoh_error)
    run_data session control fuel self_node_id node_id (some mem) stream net control_tx =
        elim (session.declare_subscriber net (data_from_to node_id self_node_id)) [
          | none ↦ some ([], failed zenoh_error)
          | some net' ↦ elim (announce control (data_receiver_initialized node_id) control_tx) [
            | err end ↦ some ([], end)
            | ok tx ↦ receive_shared fuel stream mem []
          ]
        ]
