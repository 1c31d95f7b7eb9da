-- ===== src/Communication/Zenoh/Agreement.antt =====
-- The loops of src/communication/zenoh_receivers.rs and src/communication/zenoh_shm_receivers.rs
-- beside that of src/communication/receivers.rs.
use erdos.Prelude.{ℕ, ◌≡◌, ◌≢◌, refl, sym, ap, inl, inr, List, [], ◌∷◌, some, Option-cases}
use mathlib.Core.Path.{subst}
use erdos.Prelude.HashMap.{get, insert}
use erdos.Message.{Message}
use erdos.Communication.{CommunicationError, Result, ok, err, Mpsc}
use erdos.Communication.Codec.{Wire, InterProcessMessage, serialized, deserialized}
use erdos.Communication.Endpoint.{Outgoing}
use erdos.Communication.Receivers.{
  End, failed, panicked, Pushers, Arrivals, send_from_bytes, update_pushers, receive,
}
use erdos.Communication.Receivers.Delivery.{Result-cases}
use erdos.Communication.Slices.{Outcome, from_rbuf}
use erdos.Communication.Zenoh.{from_codec}
use erdos.Communication.Zenoh.Receivers.{Payloads, receive_payloads}
use erdos.Communication.Zenoh.SharedMemory.{SharedMemory, read_shared, receive_shared}

abbrev as_end : {A : Type 0} → Result A CommunicationError → Result A End
as_end (ok a) = ok a
as_end (err e) = err (failed e)

module _ {D : Type 0} {local : Mpsc (Message D)} {remote : Mpsc (Outgoing D)}
    (wire : Wire ℕ D) where
  -- The payloads are read as what a connection over TCP gives, with the same new pushers.
  abbrev pub ReadAs : Payloads local remote → Arrivals local remote → Type 0
  ReadAs [] [] = Unit
  ReadAs [] (a ∷ arrivals) = ⊥
  ReadAs (p ∷ payloads) [] = ⊥
  ReadAs ((rx, payload) ∷ payloads) ((rx', r) ∷ arrivals) =
      (rx ≡ rx') × (from_codec (from_rbuf wire payload) ≡ as_end r) × ReadAs payloads arrivals

  -- The same through shared memory, where each reading waits for at most `fuel` rounds.
  abbrev pub ReadThrough :
      (shm : SharedMemory)
      → ℕ
      → Payloads local remote
      → SharedMemory.Memory shm
      → Arrivals local remote
      → Type 0
  ReadThrough shm fuel [] mem [] = Unit
  ReadThrough shm fuel [] mem (a ∷ arrivals) = ⊥
  ReadThrough shm fuel (p ∷ payloads) mem [] = ⊥
  ReadThrough shm fuel ((rx, payload) ∷ payloads) mem ((rx', r) ∷ arrivals) =
      (mem' : SharedMemory.Memory shm) × (o : Outcome (InterProcessMessage ℕ D)) × (rx ≡ rx')
      × (read_shared shm wire fuel mem payload ≡ some (mem', o))
      × (from_codec o ≡ as_end r)
      × ReadThrough shm fuel payloads mem' arrivals

  module _ (decode : List ℕ → Result (Message D) CommunicationError) where
    -- A receiver over zenoh leaves the pushers as one over TCP does, and ends in the same way, if
    -- the payloads are read as what TCP gives and the receiver over TCP does not panic.
    pub receive_payloads-receive :
        (payloads : Payloads local remote) (arrivals : Arrivals local remote)
        (ps : Pushers local remote)
        → ReadAs payloads arrivals
        → (receive decode arrivals ps).1 ≢ panicked
        → receive_payloads wire decode payloads ps ≡ receive decode arrivals ps
    unfolding receive_payloads receive
    receive_payloads-receive [] [] ps r calm = refl
    receive_payloads-receive [] (a ∷ arrivals) ps r calm = absurd r
    receive_payloads-receive (p ∷ payloads) [] ps r calm = absurd r
    receive_payloads-receive ((rx, p) ∷ payloads) ((rx', err e) ∷ arrivals) ps (same, is, r) calm =
        rw (is, receive_payloads) refl
    receive_payloads-receive ((rx, p) ∷ payloads) ((rx', ok (deserialized j d)) ∷ arrivals) ps
          (same, is, r) calm =
        absurd (calm refl)
    receive_payloads-receive ((rx, p) ∷ payloads) ((rx', ok (serialized j bytes)) ∷ arrivals) ps
          (same, is, r) calm =
        let updated = update_pushers decode rx' ps in
        subst
          (λ q.
            receive_payloads wire decode ((q, p) ∷ payloads) ps
            ≡ receive decode ((rx', ok (serialized j bytes)) ∷ arrivals) ps)
          (sym same)
          (elim (Option-cases (get j updated)) [
            | inl k ↦ absurd (calm (rw (k, receive) refl))
            | inr (pusher, k) ↦ elim (Result-cases (send_from_bytes decode pusher bytes).1) [
              | inr (e, bad) ↦ rw (is, k, bad, receive, receive_payloads) refl
              | inl (u, good) ↦
                  let rest =
                    receive_payloads-receive payloads arrivals
                      (insert j (send_from_bytes decode pusher bytes).0 updated) r
                      (rw (k, good, receive) at calm) in
                  rw (is, k, good, receive, receive_payloads) rest
            ]
          ])

    -- A receiver over shared memory whose waits end leaves the pushers as one over TCP does, and
    -- ends in the same way, a panic included, if the payloads are read as what TCP gives.
    pub receive_shared-receive :
        (shm : SharedMemory) (fuel : ℕ) (payloads : Payloads local remote)
        (arrivals : Arrivals local remote) (mem : SharedMemory.Memory shm)
        (ps : Pushers local remote)
        → ReadThrough shm fuel payloads mem arrivals
        → receive_shared shm wire decode fuel payloads mem ps ≡ some (receive decode arrivals ps)
    unfolding receive_shared receive
    receive_shared-receive shm fuel [] [] mem ps r = refl
    receive_shared-receive shm fuel [] (a ∷ arrivals) mem ps r = absurd r
    receive_shared-receive shm fuel (p ∷ payloads) [] mem ps r = absurd r
    receive_shared-receive shm fuel ((rx, p) ∷ payloads) ((rx', err e) ∷ arrivals) mem ps
          (mem', o, same, reads, is, r) =
        rw (reads, is, receive_shared) refl
    receive_shared-receive shm fuel ((rx, p) ∷ payloads) ((rx', ok (deserialized j d)) ∷ arrivals)
          mem ps (mem', o, same, reads, is, r) =
        rw (reads, is, receive_shared) (ap (λ q. some (update_pushers decode q ps, panicked)) same)
    receive_shared-receive shm fuel ((rx, p) ∷ payloads) ((rx', ok (serialized j bytes)) ∷ arrivals)
          mem ps (mem', o, same, reads, is, r) =
        let updated = update_pushers decode rx' ps in
        subst
          (λ q.
            receive_shared shm wire decode fuel ((q, p) ∷ payloads) mem ps
            ≡ some (receive decode ((rx', ok (serialized j bytes)) ∷ arrivals) ps))
          (sym same)
          (elim (Option-cases (get j updated)) [
            | inl k ↦ rw (reads, is, k, receive, receive_shared) refl
            | inr (pusher, k) ↦ elim (Result-cases (send_from_bytes decode pusher bytes).1) [
              | inr (e, bad) ↦ rw (reads, is, k, bad, receive, receive_shared) refl
              | inl (u, good) ↦
                  let rest =
                    receive_shared-receive shm fuel payloads arrivals mem'
                      (insert j (send_from_bytes decode pusher bytes).0 updated) r in
                  rw (reads, is, k, good, receive, receive_shared) rest
            ]
          ])
