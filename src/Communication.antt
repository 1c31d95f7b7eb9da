-- ===== src/Communication.antt =====
-- src/communication: channels between tasks, their errors, send endpoints and pushers.
pub mod Endpoint
pub mod Codec
pub mod Slices
pub mod Receivers
pub mod Senders
pub mod Zenoh
pub mod Control
pub mod ControlCodec
use erdos.Prelude.{ℕ, ◌≡◌, List, [], ◌∷◌, ◌++◌, Option, some}

-- communication/errors.rs. The errors that wrap one of another library carry none of it here;
-- nothing in the program makes `SharedMemoryError`.
pub data CommunicationError : Type 0 where
  no_capacity disconnected serialize_not_implemented deserialize_not_implemented abomonation_error
        bincode_error io_error zenoh_error zenoh_shared_memory_error :
      CommunicationError

pub data TryRecvError : Type 0 where
  empty disconnected bincode_error : TryRecvError

pub data Result {ℓ κ} (A : Type ℓ) (E : Type κ) : Type (ℓ ⊔ κ) where
  ok : A → Result A E
  err : E → Result A E

-- The sending half of an unbounded channel (`tokio::sync::mpsc`), which is not part of the
-- program. `send` fails when the receiver is gone; `sent` is what the channel has accepted.
pub record Mpsc (M : Type 0) : Type 1 where
  pub Tx : Type 0
  pub send : Tx → M → Option Tx
  pub sent : Tx → List M
  pub sent-send : (c c' : Tx) (m : M) → send c m ≡ some c' → sent c' ≡ sent c ++ m ∷ []
