-- ===== src/Communication/Zenoh.antt =====
-- The transport over zenoh (src/communication/zenoh_senders.rs, zenoh_receivers.rs,
-- zenoh_shm_senders.rs and zenoh_shm_receivers.rs beside it): what the tasks call of zenoh.
pub mod Senders
pub mod Receivers
pub mod Written
pub mod Carried
pub mod Delivery
pub mod SharedMemory
pub mod Agreement
use erdos.Prelude.{ℕ, ◌≡◌, List, [], ◌∷◌, ◌++◌, Option, some}
use erdos.Communication.{
  CommunicationError, bincode_error, zenoh_shared_memory_error, Result, ok, err,
}
use erdos.Communication.Receivers.{End, failed, panicked}
use erdos.Communication.Slices
use erdos.Communication.Slices.{Outcome}

-- The names "/from/{}/to/{}/data" and "/from/{}/to/{}/control".
pub data Resource : Type 0 where
  data_from_to : ℕ → ℕ → Resource
  control_from_to : ℕ → ℕ → Resource

-- `zenoh::net::Session`, which is not part of the program, in the state `Net`. `None` is an
-- error; `written` is what was written on a resource, in order.
pub record Session : Type 1 where
  pub Net : Type 0
  pub Key : Type 0
  pub declare_resource : Net → Resource → Option (Net × Key)
  pub declare_publisher : Net → Key → Option Net
  pub declare_subscriber : Net → Resource → Option Net
  pub write_ext : Net → Key → List ℕ → Option Net
  pub name : Key → Resource
  pub written : Net → Resource → List (List ℕ)
  pub name-declare_resource :
      (net net' : Net) (r : Resource) (key : Key)
      → declare_resource net r ≡ some (net', key)
      → name key ≡ r
  pub written-declare_resource :
      (net net' : Net) (r q : Resource) (key : Key)
      → declare_resource net r ≡ some (net', key)
      → written net' q ≡ written net q
  pub written-declare_publisher :
      (net net' : Net) (key : Key) (q : Resource)
      → declare_publisher net key ≡ some net'
      → written net' q ≡ written net q
  pub written-write_ext :
      (net net' : Net) (key : Key) (buf : List ℕ)
      → write_ext net key buf ≡ some net'
      → written net' (name key) ≡ written net (name key) ++ buf ∷ []

-- `From<CodecError>`, and how a panic ends the task.
unfoldable pub from_codec : {A : Type 0} → Outcome A → Result A End
from_codec (Slices.value a) = ok a
from_codec Slices.bincode_error = err (failed bincode_error)
from_codec Slices.shared_memory_error = err (failed zenoh_shared_memory_error)
from_codec Slices.panic = err panicked
