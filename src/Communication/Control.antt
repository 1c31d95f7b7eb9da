-- ===== src/Communication/Control.antt =====
-- src/communication/control_message_handler.rs and `ControlMessage` of src/communication/mod.rs.
-- Log lines are left out. A `HashMap` is a list of entries in the order of its iteration.
pub mod Reads
pub mod Channels
use erdos.Prelude.{
  ℕ, ◌≡◌, Bool, true, false, List, [], ◌∷◌, ◌++◌, Option, none, some, if◌then◌else◌, ◌==◌,
}
use erdos.Communication.{CommunicationError, disconnected, Result, ok, err, Mpsc}

pub data ControlMessage : Type 0 where
  all_operators_initialized_on_node : ℕ → ControlMessage
  operator_initialized : ℕ → ControlMessage
  run_operator : ℕ → ControlMessage
  data_sender_initialized : ℕ → ControlMessage
  data_receiver_initialized : ℕ → ControlMessage
  control_sender_initialized : ℕ → ControlMessage
  control_receiver_initialized : ℕ → ControlMessage

-- The first message that is asked for, after which the others that were read are put at the end
-- of the queue. `None` while there is no such message: the call waits.
unfoldable pub read_loop :
    (ControlMessage → Bool)
    → List ControlMessage
    → List ControlMessage
    → Option (ControlMessage × List ControlMessage)
read_loop wanted [] read_msgs = none
read_loop wanted (msg ∷ queue) read_msgs =
    let rest = read_loop wanted queue (read_msgs ++ (msg ∷ [])) in
    if wanted msg then some (msg, queue ++ read_msgs) else rest

abbrev pub node_of : ControlMessage → Option ℕ
node_of (all_operators_initialized_on_node n) = some n
node_of (operator_initialized n) = none
node_of (run_operator n) = none
node_of (data_sender_initialized n) = none
node_of (data_receiver_initialized n) = none
node_of (control_sender_initialized n) = none
node_of (control_receiver_initialized n) = none

abbrev pub is_all_initialized : ControlMessage → Bool
is_all_initialized msg = elim (node_of msg) [ none ↦ false | some n ↦ true ]

abbrev pub is_sender_or_receiver : ControlMessage → Bool
is_sender_or_receiver (all_operators_initialized_on_node n) = false
is_sender_or_receiver (operator_initialized n) = false
is_sender_or_receiver (run_operator n) = false
is_sender_or_receiver (data_sender_initialized n) = true
is_sender_or_receiver (data_receiver_initialized n) = true
is_sender_or_receiver (control_sender_initialized n) = true
is_sender_or_receiver (control_receiver_initialized n) = true

module _ (mpsc : Mpsc ControlMessage) where
  abbrev pub Channels : Type 0
  Channels = List (ℕ × Mpsc.Tx mpsc)

  -- `queue` is what the handler's own channel holds. The handler has both ends of it, so sending
  -- on it succeeds, and it never closes.
  pub record ControlMessageHandler : Type 0 where
    pub queue : List ControlMessage
    pub channels_to_control_senders : Channels
    pub channels_to_control_receivers : Channels
    pub channels_to_data_senders : Channels
    pub channels_to_data_receivers : Channels
    pub channels_to_nodes : Channels

  -- `HashMap::insert`
  unfoldable pub add_channel : Channels → ℕ → Mpsc.Tx mpsc → Channels
  add_channel [] id tx = (id, tx) ∷ []
  add_channel ((node_id, old) ∷ m) id tx =
      let rest = add_channel m id tx in
      if node_id == id then (id, tx) ∷ m else (node_id, old) ∷ rest

  -- The channels after the call, which are the same if it fails.
  unfoldable pub send_to : Channels → ℕ → ControlMessage → Result Channels CommunicationError
  send_to [] id msg = err disconnected
  send_to ((node_id, tx) ∷ m) id msg =
      let rest = send_to m id msg in
      if node_id == id
      then elim (mpsc.send tx msg) [ none ↦ err disconnected | some tx' ↦ ok ((node_id, tx') ∷ m) ]
      else elim rest [ err e ↦ err e | ok m' ↦ ok ((node_id, tx) ∷ m') ]

  unfoldable pub broadcast :
      Channels → ControlMessage → Channels × Result (Unit {0}) CommunicationError
  broadcast [] msg = ([], ok tt)
  broadcast ((node_id, tx) ∷ m) msg =
      let rest = broadcast m msg in
      elim (mpsc.send tx msg) [
        | none ↦ ((node_id, tx) ∷ m, err disconnected)
        | some tx' ↦ ((node_id, tx') ∷ rest.0, rest.1)
      ]

  abbrev pub new : ControlMessageHandler
  new = record {
    queue = [];
    channels_to_control_senders = [];
    channels_to_control_receivers = [];
    channels_to_data_senders = [];
    channels_to_data_receivers = [];
    channels_to_nodes = [];
  }

  -- The maps, and the handler with one of them changed.
  pub data Family : Type 0 where
    control_senders control_receivers data_senders data_receivers nodes : Family

  abbrev pub channels : ControlMessageHandler → Family → Channels
  channels h control_senders = h.channels_to_control_senders
  channels h control_receivers = h.channels_to_control_receivers
  channels h data_senders = h.channels_to_data_senders
  channels h data_receivers = h.channels_to_data_receivers
  channels h nodes = h.channels_to_nodes

  abbrev pub with_channels : ControlMessageHandler → Family → Channels → ControlMessageHandler
  with_channels h control_senders m = record h { channels_to_control_senders = m }
  with_channels h control_receivers m = record h { channels_to_control_receivers = m }
  with_channels h data_senders m = record h { channels_to_data_senders = m }
  with_channels h data_receivers m = record h { channels_to_data_receivers = m }
  with_channels h nodes m = record h { channels_to_nodes = m }

  -- `add_channel_to_…`, `send_to_…` and `broadcast_to_…` for each of the maps.
  abbrev pub add_channel_to :
      Family → ControlMessageHandler → ℕ → Mpsc.Tx mpsc → ControlMessageHandler
  add_channel_to f h id tx = with_channels h f (add_channel (channels h f) id tx)

  abbrev pub send_message_to :
      Family
      → ControlMessageHandler
      → ℕ
      → ControlMessage
      → Result ControlMessageHandler CommunicationError
  send_message_to f h id msg = elim (send_to (channels h f) id msg) [
    | err e ↦ err e
    | ok m ↦ ok (with_channels h f m)
  ]

  abbrev pub broadcast_to :
      Family
      → ControlMessageHandler
      → ControlMessage
      → ControlMessageHandler × Result (Unit {0}) CommunicationError
  broadcast_to f h msg =
      let result = broadcast (channels h f) msg in (with_channels h f result.0, result.1)

  -- What another task sends to the handler.
  abbrev pub receive : ControlMessageHandler → ControlMessage → ControlMessageHandler
  receive h msg = record h { queue = h.queue ++ (msg ∷ []) }

  abbrev pub read : ControlMessageHandler → Option (ControlMessage × ControlMessageHandler)
  read h = elim h.queue [ [] ↦ none | msg ∷ queue ↦ some (msg, record h { queue = queue }) ]

  unfoldable pub read_all_operators_initialized_on_node_msg :
      ControlMessageHandler → Option (ℕ × ControlMessageHandler)
  read_all_operators_initialized_on_node_msg h = elim (read_loop is_all_initialized h.queue []) [
    | none ↦ none
    | some (msg, queue) ↦ elim (node_of msg) [
      | none ↦ none
      | some n ↦ some (n, record h { queue = queue })
    ]
  ]

  unfoldable pub read_sender_or_receiver_initialized :
      ControlMessageHandler → Option (ControlMessage × ControlMessageHandler)
  read_sender_or_receiver_initialized h = elim (read_loop is_sender_or_receiver h.queue []) [
    | none ↦ none
    | some (msg, queue) ↦ some (msg, record h { queue = queue })
  ]
