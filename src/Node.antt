-- ===== src/Node.antt =====
-- src/node/node.rs: what a node waits for before it runs its operators. An error or a log line is
-- left out: the handler has both ends of its own channel, so reading from it does not fail.
pub mod Loop
pub mod Reports
pub mod Waits
pub mod Executor
pub mod Streams
pub mod Startup
use erdos.Prelude.{
  ℕ, zero, suc, Bool, true, false, List, [], ◌∷◌, ◌++◌, Option, none, some, length, ltb, insert_set,
  if◌then◌else◌, ◌||◌,
}
use erdos.Communication.{CommunicationError, Result, Mpsc}
use erdos.Communication.Control.{
  ControlMessage, all_operators_initialized_on_node, operator_initialized, run_operator,
  data_sender_initialized, data_receiver_initialized, control_sender_initialized,
  control_receiver_initialized, ControlMessageHandler, Channels, nodes, broadcast_to,
  read_all_operators_initialized_on_node_msg, read_sender_or_receiver_initialized, send_to,
}

-- The loop that the three waits share, on at most `fuel` messages. `None` while what has been sent
-- does not end it: the node waits.
unfoldable pub wait_loop :
    {H M S : Type 0} → (H → Option (M × H)) → (S → Bool) → (M → S → S) → ℕ → H → S → Option H
wait_loop read waiting insert zero h s = if waiting s then none else some h
wait_loop read waiting insert (suc fuel) h s =
    if waiting s
    then elim (read h) [
      | none ↦ none
      | some (m, h') ↦ wait_loop read waiting insert fuel h' (insert m s)
    ]
    else some h

-- The sets of nodes whose senders and receivers have reported.
pub record Initialized : Type 0 where
  pub control_senders : List ℕ
  pub control_receivers : List ℕ
  pub data_senders : List ℕ
  pub data_receivers : List ℕ

abbrev pub initially : ℕ → Initialized
initially id = record {
  control_senders = id ∷ [];
  control_receivers = id ∷ [];
  data_senders = id ∷ [];
  data_receivers = id ∷ [];
}

-- The other messages are never read by this wait.
unfoldable pub insert_initialized : ControlMessage → Initialized → Initialized
insert_initialized (control_sender_initialized n) s = record s {
  control_senders = insert_set n s.control_senders;
}
insert_initialized (control_receiver_initialized n) s = record s {
  control_receivers = insert_set n s.control_receivers;
}
insert_initialized (data_sender_initialized n) s = record s {
  data_senders = insert_set n s.data_senders;
}
insert_initialized (data_receiver_initialized n) s = record s {
  data_receivers = insert_set n s.data_receivers;
}
insert_initialized (all_operators_initialized_on_node n) s = s
insert_initialized (operator_initialized n) s = s
insert_initialized (run_operator n) s = s

abbrev pub too_few : ℕ → List ℕ → Bool
too_few num xs = ltb (length xs) num

unfoldable pub some_missing : ℕ → Initialized → Bool
some_missing num_nodes s =
    too_few num_nodes s.control_senders
    || (too_few num_nodes s.control_receivers
        || (too_few num_nodes s.data_senders || too_few num_nodes s.data_receivers))

-- `UnboundedReceiver::recv`
abbrev pub recv : List ControlMessage → Option (ControlMessage × List ControlMessage)
recv [] = none
recv (m ∷ rx) = some (m, rx)

unfoldable pub insert_operator : ControlMessage → List ℕ → List ℕ
insert_operator (operator_initialized op_id) s = insert_set op_id s
insert_operator (all_operators_initialized_on_node n) s = s
insert_operator (run_operator n) s = s
insert_operator (data_sender_initialized n) s = s
insert_operator (data_receiver_initialized n) s = s
insert_operator (control_sender_initialized n) s = s
insert_operator (control_receiver_initialized n) s = s

-- The operators' channel has a sender in `run_operators`, so it does not close.
unfoldable pub wait_for_local_operators_initialized :
    List ControlMessage → ℕ → Option (List ControlMessage)
wait_for_local_operators_initialized rx num_local_operators =
    wait_loop recv (too_few num_local_operators) insert_operator (length rx) rx []

module _ (mpsc : Mpsc ControlMessage) (id num_nodes : ℕ) where
  unfoldable pub wait_for_communication_layer_initialized :
      ControlMessageHandler mpsc → Option (ControlMessageHandler mpsc)
  wait_for_communication_layer_initialized h =
      wait_loop (read_sender_or_receiver_initialized mpsc) (some_missing num_nodes)
        insert_initialized (length h.queue) h (initially id)

  abbrev pub broadcast_local_operators_initialized :
      ControlMessageHandler mpsc → ControlMessageHandler mpsc × Result (Unit {0}) CommunicationError
  broadcast_local_operators_initialized h =
      broadcast_to mpsc nodes h (all_operators_initialized_on_node id)

  unfoldable pub wait_for_all_operators_initialized :
      ControlMessageHandler mpsc → Option (ControlMessageHandler mpsc)
  wait_for_all_operators_initialized h =
      wait_loop (read_all_operators_initialized_on_node_msg mpsc) (too_few num_nodes) insert_set
        (length h.queue) h (id ∷ [])
