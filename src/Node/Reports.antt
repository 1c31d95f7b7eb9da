-- ===== src/Node/Reports.antt =====
-- The tasks of the communication layer of which the messages to a node's handler tell, for the wait
-- of src/node/node.rs.
use erdos.Prelude.{
  ℕ, ◌≤◌, ◌≡◌, refl, ◌↔◌, false, Option, List, [], ◌∷◌, none, some, length, insert_set, arith,
}
use erdos.Communication.Control.{ControlMessage}
use erdos.Node.{Initialized, initially, insert_initialized, some_missing}
use erdos.Node.Loop.{insert_msgs}

-- The nodes for which a kind of task is reported.
abbrev pub control_sender_of : ControlMessage → Option ℕ
control_sender_of (ControlMessage.control_sender_initialized n) = some n
control_sender_of m = none

abbrev pub control_receiver_of : ControlMessage → Option ℕ
control_receiver_of (ControlMessage.control_receiver_initialized n) = some n
control_receiver_of m = none

abbrev pub data_sender_of : ControlMessage → Option ℕ
data_sender_of (ControlMessage.data_sender_initialized n) = some n
data_sender_of m = none

abbrev pub data_receiver_of : ControlMessage → Option ℕ
data_receiver_of (ControlMessage.data_receiver_initialized n) = some n
data_receiver_of m = none

abbrev pub reported : (ControlMessage → Option ℕ) → List ControlMessage → List ℕ
reported of [] = []
reported of (m ∷ queue) = elim (of m) [ none ↦ reported of queue | some n ↦ n ∷ reported of queue ]

-- The node itself and the nodes that report are at least `num_nodes` different ones.
abbrev pub Enough : ℕ → ℕ → List ℕ → Type 0
Enough id num_nodes ids = num_nodes ≤ length (insert_msgs insert_set ids (id ∷ []))

abbrev pub AllReported : ℕ → ℕ → List ControlMessage → Type 0
AllReported id num_nodes queue =
    Enough id num_nodes (reported control_sender_of queue)
    × Enough id num_nodes (reported control_receiver_of queue)
    × Enough id num_nodes (reported data_sender_of queue)
    × Enough id num_nodes (reported data_receiver_of queue)

-- What the messages add to each of the four sets.
insert_msgs-reported :
    (queue : List ControlMessage) (s : Initialized)
    → insert_msgs insert_initialized queue s ≡ record {
      control_senders = insert_msgs insert_set (reported control_sender_of queue) s.control_senders;
      control_receivers =
          insert_msgs insert_set (reported control_receiver_of queue) s.control_receivers;
      data_senders = insert_msgs insert_set (reported data_sender_of queue) s.data_senders;
      data_receivers = insert_msgs insert_set (reported data_receiver_of queue) s.data_receivers;
    }
unfolding insert_initialized
insert_msgs-reported [] s = refl
insert_msgs-reported (ControlMessage.all_operators_initialized_on_node n ∷ ms) s =
    insert_msgs-reported ms _
insert_msgs-reported (ControlMessage.operator_initialized n ∷ ms) s = insert_msgs-reported ms _
insert_msgs-reported (ControlMessage.run_operator n ∷ ms) s = insert_msgs-reported ms _
insert_msgs-reported (ControlMessage.data_sender_initialized n ∷ ms) s = insert_msgs-reported ms _
insert_msgs-reported (ControlMessage.data_receiver_initialized n ∷ ms) s = insert_msgs-reported ms _
insert_msgs-reported (ControlMessage.control_sender_initialized n ∷ ms) s =
    insert_msgs-reported ms _
insert_msgs-reported (ControlMessage.control_receiver_initialized n ∷ ms) s =
    insert_msgs-reported ms _

some_missing_lem :
    (num : ℕ) (s : Initialized)
    → (some_missing num s ≡ false) ↔ (
        (num ≤ length s.control_senders)
        × (num ≤ length s.control_receivers)
        × (num ≤ length s.data_senders)
        × (num ≤ length s.data_receivers))
unfolding some_missing
some_missing_lem num s = (λ h. ground (arith, h), λ h. ground (arith, h))

pub some_missing-AllReported :
    (id num_nodes : ℕ) (queue : List ControlMessage)
    → (some_missing num_nodes (insert_msgs insert_initialized queue (initially id)) ≡ false)
      ↔ AllReported id num_nodes queue
some_missing-AllReported id num_nodes queue =
    rw (insert_msgs-reported queue (initially id)) (some_missing_lem num_nodes _)
