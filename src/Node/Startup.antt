-- ===== src/Node/Startup.antt =====
-- `run_operators` of src/node/node.rs, up to where it waits for the operators to end. The channel
-- manager and the driver's setup hooks enter as `new_manager` and `run_hooks`; `None` of them is a
-- panic. The operators are started by the runtime and report on a channel, `rx_from_operators`. The
-- drawing of the graph to a file is left out.
pub mod Barrier
use erdos.Prelude.{
  ℕ, ◌≡◌, refl, sym, ap, ◌∙◌, ◌⊎◌, inl, inr, Bool, true, false, not, List, [], ◌∷◌, ◌++◌, Option,
  none, some, is_some, length, leb, keep, insert_set, count, Option-cases, ◌==◌, if◌then◌else◌,
}
use erdos.Communication.{CommunicationError, disconnected, Result, ok, err, Mpsc}
use erdos.Communication.Control.{ControlMessage, ControlMessageHandler, Channels, run_operator}
use erdos.Graph.{Graph, get_operators}
use erdos.Graph.Vertices.{OperatorMetadata}
use erdos.Scheduler.{schedule}
use erdos.Node.{
  Initialized, initially, insert_initialized, insert_operator, some_missing,
  wait_for_communication_layer_initialized, wait_for_local_operators_initialized,
  broadcast_local_operators_initialized, wait_for_all_operators_initialized,
}

-- The node waits, has panicked or failed, or has told its operators to run.
pub data Startup (A : Type 0) : Type 0 where
  waits : Startup A
  panicked : Startup A
  failed : CommunicationError → Startup A
  running : A → Startup A

module _ (mpsc : Mpsc ControlMessage) where
  -- The channels of the operators after the loop, which ends at the first one that is closed.
  unfoldable pub tell_to_run : Channels mpsc → Startup (Channels mpsc)
  tell_to_run [] = running []
  tell_to_run ((op_id, tx) ∷ channels_to_operators) = elim (mpsc.send tx (run_operator op_id)) [
    | none ↦ failed disconnected
    | some tx' ↦ elim (tell_to_run channels_to_operators) [
      | waits ↦ waits
      | panicked ↦ panicked
      | failed e ↦ failed e
      | running channels ↦ running ((op_id, tx') ∷ channels)
    ]
  ]

  -- What reaches the handler in the meantime.
  abbrev pub receive_all :
      ControlMessageHandler mpsc → List ControlMessage → ControlMessageHandler mpsc
  receive_all h msgs = record h { queue = h.queue ++ msgs }

abbrev pub local_operators : {R H : Type 0} → ℕ → Graph R H → List (OperatorMetadata R)
local_operators id graph = keep (λ op. op.node_id == id) (get_operators graph)

module _ {R H Manager : Type 0} (mpsc : Mpsc ControlMessage) (id num_nodes : ℕ)
    (new_manager : Graph R H → Option Manager)
    (run_hooks : Graph R H → Manager → Option Manager) where
  -- The end of `run_operators`, when the node's operators have reported.
  unfoldable pub announce_and_run :
      ControlMessageHandler mpsc → List ControlMessage → Channels mpsc → Startup (Channels mpsc)
  announce_and_run h late channels_to_operators =
      let (h', result) = broadcast_local_operators_initialized mpsc id num_nodes h in
      elim result [
        | err e ↦ failed e
        | ok u ↦
            elim (wait_for_all_operators_initialized mpsc id num_nodes (receive_all mpsc h' late)) [
              | none ↦ waits
              | some h'' ↦ tell_to_run mpsc channels_to_operators
            ]
      ]

  unfoldable pub start_operators :
      Graph R H
      → ControlMessageHandler mpsc
      → List ControlMessage
      → List ControlMessage
      → Channels mpsc
      → Startup (Channels mpsc)
  start_operators graph_ref h rx_from_operators late channels_to_operators =
      elim (wait_for_communication_layer_initialized mpsc id num_nodes h) [
        | none ↦ waits
        | some h1 ↦ elim (schedule graph_ref) [
          | none ↦ panicked
          | some graph ↦ elim (new_manager graph) [
            | none ↦ panicked
            | some manager ↦
                elim (wait_for_local_operators_initialized rx_from_operators
                  (length (local_operators id graph))) [
                    | none ↦ waits
                    | some rx ↦ elim (run_hooks graph manager) [
                      | none ↦ panicked
                      | some manager' ↦ announce_and_run h1 late channels_to_operators
                    ]
                  ]
          ]
        ]
      ]
