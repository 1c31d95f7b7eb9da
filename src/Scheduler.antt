-- ===== src/Scheduler.antt =====
-- src/scheduler/mod.rs: `schedule` decides for each channel whether it stays on one node.
-- `None` is the panic of `unwrap` on an operator that the graph does not have.
pub mod Placement
pub mod Known
use erdos.Prelude.{ℕ, Bool, List, [], ◌∷◌, Option, none, some, ◌==◌, if◌then◌else◌}
use erdos.Prelude.HashMap.{get}
use erdos.Graph.{Graph}
use erdos.Graph.Vertices.{Vertex, driver, operator, OperatorMetadata}
use erdos.Graph.Edges.{
  Channel, StreamMetadata, inter_thread, inter_node, unscheduled, set_channels, ChannelMetadata,
}

-- The node of a vertex: `get_operator(…).unwrap().node_id` for an operator.
unfoldable pub node_of : {R : Type 0} → List (ℕ × OperatorMetadata R) → Vertex → Option ℕ
node_of operators (driver node_id) = some node_id
node_of operators (operator id) = elim (get id operators) [
  | none ↦ none
  | some op ↦ some op.node_id
]

module _ {R : Type 0} (operators : List (ℕ × OperatorMetadata R)) where
  unfoldable pub schedule_channel : ℕ → Channel → Option Channel
  schedule_channel source_node_id (inter_thread cm) = some (inter_thread cm)
  schedule_channel source_node_id (inter_node cm) = some (inter_node cm)
  schedule_channel source_node_id (unscheduled cm) = elim (node_of operators cm.sink) [
    | none ↦ none
    | some sink_node_id ↦
        some (if source_node_id == sink_node_id then inter_thread cm else inter_node cm)
  ]

  unfoldable pub schedule_channels : ℕ → List Channel → Option (List Channel)
  schedule_channels source_node_id [] = some []
  schedule_channels source_node_id (c ∷ cs) = elim (schedule_channel source_node_id c) [
    | none ↦ none
    | some c' ↦ elim (schedule_channels source_node_id cs) [
      | none ↦ none
      | some cs' ↦ some (c' ∷ cs')
    ]
  ]

  unfoldable pub schedule_stream : StreamMetadata → Option StreamMetadata
  schedule_stream stream = elim (node_of operators stream.source) [
    | none ↦ none
    | some source_node_id ↦ elim (schedule_channels source_node_id stream.channels) [
      | none ↦ none
      | some channels ↦ some (set_channels stream channels)
    ]
  ]

  unfoldable pub schedule_streams : List (ℕ × StreamMetadata) → Option (List (ℕ × StreamMetadata))
  schedule_streams [] = some []
  schedule_streams ((id, s) ∷ m) = elim (schedule_stream s) [
    | none ↦ none
    | some s' ↦ elim (schedule_streams m) [ none ↦ none | some m' ↦ some ((id, s') ∷ m') ]
  ]

unfoldable pub schedule : {R H : Type 0} → Graph R H → Option (Graph R H)
schedule g = elim (schedule_streams g.operators g.streams) [
  | none ↦ none
  | some streams ↦ some (record g { streams = streams })
]
