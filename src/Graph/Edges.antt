-- ===== src/Graph/Edges.antt =====
-- src/dataflow/graph/edge.rs: channels and streams. A stream's type `D` of data is left out.
use erdos.Prelude.{ℕ, List, [], ◌∷◌, ◌++◌}
use erdos.Graph.Vertices.{Vertex}

pub record ChannelMetadata : Type 0 where
  pub stream_id : ℕ
  pub source : Vertex
  pub sink : Vertex

pub data Channel : Type 0 where
  inter_thread : ChannelMetadata → Channel
  inter_node : ChannelMetadata → Channel
  unscheduled : ChannelMetadata → Channel

-- The `match` on a channel for its metadata.
abbrev pub metadata_of : Channel → ChannelMetadata
metadata_of (inter_thread cm) = cm
metadata_of (inter_node cm) = cm
metadata_of (unscheduled cm) = cm

pub record StreamMetadata : Type 0 where
  pub id : ℕ
  pub source : Vertex
  pub channels : List Channel

abbrev pub new_stream : ℕ → Vertex → StreamMetadata
new_stream id source = record { id = id; source = source; channels = [] }

unfoldable pub add_channel : StreamMetadata → Channel → StreamMetadata
add_channel s channel = record s { channels = s.channels ++ (channel ∷ []) }

abbrev pub set_channels : StreamMetadata → List Channel → StreamMetadata
set_channels s channels = record s { channels = channels }

-- `Channel::Unscheduled(ChannelMetadata::new(stream_id, source, sink))` for the stream itself.
abbrev pub channel_to : StreamMetadata → Vertex → Channel
channel_to s sink = unscheduled (record { stream_id = s.id; source = s.source; sink = sink })
