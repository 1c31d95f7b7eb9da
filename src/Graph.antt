-- ===== src/Graph.antt =====
-- src/dataflow/graph/graph.rs: the dataflow graph that a driver builds, and the functions of
-- src/dataflow/graph/default_graph.rs, which call it on the thread's graph.
-- A stream handle enters by the ids that the graph reads from it. `to_dot` is left out.
pub mod Vertices
pub mod Edges
pub mod Channels
pub mod Subscriptions
pub mod Wiring
use erdos.Prelude.{
  ℕ, zero, Bool, true, false, List, [], ◌∷◌, ◌++◌, Option, none, some, ◌==◌, if◌then◌else◌, map,
  keep,
}
use erdos.Prelude.HashMap.{get, insert, remove, values}
use erdos.Communication.{Result, ok, err}
use erdos.Graph.Vertices.{
  Vertex, driver, operator, DriverMetadata, OperatorMetadata, new_driver, add_ingest, add_extract,
}
use erdos.Graph.Edges.{
  Channel, StreamMetadata, new_stream, add_channel, channel_to, metadata_of, unscheduled,
}

module _ (R H : Type 0) where
  pub record Graph : Type 0 where
    pub operators : List (ℕ × OperatorMetadata R)
    pub drivers : List (ℕ × DriverMetadata H)
    pub streams : List (ℕ × StreamMetadata)
    pub stream_aliases : List (ℕ × ℕ)

-- What `add_stream_alias` reports, and its `unreachable!`.
pub data AliasError : Type 0 where
  no_such_stream unreachable : AliasError

-- `add_channel` in a loop over the entries, once for each of its ids that is the stream's.
unfoldable pub add_channels_to : StreamMetadata → Vertex → List ℕ → StreamMetadata
add_channels_to s sink [] = s
add_channels_to s sink (id ∷ ids) =
    add_channels_to (if s.id == id then add_channel s (channel_to s sink) else s) sink ids

-- The channel to a vertex, if the stream is there: `streams.get_mut(…)` and `add_channel`.
unfoldable pub add_stream_channel :
    List (ℕ × StreamMetadata) → Vertex → ℕ → List (ℕ × StreamMetadata)
add_stream_channel streams sink stream_id = elim (get stream_id streams) [
  | none ↦ streams
  | some s ↦ insert stream_id (add_channel s (channel_to s sink)) streams
]

-- The loop of `add_operator` over the read streams.
unfoldable pub add_reads : List (ℕ × StreamMetadata) → Vertex → List ℕ → List (ℕ × StreamMetadata)
add_reads streams sink [] = streams
add_reads streams sink (read_stream_id ∷ ids) =
    add_reads (add_stream_channel streams sink read_stream_id) sink ids

-- The loop of `add_stream_alias` over the channels of the stream that goes.
unfoldable pub merge_channels : StreamMetadata → List Channel → StreamMetadata
merge_channels to_stream [] = to_stream
merge_channels to_stream (channel ∷ channels) =
    merge_channels (add_channel to_stream (channel_to to_stream (metadata_of channel).sink))
      channels

-- `OperatorId::nil()` is 0.
abbrev pub nil : ℕ
nil = 0

unfoldable pub operator_channels :
    {R : Type 0} → List (ℕ × OperatorMetadata R) → StreamMetadata → StreamMetadata
operator_channels [] s = s
operator_channels ((k, op) ∷ m) s =
    operator_channels m (add_channels_to s (operator op.id) op.read_stream_ids)

unfoldable pub driver_channels :
    {H : Type 0} → List (ℕ × DriverMetadata H) → StreamMetadata → StreamMetadata
driver_channels [] s = s
driver_channels ((k, d) ∷ m) s =
    driver_channels m (add_channels_to s (driver d.id) d.extract_stream_ids)

module _ {R H : Type 0} where
  abbrev pub new : Graph R H
  new = record { operators = []; drivers = []; streams = []; stream_aliases = [] }

  unfoldable pub resolve_stream_id : Graph R H → ℕ → ℕ
  resolve_stream_id g id = elim (get id g.stream_aliases) [ none ↦ id | some fixed_id ↦ fixed_id ]

  unfoldable pub add_operator : Graph R H → ℕ → ℕ → List ℕ → List ℕ → R → Graph R H
  add_operator g id node_id read_ids write_ids runner =
      let read_stream_ids = map (resolve_stream_id g) read_ids in
      let write_stream_ids = map (resolve_stream_id g) write_ids in
      record g {
        streams = add_reads g.streams (operator id) read_stream_ids;
        operators =
            insert id
              (record {
                id = id;
                node_id = node_id;
                read_stream_ids = read_stream_ids;
                write_stream_ids = write_stream_ids;
                runner = runner;
              })
              g.operators;
      }

  unfoldable pub add_channels : Graph R H → StreamMetadata → StreamMetadata
  add_channels g s = driver_channels g.drivers (operator_channels g.operators s)

  unfoldable pub add_operator_stream : Graph R H → ℕ → ℕ → Graph R H
  add_operator_stream g operator_id stream_id = record g {
    streams =
        insert stream_id (add_channels g (new_stream stream_id (operator operator_id))) g.streams;
  }

  -- `entry(node_id).or_insert_with(…)`
  unfoldable pub driver_entry : Graph R H → ℕ → DriverMetadata H
  driver_entry g node_id = elim (get node_id g.drivers) [ none ↦ new_driver node_id | some d ↦ d ]

  unfoldable pub add_ingest_stream : Graph R H → ℕ → ℕ → H → Graph R H
  add_ingest_stream g stream_id node_id hook =
      let g' : Graph R H = record g {
        drivers = insert node_id (add_ingest (driver_entry g node_id) stream_id hook) g.drivers;
      } in
      record g' {
        streams =
            insert stream_id (add_channels g' (new_stream stream_id (driver node_id))) g.streams;
      }

  -- Without the stream only a line on stderr tells.
  unfoldable pub add_extract_stream : Graph R H → ℕ → ℕ → H → Graph R H
  add_extract_stream g stream_id node_id hook = record g {
    drivers = insert node_id (add_extract (driver_entry g node_id) stream_id hook) g.drivers;
    streams = add_stream_channel g.streams (driver node_id) stream_id;
  }

  unfoldable pub add_loop_stream : Graph R H → ℕ → Graph R H
  add_loop_stream g loop_stream_id = add_operator_stream g nil loop_stream_id

  unfoldable pub add_stream_alias : Graph R H → ℕ → ℕ → Result (Graph R H) AliasError
  add_stream_alias g from_id to_id = elim (get to_id g.streams) [
    | none ↦ err no_such_stream
    | some s ↦
        let aliases = insert from_id to_id g.stream_aliases in
        elim (get from_id g.streams) [
          | none ↦ ok (record g { stream_aliases = aliases })
          | some from_stream ↦
              let rest = remove from_id g.streams in
              elim (get to_id rest) [
                | none ↦ err unreachable
                | some to_stream ↦ ok (record g {
                  stream_aliases = aliases;
                  streams = insert to_id (merge_channels to_stream from_stream.channels) rest;
                })
              ]
        ]
  ]

  abbrev pub get_operator : Graph R H → ℕ → Option (OperatorMetadata R)
  get_operator g id = get id g.operators

  abbrev pub get_driver : Graph R H → ℕ → Option (DriverMetadata H)
  get_driver g id = get id g.drivers

  abbrev pub get_stream : Graph R H → ℕ → Option StreamMetadata
  get_stream g id = get id g.streams

  abbrev pub get_operators : Graph R H → List (OperatorMetadata R)
  get_operators g = values g.operators

  abbrev pub get_streams : Graph R H → List StreamMetadata
  get_streams g = values g.streams

  abbrev pub get_vertices_on : Graph R H → ℕ → List Vertex
  get_vertices_on g node_id =
      map (λ op. operator op.id) (keep (λ op. op.node_id == node_id) (values g.operators))
      ++ map (λ d. driver d.id) (keep (λ d. d.id == node_id) (values g.drivers))
