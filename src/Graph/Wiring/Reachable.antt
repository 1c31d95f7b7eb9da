-- ===== src/Graph/Wiring/Reachable.antt =====
-- src/dataflow/graph/graph.rs: the graphs that a driver's calls lead to, under these restrictions.
-- Operators get new ids, and streams ids that no alias mentions. An alias is made only between two streams of the graph, from
-- one that has no alias and that no alias leads to, to one that has no alias, as by a first
-- `LoopStream::set` with an operator's stream. No stream is extracted under an id that is an alias
-- by then: `add_extract_stream` does not look through aliases, so such a driver gets no channel.
use erdos.Prelude.{ℕ, ◌≡◌, ◌≢◌, List, none, some}
use mathlib.Core.Path.{subst}
use erdos.Prelude.HashMap.{get}
use erdos.Communication.{ok}
use erdos.Graph.{
  Graph, new, add_operator, add_operator_stream, add_ingest_stream, add_extract_stream,
  add_loop_stream, add_stream_alias, nil,
}
use erdos.Graph.Vertices.{Vertex}
use erdos.Graph.Edges.{StreamMetadata}
use erdos.Graph.Channels.{channels_to, Labelled}
use erdos.Graph.Subscriptions.{subscribed}
use erdos.Graph.Wiring.{IsWired, IsFresh, resolved_count, new-IsWired, add_operator_stream-IsWired}
use erdos.Graph.Wiring.Operators.{add_operator-IsWired}
use erdos.Graph.Wiring.Drivers.{add_ingest_stream-IsWired, add_extract_stream-IsWired}
use erdos.Graph.Wiring.Aliases.{add_stream_alias-IsWired}

module _ {R H : Type 0} where
  pub data Reachable : Graph R H → Type 0 where
    start : Reachable new
    operator_added :
        {g : Graph R H} (id node : ℕ) (reads writes : List ℕ) (runner : R)
        → Reachable g
        → get id g.operators ≡ none
        → Reachable (add_operator g id node reads writes runner)
    operator_stream_added :
        {g : Graph R H} (op id : ℕ)
        → Reachable g
        → IsFresh g.stream_aliases id
        → Reachable (add_operator_stream g op id)
    loop_stream_added :
        {g : Graph R H} (id : ℕ)
        → Reachable g
        → IsFresh g.stream_aliases id
        → Reachable (add_loop_stream g id)
    ingest_stream_added :
        {g : Graph R H} (id node : ℕ) (hook : H)
        → Reachable g
        → IsFresh g.stream_aliases id
        → Reachable (add_ingest_stream g id node hook)
    extract_stream_added :
        {g : Graph R H} (id node : ℕ) (hook : H)
        → Reachable g
        → get id g.stream_aliases ≡ none
        → Reachable (add_extract_stream g id node hook)
    alias_added :
        {g : Graph R H} (from_id to_id : ℕ) (fs ts : StreamMetadata) {g' : Graph R H}
        → Reachable g
        → from_id ≢ to_id
        → IsFresh g.stream_aliases from_id
        → get to_id g.stream_aliases ≡ none
        → get from_id g.streams ≡ some fs
        → get to_id g.streams ≡ some ts
        → add_stream_alias g from_id to_id ≡ ok g'
        → Reachable g'

  pub Reachable-IsWired : {g : Graph R H} → Reachable g → IsWired g
  unfolding add_loop_stream
  Reachable-IsWired start = new-IsWired
  Reachable-IsWired (operator_added {g} id node reads writes runner r f) =
      add_operator-IsWired g id node reads writes runner (Reachable-IsWired r) f
  Reachable-IsWired (operator_stream_added {g} op id r f) =
      add_operator_stream-IsWired g op id (Reachable-IsWired r) f
  Reachable-IsWired (loop_stream_added {g} id r f) =
      add_operator_stream-IsWired g nil id (Reachable-IsWired r) f
  Reachable-IsWired (ingest_stream_added {g} id node hook r f) =
      add_ingest_stream-IsWired g id node hook (Reachable-IsWired r) f
  Reachable-IsWired (extract_stream_added {g} id node hook r f) =
      add_extract_stream-IsWired g id node hook (Reachable-IsWired r) f
  Reachable-IsWired (alias_added {g} from_id to_id fs ts {g'} r ne f k hf ht e) =
      let (h, made, w) =
        add_stream_alias-IsWired g from_id to_id (Reachable-IsWired r) ne f k fs ts hf ht in
      let same : h ≡ g' = cc (made, e) in subst IsWired same w

  -- In a graph built by calls of the driver in which operators get new ids and streams ids that no
  -- alias mentions, an alias leads from a
  -- stream of the graph that is neither aliased nor the target of an alias to another one that is
  -- not aliased, and no stream is extracted under an id that is an alias at the time: a vertex has
  -- exactly as many channels from a stream as it has reads of it, itself or under an alias, and
  -- each channel of the stream carries the stream's id and source and waits to be scheduled.
  pub channels_match_reads :
      {g : Graph R H} (id : ℕ) (s : StreamMetadata) (v : Vertex)
      → Reachable g
      → get id g.streams ≡ some s
      → (s.id ≡ id)
        × Labelled s
        × (channels_to v s.channels ≡ resolved_count g.stream_aliases id (subscribed g v))
  channels_match_reads id s v r h = let w = (Reachable-IsWired r).wired id s h in (w.0, w.1, w.2 v)
