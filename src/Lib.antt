-- ===== src/Lib.antt =====
-- ERDOS, a dataflow system: operators send timestamped messages and watermarks over streams,
-- and the runtime runs their callbacks in an order that the watermarks allow.
--
-- The parts, and how they interact. An operator sends on a `WriteStream`, which checks each
-- message against its low watermark and hands it to a pusher, which sends it on every endpoint
-- of the stream. What arrives becomes `OperatorEvent`s, invocations of callbacks with a partial
-- order: a read stream makes them from its messages. The executor of an operator adds them to
-- the `ExecutionLattice`, a dependency graph, from which worker tasks take runnable events and to
-- which they report them completed. A
-- callback may keep a `TimeVersionedState`, whose access depends on the kind of callback. The
-- driver's program builds a `Graph` of operators and streams, which is scheduled: each channel of
-- a stream becomes one within a node or one between nodes. A node makes the channels that end or
-- start on it in its `ChannelManager`, from which operators and the driver's ingest and extract
-- streams take their endpoints, and waits for the other nodes before its operators run.
--
-- Message models src/dataflow/message.rs. `IntTimestamp` is `Timestamp`; coordinates are `u64` that
-- are only compared, so they are natural numbers without a bound.
-- Communication models src/communication/endpoints.rs, src/communication/pusher.rs and
-- src/communication/errors.rs. A channel of tokio is the interface `Mpsc`: a send is accepted
-- at the end of the channel or fails.
-- Communication.Codec models src/communication/message_codec.rs: `decode` is a function of the
-- codec's status and the buffer, split by the part of the message that is due. bincode is the
-- interface `Wire`. Communication.ControlCodec models
-- src/communication/control_message_codec.rs in the same way. Communication.Control models
-- src/communication/control_message_handler.rs: the five maps of channels are one operation each,
-- on a `Family`. Communication.Slices models the encodings of `InterProcessMessage` in
-- src/communication/mod.rs for zenoh's buffers. Communication.Receivers and
-- Communication.Senders model the loops of src/communication/receivers.rs and
-- src/communication/senders.rs; the pushers that become known meanwhile stand with the message
-- before which they are taken. Communication.Zenoh models the tasks over zenoh: its senders and
-- receivers are src/communication/zenoh_senders.rs and src/communication/zenoh_receivers.rs, its
-- SharedMemory src/communication/zenoh_shm_senders.rs and src/communication/zenoh_shm_receivers.rs.
-- zenoh is the interfaces `Session` and `SharedMemory`.
-- WriteStream models src/dataflow/stream/write_stream.rs and src/dataflow/stream/errors.rs. `send`
-- returns the stream after the call with the result of the call.
-- Event models src/node/operator_event.rs. `None` is the panic on a circular dependency.
-- Lattice models src/node/lattice.rs. `Lattice.Search` is the search of `add_events`,
-- `Lattice.Runnable` is `RunnableEvent` with the run queue, and `Lattice` has the methods. The
-- graph and the search of petgraph are the interface `Lattice.Petgraph`, with an instance in
-- `Lattice.SmallGraph`. Each method holds all locks of the lattice for its whole body, so a
-- method is a function of the state and a history is a sequence of calls.
-- State models src/dataflow/state.rs. A `BTreeMap` is a list of entries, newest first; an outcome
-- is a value, an access error or a panic.
-- Graph models src/dataflow/graph: the graph, with its vertices in Graph.Vertices and its streams
-- and channels in Graph.Edges. `Graph.Wiring.Reachable` has the calls of a driver
-- that are covered. A `HashMap` is
-- a list of entries in the order of its iteration.
-- Scheduler models src/scheduler/mod.rs.
-- ChannelManager models src/scheduler/channel_manager.rs and src/scheduler/endpoints_manager.rs:
-- the endpoints of a stream are in ChannelManager, the manager's own calls in
-- ChannelManager.Manager. New channels of tokio are given by their number.
-- ReadStream models src/dataflow/stream/internal_read_stream.rs, ReadStream.Callbacks the making of
-- events there and in src/dataflow/stream/internal_stateful_read_stream.rs, ReadStream.Extract
-- src/dataflow/stream/extract_stream.rs and WriteStream.Ingest
-- src/dataflow/stream/ingest_stream.rs. The receiving half of a channel is the interface
-- `Receiver`.
-- Operators models the callbacks of src/dataflow/operators/join_operator.rs and
-- src/dataflow/operators/map_operator.rs.
-- Node models the waits of src/node/node.rs, Node.Startup `run_operators` there, Node.Executor the
-- runner of events and Node.Streams the streams of events of src/node/operator_executor.rs, on the
-- messages that have arrived: `None` is a wait that goes on.
-- Prelude has the lists and Boolean tests that the other files share, Tests has runs on concrete
-- inputs.
--
-- Bounds and fuel. The search in the lattice has as fuel one more than the nodes that the search
-- can still emit. Each step emits a node for the first time, so it is enough, and running out of
-- it would be `None`, as a panic is. The runner of events has the fuel that its theorem names: one
-- more than the nodes of the graph. The waits of a node have the number of messages that are
-- there, as each round takes one. The waits for shared memory have the fuel that their theorem
-- names, one more than the garbage collections that are needed. Sizes and indices have no bound.
--
-- Not modelled: the sockets and the setting up of connections (src/communication/mod.rs), the
-- tasks of tokio, their timing and the threads of a node (src/node/node.rs,
-- src/node/operator_executor.rs), the macros and generated builders (src/connect.rs, build.rs),
-- the Python bindings, logging and the command line.
pub mod Prelude
pub mod Message
pub mod Communication
pub mod WriteStream
pub mod Event
pub mod State
pub mod Lattice
pub mod Graph
pub mod Scheduler
pub mod ChannelManager
pub mod ReadStream
pub mod Node
pub mod Operators
pub mod Tests
