-- ===== src/Operators/Map.antt =====
-- src/dataflow/operators/map_operator.rs: the callback of `MapOperator`. `None` is the panic of
-- `expect`.
use erdos.Prelude.{Option, none, some}
use erdos.Message.{Message, Timestamp, new_message}
use erdos.Communication.{ok, err, Mpsc}
use erdos.Communication.Endpoint.{Outgoing}
use erdos.WriteStream.{WriteStream, send}

unfoldable pub on_data_callback :
    {D1 D2 : Type 0} {local : Mpsc (Message D2)} {remote : Mpsc (Outgoing D2)}
    → Timestamp
    → D1
    → WriteStream local remote
    → (D1 → D2)
    → Option (WriteStream local remote)
on_data_callback t msg output_stream map_function =
    let (ws, result) = send output_stream (new_message t (map_function msg)) in
    elim result [ err e ↦ none | ok u ↦ some ws ]
