-- ===== src/WriteStream/Watermark.antt =====
-- `WriteStream::send` on each branch, and the low watermark.
use erdos.Prelude.{◌≡◌, true, false, List, [], ◌∷◌, arith}
use erdos.Message.{Message, timestamp, watermark, timestamped_data, lt, le}
use erdos.Message.Order.{le_refl, le_trans, lt-or-le}
use erdos.Communication.{err, Mpsc}
use erdos.Communication.Endpoint.{Outgoing}
use erdos.WriteStream.{WriteStream, closed, timestamp_error, send, send_all}

module _ {D : Type 0} {local : Mpsc (Message D)} {remote : Mpsc (Outgoing D)} where
  -- On a closed stream every message is refused with `Closed`, on an open one every message below
  -- the low watermark with `TimestampError`, and neither changes the stream.
  pub send_refused :
      (ws : WriteStream local remote) (msg : Message D)
      → (ws.stream_closed ≡ true → send ws msg ≡ (ws, err closed))
        × (ws.stream_closed ≡ false
            → lt (timestamp msg) ws.low_watermark ≡ true
            → send ws msg ≡ (ws, err timestamp_error))
  unfolding send
  send_refused ws (watermark t) = (ground arith, ground arith)
  send_refused ws (timestamped_data td) = (ground arith, ground arith)

  pub send-low_watermark :
      (ws : WriteStream local remote) (msg : Message D)
      → le ws.low_watermark (send ws msg).0.low_watermark ≡ true
  unfolding send
  send-low_watermark ws (watermark t) =
      ground (arith, le_refl ws.low_watermark, lt-or-le t ws.low_watermark)
  send-low_watermark ws (timestamped_data td) = ground (arith, le_refl ws.low_watermark)

  -- No history of calls moves the low watermark back.
  pub send_all-low_watermark :
      (ws : WriteStream local remote) (ms : List (Message D))
      → le ws.low_watermark (send_all ws ms).low_watermark ≡ true
  unfolding send_all
  send_all-low_watermark ws [] = le_refl ws.low_watermark
  send_all-low_watermark ws (m ∷ ms) =
      le_trans ws.low_watermark (send ws m).0.low_watermark
        (send_all (send ws m).0 ms).low_watermark (send-low_watermark ws m)
        (send_all-low_watermark (send ws m).0 ms)
