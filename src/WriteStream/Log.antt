-- ===== src/WriteStream/Log.antt =====
-- src/dataflow/stream/write_stream.rs: what a stream puts on its channels over a history of calls.
use erdos.Prelude.{
  ◌≡◌, refl, true, false, List, [], ◌∷◌, ◌++◌, some, arith, Bool-cases, inl, inr, if◌then◌else◌,
  map, ap, ◌∙◌, ◌↔◌, ◌≢◌, All, length,
}
use erdos.Message.{
  Message, Timestamp, timestamp, watermark, timestamped_data, lt, le, is_top_watermark,
}
use erdos.Message.Order.{lt-or-le}
use erdos.Communication.{disconnected, ok, err, Mpsc}
use erdos.Communication.Endpoint.{SendEndpoint, Outgoing, push, log, delivered, push-delivered}
use erdos.WriteStream.{
  WriteStream, timestamp_error, write_io_error, from_communication, deliver, close_stream, send,
  send_all,
}
use erdos.WriteStream.Watermark.{send_refused}
use erdos.WriteStream.Timed.{Timed, Timed-delivered, advance}

module _ {D : Type 0} {local : Mpsc (Message D)} {remote : Mpsc (Outgoing D)} where
  -- The channels of a stream after a call of `send`, also when the stream lets go of them.
  abbrev pub channels_after :
      WriteStream local remote
      → List (SendEndpoint local remote)
      → Message D
      → List (SendEndpoint local remote)
  channels_after ws es m =
      if ws.stream_closed
      then es
      else if lt (timestamp m) ws.low_watermark
      then es
      else (push es m).0

  abbrev pub channels_after_all :
      WriteStream local remote
      → List (SendEndpoint local remote)
      → List (Message D)
      → List (SendEndpoint local remote)
  channels_after_all ws es [] = es
  channels_after_all ws es (m ∷ ms) = channels_after_all (send ws m).0 (channels_after ws es m) ms

  -- `es` are the channels that the stream sends on, until it is closed.
  abbrev pub SendsOn : WriteStream local remote → List (SendEndpoint local remote) → Type 0
  SendsOn ws es = (ws.stream_closed ≡ false → ws.pusher ≡ some es)

  abbrev pub AllTimed : Timestamp → List (SendEndpoint local remote) → Timestamp → Type 0
  AllTimed start es high = All (λ l. Timed start l high) (map log es)

  send-SendsOn :
      (ws : WriteStream local remote) (es : List (SendEndpoint local remote)) (m : Message D)
      → SendsOn ws es
      → SendsOn (send ws m).0 (channels_after ws es m)
  unfolding send
  send-SendsOn ws es (watermark t) s = ground arith
  send-SendsOn ws es (timestamped_data td) s = ground arith

  push-AllTimed :
      (start high : Timestamp) (es : List (SendEndpoint local remote)) (m : Message D)
      → le high (timestamp m) ≡ true
      → AllTimed start es high
      → AllTimed start (push es m).0 (advance high m)
  push-AllTimed start high es m h t =
      let (n, _, logs, _) = push-delivered es m in
      rw logs (Timed-delivered start high n m (map log es) h t)

  send_accepted :
      (ws : WriteStream local remote) (m : Message D)
      → ws.stream_closed ≡ false
      → lt (timestamp m) ws.low_watermark ≡ false
      → (send ws m).0.low_watermark ≡ advance ws.low_watermark m
  unfolding send
  send_accepted ws (watermark t) o h = ground arith
  send_accepted ws (timestamped_data td) o h = ground arith

  send-AllTimed :
      (start : Timestamp) (ws : WriteStream local remote) (es : List (SendEndpoint local remote))
      (m : Message D)
      → AllTimed start es ws.low_watermark
      → AllTimed start (channels_after ws es m) (send ws m).0.low_watermark
  send-AllTimed start ws es m t = elim (Bool-cases ws.stream_closed) [
    | inl shut ↦ rw ((send_refused ws m).0 shut, shut) t
    | inr open_ ↦ elim (Bool-cases (lt (timestamp m) ws.low_watermark)) [
      | inl late ↦ rw ((send_refused ws m).1 open_ late, open_, late) t
      | inr fine ↦
          rw (send_accepted ws m open_ fine, open_, fine)
            (push-AllTimed start ws.low_watermark es m
              (lt-or-le (timestamp m) ws.low_watermark fine) t)
    ]
  ]

  -- Whatever a stream is asked to send, in whatever order and with whatever failures of its
  -- channels: on each channel no message is below a watermark that was sent before it.
  pub send_all-AllTimed :
      (start : Timestamp) (ws : WriteStream local remote) (es : List (SendEndpoint local remote))
      (ms : List (Message D))
      → SendsOn ws es
      → AllTimed start es ws.low_watermark
      → SendsOn (send_all ws ms) (channels_after_all ws es ms)
        × AllTimed start (channels_after_all ws es ms) (send_all ws ms).low_watermark
  unfolding send_all
  send_all-AllTimed start ws es [] s t = (s, t)
  send_all-AllTimed start ws es (m ∷ ms) s t =
      send_all-AllTimed start (send ws m).0 (channels_after ws es m) ms (send-SendsOn ws es m s)
        (send-AllTimed start ws es m t)

  delivered_all :
      (es : List (SendEndpoint local remote)) (m : Message D)
      → delivered (length es) m (map log es) ≡ map (λ e. log e ++ m ∷ []) es
  delivered_all [] m = refl
  delivered_all (e ∷ es) m = ap (◌∷◌ (log e ++ m ∷ [])) (delivered_all es m)

  push-ok :
      (es : List (SendEndpoint local remote)) (m : Message D)
      → (push es m).1 ≡ ok tt
      → map log (push es m).0 ≡ map (λ e. log e ++ m ∷ []) es
  push-ok es m r =
      let (n, _, logs, end) = push-delivered es m in
      logs ∙ ground (arith, r, end, delivered_all es m)

  -- A call on a stream with channels succeeds exactly when the stream is open, the message is not
  -- below the low watermark, and every channel accepts it.
  pub send-ok_iff :
      (ws : WriteStream local remote) (es : List (SendEndpoint local remote)) (m : Message D)
      → ws.pusher ≡ some es
      → ((send ws m).1 ≡ ok tt) ↔ (
          (ws.stream_closed ≡ false)
          × (lt (timestamp m) ws.low_watermark ≡ false)
          × ((push es m).1 ≡ ok tt))
  unfolding send
  send-ok_iff ws es (watermark t) p = (λ h. ground arith, λ h. ground arith)
  send-ok_iff ws es (timestamped_data td) p = (λ h. ground arith, λ h. ground arith)

  -- The stream when the watermark of a message is updated.
  abbrev advanced : WriteStream local remote → Message D → WriteStream local remote
  advanced ws m = record ws { low_watermark = advance ws.low_watermark m }

  deliver-ok :
      (ws : WriteStream local remote) (es : List (SendEndpoint local remote)) (m : Message D)
      → ws.pusher ≡ some es
      → (push es m).1 ≡ ok tt
      → deliver ws m ≡ (record ws { pusher = some (push es m).0 }, ok tt)
  unfolding deliver
  deliver-ok ws es m p pushed = ground (arith, p, pushed)

  send-deliver :
      (ws w : WriteStream local remote) (m : Message D)
      → ws.stream_closed ≡ false
      → lt (timestamp m) ws.low_watermark ≡ false
      → deliver (advanced ws m) m ≡ (w, ok tt)
      → send ws m ≡ (if is_top_watermark m then close_stream w else w, ok tt)
  unfolding send deliver
  send-deliver ws w (watermark t) o f d = ground (arith, o, f, d)
  send-deliver ws w (timestamped_data td) o f d = ground (arith, o, f, d)

  -- A call that succeeds delivers the message on the stream with the updated watermark, which puts
  -- it once at the end of every channel, and then closes the stream exactly for a top watermark.
  pub send_broadcasts :
      (ws : WriteStream local remote) (es : List (SendEndpoint local remote)) (m : Message D)
      → ws.pusher ≡ some es
      → (send ws m).1 ≡ ok tt
      → (w : WriteStream local remote) × (es' : List (SendEndpoint local remote)) × (deliver
            (advanced ws m)
            m
          ≡ (w, ok tt))
        × (w.pusher ≡ some es')
        × (map log es' ≡ map (λ e. log e ++ m ∷ []) es)
        × (w.stream_closed ≡ false)
        × ((send ws m).0 ≡ (if is_top_watermark m then close_stream w else w))
  send_broadcasts ws es m p r =
      let (open_, fine, pushed) = (send-ok_iff ws es m p).0 r in
      let delivered = deliver-ok (advanced ws m) es m p pushed in
      let w : WriteStream local remote = record (advanced ws m) { pusher = some (push es m).0 } in
      (
        w,
        (push es m).0,
        delivered,
        refl,
        push-ok es m pushed,
        open_,
        ap (λ q. q.0) (send-deliver ws w m open_ fine delivered),
      )

  watermark_fails :
      (ws : WriteStream local remote) (es : List (SendEndpoint local remote)) (t : Timestamp)
      → ws.pusher ≡ some es
      → ws.stream_closed ≡ false
      → lt t ws.low_watermark ≡ false
      → (push es (watermark t)).1 ≡ err disconnected
      → send ws (watermark t) ≡ (
        record ws { low_watermark = t; pusher = some (push es (watermark t)).0 },
        err write_io_error,
      )
  unfolding send from_communication
  watermark_fails ws es t p o f q = ground arith

  -- A watermark that a channel refuses is not undone: the call fails with an input-output error,
  -- yet the stream stays open (a top watermark does not close it) and refuses what is below the
  -- watermark from then on.
  pub failed_watermark :
      (ws : WriteStream local remote) (es : List (SendEndpoint local remote)) (t : Timestamp)
      (m : Message D)
      → ws.pusher ≡ some es
      → ws.stream_closed ≡ false
      → lt t ws.low_watermark ≡ false
      → (push es (watermark t)).1 ≢ ok tt
      → lt (timestamp m) t ≡ true
      → let ws' = (send ws (watermark t)).0 in
        ((send ws (watermark t)).1 ≡ err write_io_error)
        × (ws'.stream_closed ≡ false)
        × (ws'.low_watermark ≡ t)
        × (send ws' m ≡ (ws', err timestamp_error))
  failed_watermark ws es t m p o f q late =
      let (_, _, _, end) = push-delivered es (watermark t) in
      let refused : (push es (watermark t)).1 ≡ err disconnected = ground (arith, end, q) in
      rw (watermark_fails ws es t p o f refused) (refl, o, refl, (send_refused _ m).1 o late)
