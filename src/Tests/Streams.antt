-- ===== src/Tests/Streams.antt =====
-- Streams with one open and one closed channel.
use erdos.Prelude.{
  ℕ, ◌≡◌, refl, Bool, true, false, List, [], ◌∷◌, ◌++◌, Option, none, some, map, arith,
}
use erdos.Message
use erdos.Message.{Message, Timestamp, watermark, lt, le, timestamp, is_top_watermark, new_message}
use erdos.Communication.{Mpsc, ok, err}
use erdos.Communication.Endpoint
use erdos.Communication.Endpoint.{SendEndpoint, Outgoing, push, log, inter_thread}
use erdos.WriteStream.{
  WriteStream, deliver, send, send_all, update_watermark, timestamp_error, write_io_error,
}
use erdos.WriteStream.Log.{
  SendsOn, AllTimed, channels_after_all, send_all-AllTimed, send_broadcasts, failed_watermark,
}

-- A channel that is open or closed, and what it has accepted.
abbrev pub accept : {M : Type 0} → Bool × List M → M → Option (Bool × List M)
accept (true, ms) m = some (true, ms ++ m ∷ [])
accept (false, ms) m = none

pub accept-sent :
    {M : Type 0} (c c' : Bool × List M) (m : M) → accept c m ≡ some c' → c'.1 ≡ c.1 ++ m ∷ []
accept-sent (true, ms) c' m h = ground arith
accept-sent (false, ms) c' m h = ground arith

abbrev pub channel : (M : Type 0) → Mpsc M
channel M = record { Tx = Bool × List M; send = accept; sent = λ c. c.1; sent-send = accept-sent }

abbrev pub open_end : SendEndpoint (channel (Message ℕ)) (channel (Outgoing ℕ))
open_end = inter_thread (true, [])

abbrev closed_end : SendEndpoint (channel (Message ℕ)) (channel (Outgoing ℕ))
closed_end = inter_thread (false, [])

abbrev pub stream :
    List (SendEndpoint (channel (Message ℕ)) (channel (Outgoing ℕ)))
    → WriteStream (channel (Message ℕ)) (channel (Outgoing ℕ))
stream es = record {
  id = 7;
  pusher = some es;
  low_watermark = Message.new (0 ∷ []);
  stream_closed = false;
}

abbrev at : ℕ → Timestamp
at t = Message.new (t ∷ [])

abbrev sent : List (Message ℕ)
sent = new_message (at 1) 5 ∷ watermark (at 2) ∷ new_message (at 1) 6 ∷ []

send_all-AllTimed_example :
    SendsOn
      (send_all (stream (open_end ∷ [])) sent)
      (channels_after_all (stream (open_end ∷ [])) (open_end ∷ []) sent)
    × AllTimed
        (at 0)
        (channels_after_all (stream (open_end ∷ [])) (open_end ∷ []) sent)
        (send_all (stream (open_end ∷ [])) sent).low_watermark
unfolding Message.cmp Message.cmp_time
send_all-AllTimed_example =
    send_all-AllTimed (at 0) (stream (open_end ∷ [])) (open_end ∷ []) sent (λ h. refl) (refl, tt)

send_broadcasts_example :
    let ws = stream (open_end ∷ []) in
    (w : WriteStream (channel (Message ℕ)) (channel (Outgoing ℕ))) × (es' : List
      (SendEndpoint (channel (Message ℕ)) (channel (Outgoing ℕ))))
    × (deliver (record ws { low_watermark = at 2 }) (watermark (at 2)) ≡ (w, ok tt))
    × (w.pusher ≡ some es')
    × (map log es' ≡ (watermark (at 2) ∷ []) ∷ [])
    × (w.stream_closed ≡ false)
    × ((send ws (watermark (at 2))).0 ≡ w)
unfolding send update_watermark push Endpoint.send Message.cmp Message.cmp_time
send_broadcasts_example =
    send_broadcasts (stream (open_end ∷ [])) (open_end ∷ []) (watermark (at 2)) refl refl

failed_watermark_example :
    let ws = stream (closed_end ∷ []) in
    let ws' = (send ws (watermark (at 2))).0 in
    ((send ws (watermark (at 2))).1 ≡ err write_io_error)
    × (ws'.stream_closed ≡ false)
    × (ws'.low_watermark ≡ at 2)
    × (send ws' (new_message (at 1) 5) ≡ (ws', err timestamp_error))
unfolding send update_watermark push Endpoint.send Message.cmp Message.cmp_time
failed_watermark_example =
    failed_watermark (stream (closed_end ∷ [])) (closed_end ∷ []) (at 2) (new_message (at 1) 5) refl
      refl refl (λ h. cc) refl
