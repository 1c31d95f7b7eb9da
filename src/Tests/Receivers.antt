-- ===== src/Tests/Receivers.antt =====
-- A receiver of data with one stream.
use erdos.Prelude.{ℕ, ◌≡◌, refl, true, List, [], ◌∷◌, some, map}
use erdos.Prelude.HashMap.{get, insert}
use erdos.Message
use erdos.Message.{Message, new_message}
use erdos.Communication.{CommunicationError, bincode_error, Result, ok, err}
use erdos.Communication.Codec.{InterProcessMessage, serialized}
use erdos.Communication.Endpoint
use erdos.Communication.Endpoint.{SendEndpoint, Outgoing, inter_thread, log, push}
use erdos.Communication.Receivers.{Pushers, closed, receive, send_from_bytes, update_pushers}
use erdos.Communication.Receivers.Delivery.{arriving, receive-delivers}
use erdos.Tests.Streams.{channel, open_end}

-- A message of one byte at the timestamp 1.
abbrev decode : List ℕ → Result (Message ℕ) CommunicationError
decode [] = err bincode_error
decode (b ∷ bytes) = ok (new_message (Message.new (1 ∷ [])) b)

abbrev pushers : Pushers (channel (Message ℕ)) (channel (Outgoing ℕ))
pushers = (3, open_end ∷ []) ∷ (4, open_end ∷ []) ∷ []

abbrev arrived : List (InterProcessMessage ℕ ℕ)
arrived = serialized 3 (7 ∷ []) ∷ serialized 4 (8 ∷ []) ∷ serialized 3 (9 ∷ []) ∷ []

abbrev both : List (Message ℕ)
both = new_message (Message.new (1 ∷ [])) 7 ∷ new_message (Message.new (1 ∷ [])) 9 ∷ []

abbrev pushers_after : Pushers (channel (Message ℕ)) (channel (Outgoing ℕ))
pushers_after =
    (3, inter_thread (true, both) ∷ [])
    ∷ (4, inter_thread (true, new_message (Message.new (1 ∷ [])) 8 ∷ []) ∷ [])
    ∷ []

arrived-received : receive decode (arriving arrived) pushers ≡ (pushers_after, closed)
unfolding receive get update_pushers send_from_bytes push Endpoint.send insert
arrived-received = refl

receive-delivers_example :
    (es' : List (SendEndpoint (channel (Message ℕ)) (channel (Outgoing ℕ)))) × (get 3 pushers_after
      ≡ some es')
    × (map log es' ≡ both ∷ [])
unfolding get
receive-delivers_example =
    receive-delivers decode arrived pushers pushers_after 3 (open_end ∷ []) arrived-received refl
