-- ===== src/Communication/Zenoh/Delivery.antt =====
-- The way of messages from the send endpoints of one node over src/communication/zenoh_senders.rs
-- and src/communication/zenoh_receivers.rs to the endpoints of another node.
use erdos.Prelude.{
  ℕ, ◌≡◌, refl, sym, ap, ◌∙◌, ◌⊎◌, All, inl, inr, List, [], ◌∷◌, ◌++◌, some, map, ◌==◌,
  if◌then◌else◌, ==_iff, Bool-cases, Option-cases,
}
use mathlib.Core.Path.{subst}
use erdos.Prelude.HashMap.{get, insert, get-insert}
use erdos.Message.{Message}
use erdos.Communication.{CommunicationError, disconnected, Result, ok, err, Mpsc}
use erdos.Communication.Codec.{Wire}
use erdos.Communication.Endpoint.{SendEndpoint, Outgoing, log, push-delivered}
use erdos.Communication.Receivers.{closed, failed, Pushers, send_from_bytes, update_pushers}
use erdos.Communication.Receivers.Delivery.{
  extend, extend-nil, extend-append, decoded, send_from_bytes-logs, Result-cases,
}
use erdos.Communication.Slices.{concat, into_rbuf}
use erdos.Communication.Zenoh.{Session, data_from_to, from_codec}
use erdos.Communication.Zenoh.Senders.{send_over}
use erdos.Communication.Zenoh.Receivers.{Payloads, receive_payloads}
use erdos.Communication.Zenoh.Written.{Encodes, send_over-written}
use erdos.Communication.Zenoh.Carried.{to_message, IsSmall, Carries, carries}

-- The messages that are sent on a stream.
abbrev pub sent_on : {D : Type 0} → ℕ → List (Outgoing D) → List (Message D)
sent_on id [] = []
sent_on id (o ∷ outgoing) =
    (if o.stream_id == id then o.content ∷ [] else []) ++ sent_on id outgoing

-- Payloads that come when no pusher is new.
abbrev pub coming :
    {D : Type 0} {local : Mpsc (Message D)} {remote : Mpsc (Outgoing D)}
    → List (List (List ℕ))
    → Payloads local remote
coming [] = []
coming (p ∷ payloads) = ([], p) ∷ coming payloads

module _ {D : Type 0} {local : Mpsc (Message D)} {remote : Mpsc (Outgoing D)}
    (wire : Wire ℕ (Message D)) (decode : List ℕ → Result (Message D) CommunicationError) where
  receive_payloads-delivers :
      (outgoing : List (Outgoing D)) (payloads : List (List (List ℕ)))
      (ps ps' : Pushers local remote) (id : ℕ) (es : List (SendEndpoint local remote))
      → Carries wire decode outgoing payloads
      → receive_payloads wire decode (coming payloads) ps ≡ (ps', closed)
      → get id ps ≡ some es
      → (es' : List (SendEndpoint local remote)) × (get id ps' ≡ some es')
        × (map log es' ≡ extend (sent_on id outgoing) (map log es))
  unfolding receive_payloads update_pushers from_codec
  receive_payloads-delivers [] [] ps ps' id es c h g =
      let same : ps ≡ ps' = ap (λ p. p.0) h in
      (es, ap (get id) (sym same) ∙ g, sym (extend-nil (map log es)))
  receive_payloads-delivers [] (p ∷ payloads) ps ps' id es c h g = absurd c
  receive_payloads-delivers (o ∷ outgoing) [] ps ps' id es c h g = absurd c
  receive_payloads-delivers (o ∷ outgoing) (p ∷ payloads) ps ps' id es ((ds, from, dec), c) h g =
      let h1 = rw (from, receive_payloads) at h in
      let j = o.stream_id in
      elim (Option-cases (get j ps)) [
        | inl k ↦ elim (Bool-cases (j == id)) [
          | inl same ↦ absurd (cc (k, g, (==_iff j id).0 same))
          | inr other ↦
              let (es', f, l) =
                receive_payloads-delivers outgoing payloads ps ps' id es c
                  (rw (k, receive_payloads) at h1) g in
              (es', f, rw other l)
        ]
        | inr (pusher, k) ↦ elim (Result-cases (send_from_bytes decode pusher ds).1) [
          | inr (x, bad) ↦ absurd (cc (rw (k, bad, receive_payloads) at h1))
          | inl (u, good) ↦
              let pusher' = (send_from_bytes decode pusher ds).0 in
              let h2 = rw (k, good, receive_payloads) at h1 in
              let now = get-insert j id pusher' ps in
              let rest = sent_on id outgoing in
              elim (Bool-cases (j == id)) [
                | inl same ↦
                    let (es', f, l) =
                      receive_payloads-delivers outgoing payloads (insert j pusher' ps) ps' id
                        pusher' c h2 (now ∙ rw same refl) in
                    let is : pusher ≡ es = cc (g, k, (==_iff j id).0 same) in
                    let one : decoded decode ds ≡ o.content ∷ [] = rw (dec, decoded) refl in
                    (
                      es',
                      f,
                      rw same (
                          l
                          ∙ ap (extend rest) (
                              send_from_bytes-logs decode pusher ds good
                              ∙ ap (λ a. extend a (map log pusher)) one)
                          ∙ extend-append (o.content ∷ []) rest (map log pusher)
                          ∙ ap (λ q. extend (o.content ∷ rest) (map log q)) is),
                    )
                | inr other ↦
                    let (es', f, l) =
                      receive_payloads-delivers outgoing payloads (insert j pusher' ps) ps' id es c
                        h2 (now ∙ rw other g) in
                    (es', f, rw other l)
              ]
        ]
      ]

  send_from_bytes-ends :
      (pusher : List (SendEndpoint local remote)) (ds : List ℕ) (m : Message D)
      → decode ds ≡ ok m
      → ((send_from_bytes decode pusher ds).1 ≡ ok tt)
        ⊎ ((send_from_bytes decode pusher ds).1 ≡ err disconnected)
  unfolding send_from_bytes
  send_from_bytes-ends [] ds m h = inl refl
  send_from_bytes-ends (e ∷ es) ds m h =
      let (n, bound, logs, end) = push-delivered (e ∷ es) m in
      elim end [
        | inl (good, _) ↦ inl (rw (h, send_from_bytes) good)
        | inr (bad, _) ↦ inr (rw (h, send_from_bytes) bad)
      ]

  -- No payload is malformed, so only an endpoint whose receiver is gone stops the receiver.
  receive_payloads-ends :
      (outgoing : List (Outgoing D)) (payloads : List (List (List ℕ))) (ps : Pushers local remote)
      → Carries wire decode outgoing payloads
      → ((receive_payloads wire decode (coming payloads) ps).1 ≡ closed)
        ⊎ ((receive_payloads wire decode (coming payloads) ps).1 ≡ failed disconnected)
  unfolding receive_payloads update_pushers from_codec
  receive_payloads-ends [] [] ps c = inl refl
  receive_payloads-ends [] (p ∷ payloads) ps c = absurd c
  receive_payloads-ends (o ∷ outgoing) [] ps c = absurd c
  receive_payloads-ends (o ∷ outgoing) (p ∷ payloads) ps ((ds, from, dec), c) =
      elim (Option-cases (get o.stream_id ps)) [
        | inl k ↦ rw (from, k, receive_payloads) (receive_payloads-ends outgoing payloads ps c)
        | inr (pusher, k) ↦ elim (send_from_bytes-ends pusher ds o.content dec) [
          | inl good ↦
              rw (from, k, good, receive_payloads)
                (receive_payloads-ends outgoing payloads
                  (insert o.stream_id (send_from_bytes decode pusher ds).0 ps) c)
          | inr bad ↦ rw (from, k, bad, receive_payloads) (inr refl)
        ]
      ]

  module _
      (decode-encode_data : (m : Message D) (ds : List ℕ)
        → wire.encode_data m ≡ some ds
        → decode ds ≡ ok m) where
    -- From endpoints of one node to endpoints of another: suppose that payloads are decoded as the
    -- messages that were encoded, that metadata and payload of each message serialize to less than
    -- 2 ^ 32 bytes, and that nothing was on the resource before. If a sender has written all
    -- messages that it was given until its channel closed, and a receiver that gets no new pushers
    -- meanwhile gets what was written, cut into slices in whatever way, then the receiver does not
    -- panic and finds no message malformed: to every endpoint that it knows for a stream it has
    -- delivered the messages sent on the stream, all of them and in their order, and no message of
    -- another stream; or it stopped at an endpoint whose receiver is gone.
    pub receive_payloads-send_over :
        (session : Session) (node_from node_to : ℕ) (outgoing : List (Outgoing D))
        (net net' : Session.Net session) (payloads : List (List (List ℕ)))
        (ps : Pushers local remote) (id : ℕ) (es : List (SendEndpoint local remote))
        → All (IsSmall wire) outgoing
        → session.written net (data_from_to node_from node_to) ≡ []
        → send_over session
            (into_rbuf wire)
            (data_from_to node_from node_to)
            (map to_message outgoing)
            net
          ≡ (net', failed disconnected)
        → map concat payloads ≡ session.written net' (data_from_to node_from node_to)
        → get id ps ≡ some es
        → ((receive_payloads wire decode (coming payloads) ps).1 ≡ failed disconnected)
          ⊎ (((receive_payloads wire decode (coming payloads) ps).1 ≡ closed)
              × (es' : List (SendEndpoint local remote)) × (get id
                    (receive_payloads wire decode (coming payloads) ps).0
                  ≡ some es')
              × (map log es' ≡ extend (sent_on id outgoing) (map log es)))
    receive_payloads-send_over session a b outgoing net net' payloads ps id es small new ran got g =
        let (bufs, enc, wrote) =
          send_over-written session (data_from_to a b) (into_rbuf wire) (map to_message outgoing)
            net net' ran in
        let same : bufs ≡ map concat payloads = cc (wrote, new, got) in
        let c =
          carries wire decode decode-encode_data outgoing payloads small
            (subst (Encodes (into_rbuf wire) (map to_message outgoing)) same enc) in
        elim (receive_payloads-ends outgoing payloads ps c) [
          | inr bad ↦ inl bad
          | inl end ↦
              let (es', g', l) =
                receive_payloads-delivers outgoing payloads ps
                  (receive_payloads wire decode (coming payloads) ps).0 id es c
                  (ap (λ e. ((receive_payloads wire decode (coming payloads) ps).0, e)) end) g in
              inr (end, es', g', l)
        ]
