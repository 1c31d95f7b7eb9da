-- ===== src/WriteStream/Ingest.antt =====
-- src/dataflow/stream/ingest_stream.rs: `IngestStream`, whose write stream a setup hook makes
-- when the driver is set up. The channel manager enters by what `get_send_endpoints` returns.
use erdos.Prelude.{
  ℕ, ◌≡◌, ap, sym, ◌∙◌, Bool, true, not, List, Option, none, some, if◌then◌else◌, Bool-cases,
  Option-cases, inl, inr,
}
use erdos.Message.{Message}
use erdos.Communication.{Result, ok, err, Mpsc}
use erdos.Communication.Endpoint.{SendEndpoint, Outgoing}
use erdos.WriteStream.{WriteStream, WriteStreamError, closed, send, from_endpoints}

module _ {D : Type 0} (local : Mpsc (Message D)) (remote : Mpsc (Outgoing D)) where
  pub record IngestStream : Type 0 where
    pub id : ℕ
    pub node_id : ℕ
    pub write_stream_option : Option (WriteStream local remote)

module _ {D : Type 0} {local : Mpsc (Message D)} {remote : Mpsc (Outgoing D)} where
  abbrev pub new : ℕ → ℕ → IngestStream local remote
  new id node_id = record { id = id; node_id = node_id; write_stream_option = none }

  -- The setup hook; `None` is its panic.
  unfoldable pub set_up :
      {E : Type 0}
      → IngestStream local remote
      → Result (List (SendEndpoint local remote)) E
      → Option (IngestStream local remote)
  set_up s (err e) = none
  set_up s (ok send_endpoints) = elim (from_endpoints send_endpoints s.id) [
    | none ↦ none
    | some write_stream ↦ some (record s { write_stream_option = some write_stream })
  ]

  unfoldable pub is_closed : IngestStream local remote → Bool
  is_closed s = elim s.write_stream_option [ none ↦ true | some ws ↦ ws.stream_closed ]

  -- `None` is a round of the loop that finds no write stream and sleeps.
  unfoldable pub send_ingested :
      IngestStream local remote
      → Message D
      → Option (IngestStream local remote × Result (Unit {0}) WriteStreamError)
  send_ingested s msg =
      if not (is_closed s)
      then elim s.write_stream_option [
        | none ↦ none
        | some write_stream ↦
            let (ws, res) = send write_stream msg in
            some (record s { write_stream_option = some ws }, res)
      ]
      else some (s, err closed)

  -- What `send` does: the write stream's send, or an error while there is no write stream.
  abbrev pub sent_by :
      IngestStream local remote
      → Message D
      → Option (WriteStream local remote)
      → IngestStream local remote × Result (Unit {0}) WriteStreamError
  sent_by s msg none = (s, err closed)
  sent_by s msg (some ws) =
      (record s { write_stream_option = some (send ws msg).0 }, (send ws msg).1)

  -- `send` never sleeps: before the driver is set up it returns `Closed` and changes nothing, and
  -- afterwards it does what the send of the write stream does.
  pub send_ingested-sent_by :
      (s : IngestStream local remote) (msg : Message D)
      → send_ingested s msg ≡ some (sent_by s msg s.write_stream_option)
  unfolding send_ingested is_closed send
  send_ingested-sent_by s msg = elim (Option-cases s.write_stream_option) [
    | inl e ↦ simp (send_ingested, is_closed, e)
    | inr (ws, e) ↦ elim (Bool-cases ws.stream_closed) [
      | inl c ↦
          let shut : send ws msg ≡ (ws, err closed) = simp (send, c) in
          let unchanged : send_ingested s msg ≡ some (s, err closed) =
            simp (send_ingested, is_closed, e, c) in
          let put =
            λ (o : Option (WriteStream local remote)). record s { write_stream_option = o } in
          unchanged
          ∙ ap some (
              ap (λ o. (put o, err closed)) e
              ∙ (ap (λ p. (put (some p.0), p.1)) (sym shut) ∙ ap (sent_by s msg) (sym e)))
      | inr o ↦ simp (send_ingested, is_closed, e, o)
    ]
  ]
