-- ===== src/ReadStream/Extract.antt =====
-- src/dataflow/stream/extract_stream.rs: `ExtractStream`, which makes its read stream when it is
-- first read. The channel manager enters by `take`, what `take_recv_endpoint` on it does:
-- `None` before the driver is set up. A stream's name is left out.
use erdos.Prelude.{
  ℕ, ◌≡◌, refl, ap, ◌∙◌, Bool, true, false, Option, none, some, Bool-cases, Option-cases, inl, inr,
}
use erdos.Message.{Message}
use erdos.Communication.{Result, ok, err, TryRecvError}
use erdos.ReadStream.{
  Receiver, InternalReadStream, ReadError, TryReadError, from_endpoint, try_read, read,
}

module _ {D : Type 0} (R : Receiver (Message D)) (E : Type 0) where
  -- `M` is the channel manager.
  pub record ExtractStream (M : Type 0) : Type 0 where
    pub id : ℕ
    pub node_id : ℕ
    pub read_stream_option : Option (InternalReadStream R)
    pub channel_manager_option : Option M

module _ {D E M : Type 0} (R : Receiver (Message D))
    (take_recv_endpoint : M → ℕ → Result (Receiver.Rx R × M) E) where
  abbrev pub new : ℕ → ℕ → ExtractStream R E M
  new id node_id = record {
    id = id;
    node_id = node_id;
    read_stream_option = none;
    channel_manager_option = none;
  }

  -- The setup hook.
  abbrev pub set_up : ExtractStream R E M → M → ExtractStream R E M
  set_up s manager = record s { channel_manager_option = some manager }

  abbrev pub is_closed : ExtractStream R E M → Bool
  is_closed s = elim s.read_stream_option [ none ↦ true | some read_stream ↦ read_stream.closed ]

  -- `try_read`: on the read stream, or on one made of an endpoint of the channel manager.
  unfoldable pub try_read_extracted :
      ExtractStream R E M → Result (Message D) TryReadError × ExtractStream R E M
  try_read_extracted s = elim s.read_stream_option [
    | some read_stream ↦
        let (result, read_stream') = try_read R read_stream in
        (result, record s { read_stream_option = some read_stream' })
    | none ↦ elim s.channel_manager_option [
      | none ↦ (err TryReadError.disconnected, s)
      | some manager ↦ elim (take_recv_endpoint manager s.id) [
        | err e ↦ (err TryReadError.disconnected, s)
        | ok (recv_endpoint, manager') ↦
            let (result, read_stream) = try_read R (from_endpoint R recv_endpoint s.id) in
            (
              result,
              record s {
                read_stream_option = some read_stream;
                channel_manager_option = some manager';
              },
            )
      ]
    ]
  ]

  -- The match of `read` on what `try_read` returned, when there is a read stream: `None` while
  -- the blocking read of it waits.
  unfoldable pub read_result :
      Result (Message D) TryReadError
      → ExtractStream R E M
      → InternalReadStream R
      → Option (Result (Message D) ReadError × ExtractStream R E M)
  read_result (ok msg) s read_stream = some (ok msg, s)
  read_result (err TryReadError.disconnected) s read_stream = some (err ReadError.disconnected, s)
  read_result (err TryReadError.empty) s read_stream = elim (read R read_stream) [
    | none ↦ none
    | some (result, read_stream') ↦
        some (result, record s { read_stream_option = some read_stream' })
  ]
  read_result (err TryReadError.serialization_error) s read_stream =
      some (err ReadError.serialization_error, s)
  read_result (err TryReadError.closed) s read_stream = some (err ReadError.closed, s)

  -- One round of the loop of `read`: `None` when it sleeps or waits and is called again.
  unfoldable pub read_extracted :
      ExtractStream R E M → Option (Result (Message D) ReadError × ExtractStream R E M)
  unfolding read_result
  read_extracted s =
      let (result, s') = try_read_extracted s in
      elim s'.read_stream_option [
        | none ↦ none
        | some read_stream ↦ read_result result s' read_stream
      ]

  -- What a read of the read stream means for the extract stream.
  abbrev with_read_stream :
      ExtractStream R E M
      → Option (Result (Message D) ReadError × InternalReadStream R)
      → Option (Result (Message D) ReadError × ExtractStream R E M)
  with_read_stream s none = none
  with_read_stream s (some (x, r)) = some (x, record s { read_stream_option = some r })

  -- The match of `read` on a result of `try_read`.
  abbrev go_on :
      Result (Message D) TryReadError × ExtractStream R E M
      → Option (Result (Message D) ReadError × ExtractStream R E M)
  go_on p = elim p.1.read_stream_option [
    | none ↦ none
    | some read_stream ↦ read_result p.0 p.1 read_stream
  ]

  abbrev put : ExtractStream R E M → InternalReadStream R → ExtractStream R E M
  put s r = record s { read_stream_option = some r }

  try_read_extracted-read :
      (s : ExtractStream R E M) (r : InternalReadStream R)
      → s.read_stream_option ≡ some r
      → try_read_extracted s ≡ ((try_read R r).0, put s (try_read R r).1)
  unfolding try_read_extracted
  try_read_extracted-read s r h = simp (try_read_extracted, h)

  received_by :
      (s : ExtractStream R E M) (r : InternalReadStream R) (rx : Receiver.Rx R)
      (x : Result (Message D × Receiver.Rx R) TryRecvError)
      → r.closed ≡ false
      → r.recv_endpoint ≡ some rx
      → R.try_recv rx ≡ x
      → read_result (try_read R r).0 (put s (try_read R r).1) (try_read R r).1
        ≡ with_read_stream s (read R r)
  unfolding try_read read read_result
  received_by s r rx (ok (m, rx')) c e q = simp (try_read, read, c, e, q)
  received_by s r rx (err TryRecvError.empty) c e q =
      let waits : read R r ≡ none = simp (read, c, e, q) in
      let nothing : try_read R r ≡ (err TryReadError.empty, r) = simp (try_read, c, e, q) in
      ap (λ p. read_result p.0 (put s p.1) p.1) nothing ∙ rw (waits, read_result) refl
  received_by s r rx (err TryRecvError.disconnected) c e q = simp (try_read, read, c, e, q)
  received_by s r rx (err TryRecvError.bincode_error) c e q = simp (try_read, read, c, e, q)

  read_result-read :
      (s : ExtractStream R E M) (r : InternalReadStream R)
      → read_result (try_read R r).0 (put s (try_read R r).1) (try_read R r).1
        ≡ with_read_stream s (read R r)
  unfolding try_read read read_result
  read_result-read s r = elim (Bool-cases r.closed) [
    | inl c ↦ simp (try_read, read, c)
    | inr c ↦ elim (Option-cases r.recv_endpoint) [
      | inl e ↦ simp (try_read, read, c, e)
      | inr (rx, e) ↦ received_by s r rx (R.try_recv rx) c e refl
    ]
  ]

  -- Once its read stream is there an extract stream reads exactly as that does, errors and waits
  -- included, and keeps all else.
  pub read_extracted-read :
      (s : ExtractStream R E M) (r : InternalReadStream R)
      → s.read_stream_option ≡ some r
      → read_extracted s ≡ with_read_stream s (read R r)
  unfolding read_extracted
  read_extracted-read s r h = ap go_on (try_read_extracted-read s r h) ∙ read_result-read s r
