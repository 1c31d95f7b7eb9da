-- ===== src/ReadStream/Reads.antt =====
-- src/dataflow/stream/internal_read_stream.rs: what the reads of a stream return.
use erdos.Prelude.{
  ℕ, zero, suc, ◌≡◌, ◌↔◌, ◌⊎◌, refl, ap, sym, ◌∙◌, true, false, List, [], ◌∷◌, none, some,
  if◌then◌else◌, inl, inr, Bool-cases, Option-cases, take,
}
use erdos.Message.{Message, is_top_watermark}
use erdos.Communication.{Result, ok, err, TryRecvError}
use erdos.ReadStream.{
  Receiver, InternalReadStream, TryReadError, from_try_recv, try_read, read, received,
}

-- The messages up to the first top watermark, and it.
abbrev pub until_top : {D : Type 0} → List (Message D) → List (Message D)
until_top [] = []
until_top (m ∷ ms) = let rest = until_top ms in if is_top_watermark m then m ∷ [] else m ∷ rest

module _ {D : Type 0} (R : Receiver (Message D)) where
  -- The messages that `n` calls of `try_read` return, errors passed over.
  unfoldable pub read_many : ℕ → InternalReadStream R → List (Message D)
  read_many zero s = []
  read_many (suc n) s =
      let rest = read_many n (try_read R s).1 in
      elim (try_read R s).0 [ ok msg ↦ msg ∷ rest | err e ↦ rest ]

  -- What is still to be read.
  abbrev pub pending : InternalReadStream R → List (Message D)
  pending s =
      if s.closed
      then []
      else elim s.recv_endpoint [ none ↦ [] | some rx ↦ until_top (R.queued rx) ]

  -- A read fails and leaves the stream as it is, or returns the next message.
  abbrev Fails : InternalReadStream R → Type 0
  Fails s = (pending s ≡ []) × ((e : TryReadError) × (try_read R s ≡ (err e, s)))

  abbrev Returns : InternalReadStream R → Type 0
  Returns s =
      (m : Message D) × (s' : InternalReadStream R) × (try_read R s ≡ (ok m, s'))
      × (pending s ≡ m ∷ pending s')

  read_open :
      (s : InternalReadStream R) (rx : Receiver.Rx R) (q : List (Message D))
      → s.closed ≡ false
      → s.recv_endpoint ≡ some rx
      → R.queued rx ≡ q
      → Fails s ⊎ Returns s
  unfolding try_read received
  read_open s rx [] c e q = inl (
    rw (pending, c, e, q) refl,
    (
      from_try_recv (if R.is_open rx then TryRecvError.empty else TryRecvError.disconnected),
      simp (try_read, c, e, R.try_recv-none rx q),
    ),
  )
  read_open s rx (m ∷ ms) c e q =
      let (rx', got, left, same) = R.try_recv-next rx m ms q in
      elim (Bool-cases (is_top_watermark m)) [
        | inl top ↦ inr (
          m,
          record s { closed = true; recv_endpoint = none },
          simp (try_read, c, e, got, received, top),
          rw (pending, c, e, q, until_top, top) refl,
        )
        | inr other ↦ inr (
          m,
          record s { recv_endpoint = some rx' },
          simp (try_read, c, e, got, received, other),
          rw (pending, c, e, q, until_top, other, left) refl,
        )
      ]

  read-cases : (s : InternalReadStream R) → Fails s ⊎ Returns s
  unfolding try_read
  read-cases s = elim (Bool-cases s.closed) [
    | inl c ↦ inl (rw (pending, c) refl, (TryReadError.closed, rw (try_read, c) refl))
    | inr c ↦ elim (Option-cases s.recv_endpoint) [
      | inl e ↦ inl (rw (pending, c, e) refl, (TryReadError.disconnected, simp (try_read, c, e)))
      | inr (rx, e) ↦ read_open s rx (R.queued rx) c e refl
    ]
  ]

  -- What the calls return when the first one has returned `p`.
  abbrev after : ℕ → Result (Message D) TryReadError × InternalReadStream R → List (Message D)
  after n p = let rest = read_many n p.1 in elim p.0 [ ok msg ↦ msg ∷ rest | err e ↦ rest ]

  read_many-nothing : (n : ℕ) (s : InternalReadStream R) → Fails s → read_many n s ≡ []
  unfolding read_many
  read_many-nothing zero s f = refl
  read_many-nothing (suc n) s f =
      let (e, fails) = f.1 in ap (after n) fails ∙ read_many-nothing n s f

  -- However often a stream is read, the messages that it returns are those that wait in its
  -- channel, in their order, up to the first top watermark and with it: none is lost, and none
  -- is returned after it.
  pub read_many-pending : (n : ℕ) (s : InternalReadStream R) → read_many n s ≡ take n (pending s)
  unfolding read_many
  read_many-pending zero s = refl
  read_many-pending (suc n) s = elim (read-cases s) [
    | inl f ↦ read_many-nothing (suc n) s f ∙ rw (f.0) refl
    | inr (m, s', got, next) ↦
        ap (after n) got
        ∙ (ap (λ ms. m ∷ ms) (read_many-pending n s') ∙ ap (take (suc n)) (sym next))
  ]

  -- The stream is open, and its channel is empty and has a sender.
  abbrev pub Waits : InternalReadStream R → Type 0
  Waits s =
      (s.closed ≡ false)
      × ((rx : Receiver.Rx R) × (s.recv_endpoint ≡ some rx)
          × (R.queued rx ≡ [])
          × (R.is_open rx ≡ true))

  read-open :
      (s : InternalReadStream R) (rx : Receiver.Rx R) (q : List (Message D))
      → s.closed ≡ false
      → s.recv_endpoint ≡ some rx
      → R.queued rx ≡ q
      → read R s ≡ none
      → Waits s
  unfolding read
  read-open s rx [] c e q h = elim (Bool-cases (R.is_open rx)) [
    | inl opened ↦ (c, (rx, e, q, opened))
    | inr gone ↦
        let fails = rw gone at (R.try_recv-none rx q) in absurd (cc (simp (read, c, e, fails) at h))
  ]
  read-open s rx (m ∷ ms) c e q h =
      let (rx', got, left, same) = R.try_recv-next rx m ms q in
      absurd (cc (simp (read, c, e, got) at h))

  waits :
      (s : InternalReadStream R) (rx : Receiver.Rx R)
      → s.closed ≡ false
      → s.recv_endpoint ≡ some rx
      → R.queued rx ≡ []
      → R.is_open rx ≡ true
      → read R s ≡ none
  unfolding read
  waits s rx c e q opened =
      let fails = rw opened at (R.try_recv-none rx q) in simp (read, c, e, fails)

  -- A blocking read goes on waiting if and only if the stream is not closed and its channel is
  -- empty and may still get a message: a closed stream, a stream with no endpoint, a message that
  -- is there and a channel with no sender all end it.
  pub read-waits :
      (s : InternalReadStream R)
      → (read R s ≡ none) ↔ (
          (s.closed ≡ false)
          × ((rx : Receiver.Rx R) × (s.recv_endpoint ≡ some rx)
              × (R.queued rx ≡ [])
              × (R.is_open rx ≡ true)))
  unfolding read
  read-waits s = (
    (λ h. elim (Bool-cases s.closed) [
      | inl c ↦ absurd (cc (rw (read, c) at h))
      | inr c ↦ elim (Option-cases s.recv_endpoint) [
        | inl e ↦ absurd (cc (simp (read, c, e) at h))
        | inr (rx, e) ↦ read-open s rx (R.queued rx) c e refl h
      ]
    ]),
    (λ (c, (rx, e, q, opened)). waits s rx c e q opened),
  )
