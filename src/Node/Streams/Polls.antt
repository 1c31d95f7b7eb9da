-- ===== src/Node/Streams/Polls.antt =====
-- src/node/operator_executor.rs: the stream of events gives those of the messages that reading the
-- stream would return.
use erdos.Prelude.{
  ℕ, zero, suc, ◌≡◌, ◌⊎◌, refl, sym, ap, ◌∙◌, inl, inr, false, List, [], ◌∷◌, Option, none, some,
  if◌then◌else◌, map, take, Bool-cases, Option-cases,
}
use mathlib.Core.Path.{subst₂}
use erdos.Message.{Message, is_top_watermark}
use erdos.ReadStream.{Receiver, InternalReadStream}
use erdos.ReadStream.Reads.{until_top, read_many, read_many-pending}
use erdos.Node.Streams.{
  Poll, ready, pending, OperatorExecutorStream, new, with_endpoint, poll_received, poll_endpoint,
  poll_next,
}

module _ {D : Type 0} (R : Receiver (Message D)) {E : Type 0} (make_events : Message D → E) where
  -- The events that `n` polls give.
  unfoldable pub poll_many : ℕ → OperatorExecutorStream R → List E
  poll_many zero s = []
  poll_many (suc n) s =
      let rest = poll_many n (poll_next R make_events s).1 in
      elim (poll_next R make_events s).0 [
        | ready (some events) ↦ events ∷ rest
        | ready none ↦ rest
        | pending ↦ rest
      ]

  -- What is still to come from an endpoint, and from the stream.
  abbrev from_endpoint : Option (Receiver.Rx R) → List (Message D)
  from_endpoint none = []
  from_endpoint (some rx) = until_top (R.queued rx)

  abbrev left : OperatorExecutorStream R → List (Message D)
  left s = if s.closed then [] else elim s.recv_endpoint [
    | some rx ↦ until_top (R.queued rx)
    | none ↦ from_endpoint s.stream.recv_endpoint
  ]

  -- A poll gives nothing and nothing is left, before it and after it, or it gives the events of the
  -- next message.
  abbrev Outcome : List (Message D) → Poll (Option E) × OperatorExecutorStream R → Type 0
  Outcome ms p =
      ((ms ≡ []) × ((p.0 ≡ ready none) ⊎ (p.0 ≡ pending)) × (left p.1 ≡ []))
      ⊎ ((m : Message D) × (p.0 ≡ ready (some (make_events m))) × (ms ≡ m ∷ left p.1))

  at_endpoint :
      (t : OperatorExecutorStream R) (rx : Receiver.Rx R) (q : List (Message D))
      → t.closed ≡ false
      → t.recv_endpoint ≡ some rx
      → R.queued rx ≡ q
      → Outcome (until_top q) (poll_endpoint R make_events t)
  unfolding poll_endpoint poll_received
  at_endpoint t rx [] c e q = elim (Bool-cases (R.is_open rx)) [
    | inl o ↦
        let fails = rw o at (R.try_recv-none rx q) in
        let is : poll_endpoint R make_events t ≡ (pending, t) = simp (poll_endpoint, e, fails) in
        inl (refl, inr (ap (λ p. p.0) is), ap (λ p. left p.1) is ∙ rw (left, c, e, q) refl)
    | inr o ↦
        let fails = rw o at (R.try_recv-none rx q) in
        let is : poll_endpoint R make_events t ≡ (ready none, t) = simp (poll_endpoint, e, fails) in
        inl (refl, inl (ap (λ p. p.0) is), ap (λ p. left p.1) is ∙ rw (left, c, e, q) refl)
  ]
  at_endpoint t rx (m ∷ ms) c e q =
      let (rx', got, next, same) = R.try_recv-next rx m ms q in
      let is : poll_endpoint R make_events t
          ≡ (ready (some (make_events m)), poll_received R t m rx') =
        simp (poll_endpoint, e, got) in
      elim (Bool-cases (is_top_watermark m)) [
        | inl top ↦ inr (
          m,
          ap (λ p. p.0) is,
          sym (ap (λ p. m ∷ left p.1) is ∙ simp (left, poll_received, top, until_top)),
        )
        | inr other ↦ inr (
          m,
          ap (λ p. p.0) is,
          sym (ap (λ p. m ∷ left p.1) is ∙ simp (left, poll_received, other, until_top, c, next)),
        )
      ]

  -- The stream with the endpoint of its read stream.
  abbrev taken : OperatorExecutorStream R → OperatorExecutorStream R
  taken s = record s {
    stream = record s.stream { recv_endpoint = none };
    recv_endpoint = s.stream.recv_endpoint;
  }

  open_poll :
      (s : OperatorExecutorStream R)
      → s.closed ≡ false
      → poll_next R make_events s ≡ poll_endpoint R make_events (with_endpoint R s)
  unfolding poll_next
  open_poll s c = rw (poll_next, c) refl

  poll_nothing :
      (t : OperatorExecutorStream R)
      → t.recv_endpoint ≡ none
      → poll_endpoint R make_events t ≡ (ready none, t)
  unfolding poll_endpoint
  poll_nothing t e = simp (poll_endpoint, e)

  with_taken : (s : OperatorExecutorStream R) → s.recv_endpoint ≡ none → with_endpoint R s ≡ taken s
  unfolding with_endpoint
  with_taken s e = rw (with_endpoint, e) refl

  poll-cases : (s : OperatorExecutorStream R) → Outcome (left s) (poll_next R make_events s)
  unfolding poll_next with_endpoint poll_endpoint
  poll-cases s = elim (Bool-cases s.closed) [
    | inl c ↦
        let is : poll_next R make_events s ≡ (ready none, s) = rw (poll_next, c) refl in
        inl (rw (left, c) refl, inl (ap (λ p. p.0) is), ap (λ p. left p.1) is ∙ rw (left, c) refl)
    | inr c ↦ elim (Option-cases s.recv_endpoint) [
      | inr (rx, e) ↦
          let here : until_top (R.queued rx) ≡ left s = simp (left, c, e) in
          let is : poll_endpoint R make_events s ≡ poll_next R make_events s =
            simp (poll_next, c, with_endpoint, e) in
          subst₂ Outcome here is (at_endpoint s rx (R.queued rx) c e refl)
      | inl e ↦ elim (Option-cases s.stream.recv_endpoint) [
        | inl none_there ↦
            let is : poll_next R make_events s ≡ (ready none, taken s) =
              open_poll s c
              ∙ ap (poll_endpoint R make_events) (with_taken s e)
              ∙ poll_nothing (taken s) none_there in
            inl (
              simp (left, c, e, none_there),
              inl (ap (λ p. p.0) is),
              ap (λ p. left p.1) is ∙ simp (left, c, none_there),
            )
        | inr (rx, there) ↦
            let here : until_top (R.queued rx) ≡ left s = simp (left, c, e, there) in
            let is : poll_endpoint R make_events (taken s) ≡ poll_next R make_events s =
              sym (open_poll s c ∙ ap (poll_endpoint R make_events) (with_taken s e)) in
            subst₂ Outcome here is (at_endpoint (taken s) rx (R.queued rx) c there refl)
      ]
    ]
  ]

  nothing : (n : ℕ) → map make_events (take n []) ≡ []
  nothing zero = refl
  nothing (suc n) = refl

  poll_many-left :
      (n : ℕ) (s : OperatorExecutorStream R) → poll_many n s ≡ map make_events (take n (left s))
  unfolding poll_many
  poll_many-left zero s = refl
  poll_many-left (suc n) s = elim (poll-cases s) [
    | inl (e, inl r, l) ↦
        rw (poll_many, r, e) (poll_many-left n (poll_next R make_events s).1 ∙ rw l (nothing n))
    | inl (e, inr r, l) ↦
        rw (poll_many, r, e) (poll_many-left n (poll_next R make_events s).1 ∙ rw l (nothing n))
    | inr (m, r, l) ↦
        rw (poll_many, r, l)
          (ap (λ es. make_events m ∷ es) (poll_many-left n (poll_next R make_events s).1))
  ]

  -- However often the executor polls, it gets the events of exactly the messages that as many reads
  -- of the stream return, in their order.
  pub poll_many-read_many :
      (n : ℕ) (s : InternalReadStream R) → poll_many n (new R s) ≡ map make_events (read_many R n s)
  poll_many-read_many n s =
      poll_many-left n (new R s) ∙ ap (map make_events) (sym (read_many-pending R n s))
