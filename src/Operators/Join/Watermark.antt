-- ===== src/Operators/Join/Watermark.antt =====
-- src/dataflow/operators/join_operator.rs: when the watermark callback panics, and what it does
-- when it does not.
use erdos.Prelude.{◌≡◌, ◌↔◌, ◌⊎◌, refl, List, none, some, inl, inr, Option-cases}
use erdos.Message.{Message, Timestamp, new_message}
use erdos.Communication.{Result, ok, err, Mpsc}
use erdos.Communication.Endpoint.{Outgoing}
use erdos.WriteStream.{WriteStream, WriteStreamError, send}
use erdos.Operators.Join.{StreamState, on_watermark_callback, get_state}
use erdos.Operators.Join.Clean.{Reachable, clean_state-cleans, IsCleaned}

Result-cases : {E : Type 0} (r : Result (Unit {0}) E) → (r ≡ ok tt) ⊎ ((e : E) × (r ≡ err e))
Result-cases (ok tt) = inl refl
Result-cases (err e) = inr (e, refl)

module _ {D1 D2 D3 : Type 0} {local : Mpsc (Message D3)} {remote : Mpsc (Outgoing D3)}
    (f : List D1 → List D2 → D3) (t : Timestamp) (ws : WriteStream local remote) where
  -- The send of what two lists of messages join to.
  abbrev pub sends :
      List D1 → List D2 → WriteStream local remote × Result (Unit {0}) WriteStreamError
  sends a b = send ws (new_message t (f a b))

  module _ (l : StreamState D1) (r : StreamState D2) where
    -- With messages of the timestamp on both sides and a stream that takes the result, the
    -- messages are joined in the order of their arrival, the result is sent at the timestamp, and
    -- both sides lose what is up to the timestamp and nothing else.
    pub on_watermark_callback-joins :
        (a : List D1) (b : List D2)
        → Reachable l
        → Reachable r
        → get_state t l ≡ some a
        → get_state t r ≡ some b
        → (sends a b).1 ≡ ok tt
        → (l' : StreamState D1) × (r' : StreamState D2) × (on_watermark_callback f t l r ws
            ≡ some (l', r', (sends a b).0))
          × IsCleaned t l l'
          × IsCleaned t r r'
    unfolding on_watermark_callback
    on_watermark_callback-joins a b rl rr hl hr sent =
        let (l', el, cl) = clean_state-cleans t rl in
        let (r', er, cr) = clean_state-cleans t rr in
        (l', r', rw (on_watermark_callback, hl, hr, sent, el, er) refl, cl, cr)

    panics :
        Reachable l
        → Reachable r
        → on_watermark_callback f t l r ws ≡ none
        → (get_state t l ≡ none)
          ⊎ (get_state t r ≡ none)
          ⊎ ((a : List D1) × (b : List D2) × (e : WriteStreamError) × (get_state t l ≡ some a)
              × (get_state t r ≡ some b)
              × ((sends a b).1 ≡ err e))
    panics rl rr h = elim (Option-cases (get_state t l)) [
      | inl no_left ↦ inl no_left
      | inr (a, hl) ↦ elim (Option-cases (get_state t r)) [
        | inl no_right ↦ inr (inl no_right)
        | inr (b, hr) ↦ elim (Result-cases (sends a b).1) [
          | inr (e, refused) ↦ inr (inr (a, b, e, hl, hr, refused))
          | inl sent ↦
              let (l', r', e, _, _) = on_watermark_callback-joins a b rl rr hl hr sent in
              absurd (cc (e, h))
        ]
      ]
    ]

    failing :
        (get_state t l ≡ none)
          ⊎ (get_state t r ≡ none)
          ⊎ ((a : List D1) × (b : List D2) × (e : WriteStreamError) × (get_state t l ≡ some a)
              × (get_state t r ≡ some b)
              × ((sends a b).1 ≡ err e))
        → on_watermark_callback f t l r ws ≡ none
    unfolding on_watermark_callback
    failing (inl no_left) = rw (on_watermark_callback, no_left) refl
    failing (inr (inl no_right)) = elim (Option-cases (get_state t l)) [
      | inl no_left ↦ rw (on_watermark_callback, no_left) refl
      | inr (a, hl) ↦ rw (on_watermark_callback, hl, no_right) refl
    ]
    failing (inr (inr (a, b, e, hl, hr, refused))) =
        rw (on_watermark_callback, hl, hr, refused) refl

    -- The callback panics in exactly three cases: a side has no message of the timestamp, as at
    -- the top watermark that closes a stream; or the stream refuses the result.
    pub on_watermark_callback-panics :
        Reachable l
        → Reachable r
        → (on_watermark_callback f t l r ws ≡ none) ↔ (
            (get_state t l ≡ none)
            ⊎ (get_state t r ≡ none)
            ⊎ ((a : List D1) × (b : List D2) × (e : WriteStreamError) × (get_state t l ≡ some a)
                × (get_state t r ≡ some b)
                × ((sends a b).1 ≡ err e)))
    on_watermark_callback-panics rl rr = (panics rl rr, failing)
