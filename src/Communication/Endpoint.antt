-- ===== src/Communication/Endpoint.antt =====
-- src/communication/endpoints.rs and src/communication/pusher.rs: what a message is sent on.
use erdos.Prelude.{
  ℕ, zero, suc, ◌≤◌, ◌<◌, ◌≡◌, refl, List, [], ◌∷◌, ◌++◌, Option, none, some, arith, Option-cases,
  inl, inr, ◌⊎◌, map, length,
}
use mathlib.Core.List.{map-append}
use mathlib.Core.Path.{ap₂}
use erdos.Message.{Message}
use erdos.Communication.{CommunicationError, disconnected, Result, ok, err, Mpsc}

-- `InterProcessMessage::Deserialized`: the message, and the stream that it travels on.
pub record Outgoing (D : Type 0) : Type 0 where
  pub stream_id : ℕ
  pub content : Message D

module _ {D : Type 0} (local : Mpsc (Message D)) (remote : Mpsc (Outgoing D)) where
  pub data SendEndpoint : Type 0 where
    inter_thread : Mpsc.Tx local → SendEndpoint
    inter_process : ℕ → Mpsc.Tx remote → SendEndpoint

-- The logs of the first `n` endpoints, each with `msg` at its end.
abbrev pub delivered :
    {D : Type 0} → ℕ → Message D → List (List (Message D)) → List (List (Message D))
delivered zero msg ls = ls
delivered (suc n) msg [] = []
delivered (suc n) msg (l ∷ ls) = (l ++ msg ∷ []) ∷ delivered n msg ls

module _ {D : Type 0} {local : Mpsc (Message D)} {remote : Mpsc (Outgoing D)} where
  -- `SendError` becomes `Disconnected`.
  abbrev or_disconnected :
      {T : Type 0}
      → (T → SendEndpoint local remote)
      → Option T
      → Result (SendEndpoint local remote) CommunicationError
  or_disconnected f none = err disconnected
  or_disconnected f (some t) = ok (f t)

  -- `SendEndpoint::send`, which returns the endpoint as it is after the call.
  unfoldable pub send :
      SendEndpoint local remote → Message D → Result (SendEndpoint local remote) CommunicationError
  send (inter_thread tx) msg = or_disconnected inter_thread (local.send tx msg)
  send (inter_process stream_id tx) msg =
      or_disconnected (inter_process stream_id)
        (remote.send tx (record { stream_id = stream_id; content = msg }))

  -- The loop of `Pusher::send`: it stops at the first endpoint that fails.
  unfoldable pub push :
      List (SendEndpoint local remote)
      → Message D
      → List (SendEndpoint local remote) × Result (Unit {0}) CommunicationError
  push [] msg = ([], ok tt)
  push (e ∷ es) msg =
      let rest = push es msg in
      elim (send e msg) [ ok e' ↦ (e' ∷ rest.0, rest.1) | err x ↦ (e ∷ es, err x) ]

  -- The messages that an endpoint's channel has accepted.
  abbrev pub log : SendEndpoint local remote → List (Message D)
  log (inter_thread tx) = local.sent tx
  log (inter_process stream_id tx) = map (λ o. o.content) (remote.sent tx)

  -- A send is accepted at the end of the channel, or fails because the receiver is gone.
  pub log-send :
      (e : SendEndpoint local remote) (msg : Message D)
      → ((e' : SendEndpoint local remote) × (send e msg ≡ ok e') × (log e' ≡ log e ++ msg ∷ []))
        ⊎ (send e msg ≡ err disconnected)
  unfolding send
  log-send (inter_thread tx) msg = elim (Option-cases (local.send tx msg)) [
    | inl e ↦ inr (rw e refl)
    | inr (tx', e) ↦ inl (inter_thread tx', rw e refl, local.sent-send tx tx' msg e)
  ]
  log-send (inter_process i tx) msg =
      let out : Outgoing D = record { stream_id = i; content = msg } in
      elim (Option-cases (remote.send tx out)) [
        | inl e ↦ inr (rw e refl)
        | inr (tx', e) ↦ inl (
          inter_process i tx',
          rw e refl,
          rw (remote.sent-send tx tx' out e)
              (map-append (λ (o : Outgoing D). o.content) (remote.sent tx) (out ∷ [])),
        )
      ]

  module _ (e : SendEndpoint local remote) (es : List (SendEndpoint local remote))
      (msg : Message D) where
    push_ok :
        (e' : SendEndpoint local remote)
        → send e msg ≡ ok e'
        → push (e ∷ es) msg ≡ (e' ∷ (push es msg).0, (push es msg).1)
    unfolding push
    push_ok e' s = rw (s, push) refl

    push_err : send e msg ≡ err disconnected → push (e ∷ es) msg ≡ (e ∷ es, err disconnected)
    unfolding push
    push_err s = rw (s, push) refl

  -- `push` reaches a prefix of the endpoints: all of them exactly when it succeeds.
  pub push-delivered :
      (es : List (SendEndpoint local remote)) (msg : Message D)
      → (n : ℕ) × (n ≤ length es)
        × (map log (push es msg).0 ≡ delivered n msg (map log es))
        × (((push es msg).1 ≡ ok tt) × (n ≡ length es)
            ⊎ ((push es msg).1 ≡ err disconnected) × (n < length es))
  push-delivered [] msg = unfold push in (0, omega arith, refl, inl (refl, refl))
  push-delivered (e ∷ es) msg =
      let (n, bound, logs, end) = push-delivered es msg in
      elim (log-send e msg) [
        | inl (e', s, l) ↦ (
          suc n,
          omega (arith, bound),
          rw (push_ok e es msg e' s) (ap₂ ◌∷◌ l logs),
          rw (push_ok e es msg e' s) (ground (arith, end)),
        )
        | inr s ↦ (
          0,
          omega arith,
          rw (push_err e es msg s) refl,
          rw (push_err e es msg s) (inr (refl, omega arith)),
        )
      ]
