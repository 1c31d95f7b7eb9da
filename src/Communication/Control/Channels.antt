-- ===== src/Communication/Control/Channels.antt =====
-- Which channels of src/communication/control_message_handler.rs a message reaches.
use erdos.Prelude.{
  ℕ, ◌≡◌, refl, ◌⊎◌, inl, inr, Bool-cases, Option-cases, List, [], ◌∷◌, ◌++◌, Option, none, some,
  arith, if◌then◌else◌, ◌==◌,
}
use erdos.Communication.{Mpsc, disconnected, ok, err}
use erdos.Communication.Control.{ControlMessage, Channels, send_to}

module _ (mpsc : Mpsc ControlMessage) where
  -- What the channel to a node has accepted.
  abbrev pub log : Channels mpsc → ℕ → Option (List ControlMessage)
  log [] k = none
  log ((node_id, tx) ∷ m) k =
      let rest = log m k in if node_id == k then some (mpsc.sent tx) else rest

  abbrev pub add_to : ControlMessage → Option (List ControlMessage) → Option (List ControlMessage)
  add_to msg none = none
  add_to msg (some ms) = some (ms ++ (msg ∷ []))

  -- Sending to a node fails with `Disconnected`, or the node has a channel, the message is put at
  -- the end of it, and every other channel is left as it was.
  pub send_to-log :
      (m : Channels mpsc) (id : ℕ) (msg : ControlMessage)
      → ((send_to mpsc m id msg ≡ err disconnected))
        ⊎ ((m' : Channels mpsc) × (send_to mpsc m id msg ≡ ok m')
            × ((k : ℕ) → log m' k ≡ (if id == k then add_to msg (log m k) else log m k))
            × ((ms : List ControlMessage) × (log m id ≡ some ms)))
  unfolding send_to
  send_to-log [] id msg = inl refl
  send_to-log ((node_id, tx) ∷ m) id msg = elim (Bool-cases (node_id == id)) [
    | inl e ↦ elim (Option-cases (mpsc.send tx msg)) [
      | inl s ↦ inl (ground (arith, e, s))
      | inr (tx', s) ↦ inr (
        (node_id, tx') ∷ m,
        ground (arith, e, s),
        λ k. let a = mpsc.sent-send tx tx' msg s in ground (arith, a, e),
        (mpsc.sent tx, ground (arith, e)),
      )
    ]
    | inr e ↦ elim (send_to-log m id msg) [
      | inl s ↦ inl (ground (arith, e, s))
      | inr (m', s, l, there) ↦ inr (
        (node_id, tx) ∷ m',
        ground (arith, e, s),
        λ k. let lk = l k in ground (arith, lk, e),
        (there.0, ground (arith, e, there.1)),
      )
    ]
  ]
