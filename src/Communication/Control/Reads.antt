-- ===== src/Communication/Control/Reads.antt =====
-- The waits of src/communication/control_message_handler.rs.
use erdos.Prelude.{
  ℕ, ◌≡◌, refl, ap, ◌∙◌, ◌⊎◌, inl, inr, Bool, true, false, Bool-cases, List, [], ◌∷◌, ◌++◌,
  append_assoc, append-nil, none, some, All, arith,
}
use erdos.Communication.{Mpsc}
use erdos.Communication.Control.{
  ControlMessage, all_operators_initialized_on_node, node_of, is_all_initialized,
  is_sender_or_receiver, read_loop, ControlMessageHandler,
  read_all_operators_initialized_on_node_msg, read_sender_or_receiver_initialized,
}

-- The messages before the first one that is asked for, it, and those after it.
abbrev pub Found :
    (ControlMessage → Bool)
    → List ControlMessage
    → List ControlMessage
    → ControlMessage
    → List ControlMessage
    → Type 0
Found wanted queue before msg after =
    (queue ≡ before ++ (msg ∷ after)) × (wanted msg ≡ true) × All (λ m. wanted m ≡ false) before

read_loop_lem :
    (wanted : ControlMessage → Bool) (queue read_msgs : List ControlMessage)
    → ((read_loop wanted queue read_msgs ≡ none) × All (λ m. wanted m ≡ false) queue)
      ⊎ ((before : List ControlMessage) × (msg : ControlMessage) × (after : List ControlMessage)
          × (read_loop wanted queue read_msgs ≡ some (msg, after ++ (read_msgs ++ before)))
          × Found wanted queue before msg after)
unfolding read_loop
read_loop_lem wanted [] read_msgs = inl (refl, tt)
read_loop_lem wanted (m ∷ queue) read_msgs = elim (Bool-cases (wanted m)) [
  | inl w ↦ inr ([], m, queue, ground (arith, w, append-nil read_msgs), (refl, w, tt))
  | inr w ↦ elim (read_loop_lem wanted queue (read_msgs ++ (m ∷ []))) [
    | inl (e, none_of) ↦ inl (ground (arith, w, e), (w, none_of))
    | inr (before, msg, after, e, (q, y, n)) ↦ inr (
      m ∷ before,
      msg,
      after,
      ground (arith, w, e, append_assoc read_msgs (m ∷ []) before),
      (ap (λ l. m ∷ l) q, y, (w, n)),
    )
  ]
]

node_of-eq :
    (m : ControlMessage)
    → is_all_initialized m ≡ true
    → (n : ℕ) × (m ≡ all_operators_initialized_on_node n) × (node_of m ≡ some n)
node_of-eq (all_operators_initialized_on_node n) h = (n, refl, refl)
node_of-eq (ControlMessage.operator_initialized n) h = cc
node_of-eq (ControlMessage.run_operator n) h = cc
node_of-eq (ControlMessage.data_sender_initialized n) h = cc
node_of-eq (ControlMessage.data_receiver_initialized n) h = cc
node_of-eq (ControlMessage.control_sender_initialized n) h = cc
node_of-eq (ControlMessage.control_receiver_initialized n) h = cc

module _ (mpsc : Mpsc ControlMessage) (h : ControlMessageHandler mpsc) where
  -- Waiting for `AllOperatorsInitializedOnNode` goes on as long as the queue holds none.
  -- Otherwise it gives the node of the first one and takes this message out of the queue; every
  -- other message stays, those before it behind those after it.
  pub read_all_operators_initialized_on_node_msg_lem :
      ((read_all_operators_initialized_on_node_msg mpsc h ≡ none)
        × All (λ m. is_all_initialized m ≡ false) h.queue)
      ⊎ ((before after : List ControlMessage) × (n : ℕ)
          × (read_all_operators_initialized_on_node_msg mpsc h
              ≡ some (n, record h { queue = after ++ before }))
          × Found is_all_initialized h.queue before (all_operators_initialized_on_node n) after)
  unfolding read_all_operators_initialized_on_node_msg
  read_all_operators_initialized_on_node_msg_lem =
      elim (read_loop_lem is_all_initialized h.queue []) [
        | inl (e, none_of) ↦ inl (ground (arith, e), none_of)
        | inr (before, msg, after, e, (q, w, n)) ↦
            let (node, same, k) = node_of-eq msg w in
            inr (
              before,
              after,
              node,
              ground (arith, e, k),
              (q ∙ ap (λ m. before ++ (m ∷ after)) same, refl, n),
            )
      ]

  -- Waiting for one of the four messages that say that a sender or receiver is initialized goes
  -- on as long as the queue holds none. Otherwise it gives the first one and takes it out of the
  -- queue; every other message stays, those before it behind those after it.
  pub read_sender_or_receiver_initialized_lem :
      ((read_sender_or_receiver_initialized mpsc h ≡ none)
        × All (λ m. is_sender_or_receiver m ≡ false) h.queue)
      ⊎ ((before after : List ControlMessage) × (msg : ControlMessage)
          × (read_sender_or_receiver_initialized mpsc h
              ≡ some (msg, record h { queue = after ++ before }))
          × Found is_sender_or_receiver h.queue before msg after)
  unfolding read_sender_or_receiver_initialized
  read_sender_or_receiver_initialized_lem = elim (read_loop_lem is_sender_or_receiver h.queue []) [
    | inl (e, none_of) ↦ inl (ground (arith, e), none_of)
    | inr (before, msg, after, e, f) ↦ inr (before, after, msg, ground (arith, e), f)
  ]
