-- ===== src/Node/Waits.antt =====
-- What ends the waits of src/node/node.rs.
use erdos.Prelude.{
  ℕ, ◌≤◌, ◌≡◌, refl, ap, sym, ◌∙◌, ◌↔◌, inl, inr, Bool, true, false, not, List, [], ◌∷◌, ◌++◌, none,
  some, is_some, length, leb, ltb, insert_set, All, keep, append-nil, count, count-append, arith,
}
use erdos.Communication.{Mpsc}
use erdos.Communication.Control.{
  ControlMessage, ControlMessageHandler, node_of, is_all_initialized, is_sender_or_receiver,
  all_operators_initialized_on_node, read_all_operators_initialized_on_node_msg,
  read_sender_or_receiver_initialized,
}
use erdos.Communication.Control.Reads.{
  read_all_operators_initialized_on_node_msg_lem, read_sender_or_receiver_initialized_lem,
}
use erdos.Node.{
  Initialized, initially, insert_initialized, too_few, some_missing, recv, insert_operator,
  wait_for_local_operators_initialized, wait_for_communication_layer_initialized,
  wait_for_all_operators_initialized,
}
use erdos.Node.Reports.{AllReported, some_missing-AllReported}
use erdos.Node.Loop.{
  insert_msgs, Reads, wait_loop-returns, wait_loop-keeps, length-keep, keep-none, keep-append,
}

too_few-insert_set :
    (num a : ℕ) (xs : List ℕ) → too_few num xs ≡ false → too_few num (insert_set a xs) ≡ false
unfolding insert_set
too_few-insert_set num a xs h = ground arith

not-ltb : (a b : ℕ) → not (ltb a b) ≡ leb b a
not-ltb a b = ground arith

-- The nodes of the messages that say that all operators of a node are initialized.
abbrev pub announced : List ControlMessage → List ℕ
announced [] = []
announced (m ∷ queue) = elim (node_of m) [ none ↦ announced queue | some n ↦ n ∷ announced queue ]

announced-append :
    (xs ys : List ControlMessage) → announced (xs ++ ys) ≡ announced xs ++ announced ys
announced-append [] ys = refl
announced-append (m ∷ xs) ys = ground (arith, announced-append xs ys)

announced-none :
    (xs : List ControlMessage) → All (λ m. is_all_initialized m ≡ false) xs → announced xs ≡ []
announced-none [] h = refl
announced-none (m ∷ xs) h = ground (arith, announced-none xs h.1, h.0)

announced-reported :
    (m : ControlMessage) (xs : List ControlMessage)
    → is_sender_or_receiver m ≡ true
    → announced (m ∷ xs) ≡ announced xs
announced-reported m xs h = ground arith

length-announced : (xs : List ControlMessage) → length (announced xs) ≤ length xs
length-announced [] = omega arith
length-announced (m ∷ xs) = ground (arith, length-announced xs)

too_few-insert_operator :
    (num : ℕ) (m : ControlMessage) (xs : List ℕ)
    → too_few num xs ≡ false
    → too_few num (insert_operator m xs) ≡ false
unfolding insert_operator insert_set
too_few-insert_operator num m xs h = ground arith

recv-Reads : (rx : List ControlMessage) → Reads recv (λ rx. rx) rx
recv-Reads [] = inl (refl, refl)
recv-Reads (m ∷ rx) = inr (m, rx, refl, refl)

some_missing-insert_initialized :
    (num : ℕ) (m : ControlMessage) (s : Initialized)
    → some_missing num s ≡ false
    → some_missing num (insert_initialized m s) ≡ false
unfolding some_missing insert_initialized insert_set
some_missing-insert_initialized num m s h = ground (arith, h)

-- A message that the wait does not read changes none of the sets.
insert_msgs-initialized :
    (ms : List ControlMessage) (s : Initialized)
    → insert_msgs insert_initialized (keep is_sender_or_receiver ms) s
      ≡ insert_msgs insert_initialized ms s
unfolding insert_initialized
insert_msgs-initialized [] s = refl
insert_msgs-initialized (ControlMessage.all_operators_initialized_on_node n ∷ ms) s =
    insert_msgs-initialized ms _
insert_msgs-initialized (ControlMessage.operator_initialized n ∷ ms) s =
    insert_msgs-initialized ms _
insert_msgs-initialized (ControlMessage.run_operator n ∷ ms) s = insert_msgs-initialized ms _
insert_msgs-initialized (ControlMessage.data_sender_initialized n ∷ ms) s =
    insert_msgs-initialized ms _
insert_msgs-initialized (ControlMessage.data_receiver_initialized n ∷ ms) s =
    insert_msgs-initialized ms _
insert_msgs-initialized (ControlMessage.control_sender_initialized n ∷ ms) s =
    insert_msgs-initialized ms _
insert_msgs-initialized (ControlMessage.control_receiver_initialized n ∷ ms) s =
    insert_msgs-initialized ms _

not-false : (b : Bool) → not b ≡ true → b ≡ false
not-false true h = cc
not-false false h = refl

-- The wait for the operators of the node itself ends exactly when the different operators that
-- report in what the channel has are as many as the node's.
pub wait_for_local_operators_initialized-returns :
    (rx : List ControlMessage) (num : ℕ)
    → is_some (wait_for_local_operators_initialized rx num)
      ≡ leb num (length (insert_msgs insert_operator rx []))
unfolding wait_for_local_operators_initialized
wait_for_local_operators_initialized-returns rx num =
    wait_loop-returns recv (too_few num) insert_operator (λ rx. rx) recv-Reads
      (too_few-insert_operator num) (length rx) rx [] (omega arith)
    ∙ not-ltb _ num

module _ (mpsc : Mpsc ControlMessage) (id num_nodes : ℕ) where
  announced-Reads :
      (h : ControlMessageHandler mpsc)
      → Reads (read_all_operators_initialized_on_node_msg mpsc) (λ h. announced h.queue) h
  announced-Reads h = elim (read_all_operators_initialized_on_node_msg_lem mpsc h) [
    | inl (e, n) ↦ inl (e, announced-none h.queue n)
    | inr (before, after, n, e, (q, w, p)) ↦ inr (
      n,
      record h { queue = after ++ before },
      e,
      rw
          (
            q,
            announced-append before (all_operators_initialized_on_node n ∷ after),
            announced-append after before,
            announced-none before p,
          )
          (sym (append-nil _)),
    )
  ]

  -- With the messages of its queue, a node's wait for the operators of all nodes ends exactly when
  -- the nodes that announce themselves in them, each counted once and with the node itself, are as
  -- many as the nodes of the configuration.
  pub wait_for_all_operators_initialized-returns :
      (h : ControlMessageHandler mpsc)
      → is_some (wait_for_all_operators_initialized mpsc id num_nodes h)
        ≡ leb num_nodes (length (insert_msgs insert_set (announced h.queue) (id ∷ [])))
  unfolding wait_for_all_operators_initialized
  wait_for_all_operators_initialized-returns h =
      wait_loop-returns _ (too_few num_nodes) insert_set (λ h. announced h.queue) announced-Reads
        (too_few-insert_set num_nodes) (length h.queue) h (id ∷ []) (length-announced h.queue)
      ∙ not-ltb _ num_nodes

  initialized-Reads :
      (h : ControlMessageHandler mpsc)
      → Reads (read_sender_or_receiver_initialized mpsc) (λ h. keep is_sender_or_receiver h.queue) h
  initialized-Reads h = elim (read_sender_or_receiver_initialized_lem mpsc h) [
    | inl (e, n) ↦ inl (e, keep-none is_sender_or_receiver h.queue n)
    | inr (before, after, m, e, (q, w, p)) ↦ inr (
      m,
      record h { queue = after ++ before },
      e,
      rw
          (
            q,
            keep-append is_sender_or_receiver before (m ∷ after),
            keep-append is_sender_or_receiver after before,
            keep-none is_sender_or_receiver before p,
          )
          (rw w (sym (append-nil _))),
    )
  ]

  layer_lem :
      (h : ControlMessageHandler mpsc)
      → is_some (wait_for_communication_layer_initialized mpsc id num_nodes h)
        ≡ not (some_missing num_nodes (insert_msgs insert_initialized h.queue (initially id)))
  unfolding wait_for_communication_layer_initialized
  layer_lem h =
      wait_loop-returns _ (some_missing num_nodes) insert_initialized
        (λ h. keep is_sender_or_receiver h.queue) initialized-Reads
        (some_missing-insert_initialized num_nodes) (length h.queue) h (initially id)
        (length-keep is_sender_or_receiver h.queue)
      ∙ ap (λ s. not (some_missing num_nodes s)) (insert_msgs-initialized h.queue (initially id))

  -- With the messages of its queue, a node's wait for the communication layer ends if and only if
  -- the nodes that report an initialized control sender in them are as many as the nodes of the
  -- configuration, each counted once and with the node itself, and so are those that report a
  -- control receiver, those that report a data sender, and those that report a data receiver.
  pub wait_for_communication_layer_initialized-returns :
      (h : ControlMessageHandler mpsc)
      → (is_some (wait_for_communication_layer_initialized mpsc id num_nodes h) ≡ true)
        ↔ AllReported id num_nodes h.queue
  wait_for_communication_layer_initialized-returns h =
      let (all, back) = some_missing-AllReported id num_nodes h.queue in
      (λ r. all (not-false _ (sym (layer_lem h) ∙ r)), λ r. layer_lem h ∙ ap not (back r))

  read-announced :
      (n : ℕ) (h h' : ControlMessageHandler mpsc) (m : ControlMessage)
      → read_sender_or_receiver_initialized mpsc h ≡ some (m, h')
      → count n (announced h'.queue) ≡ count n (announced h.queue)
  read-announced n h h' m r = elim (read_sender_or_receiver_initialized_lem mpsc h) [
    | inl (e, none_of) ↦ cc
    | inr (before, after, k, e, (q, w, p)) ↦
        let same : h'.queue ≡ after ++ before = cc in
        rw
          (
            q,
            same,
            announced-append after before,
            announced-append before (k ∷ after),
            announced-reported k after w,
          )
          (omega (
            arith,
            count-append n (announced after) (announced before),
            count-append n (announced before) (announced after),
          ))
  ]

  -- The wait for the communication layer loses no announcement of another node: each stands in the
  -- queue afterwards as often as before.
  pub wait_for_communication_layer_initialized-announced :
      (h h' : ControlMessageHandler mpsc) (n : ℕ)
      → wait_for_communication_layer_initialized mpsc id num_nodes h ≡ some h'
      → count n (announced h'.queue) ≡ count n (announced h.queue)
  unfolding wait_for_communication_layer_initialized
  wait_for_communication_layer_initialized-announced h h' n =
      wait_loop-keeps (read_sender_or_receiver_initialized mpsc) (some_missing num_nodes)
        insert_initialized (λ h. count n (announced h.queue)) (read-announced n) (length h.queue) h
        h' (initially id)
