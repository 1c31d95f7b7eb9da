-- ===== src/Node/Startup/Barrier.antt =====
-- What has happened when `run_operators` of src/node/node.rs tells the operators to run.
use erdos.Prelude.{
  ℕ, ◌≡◌, refl, sym, ◌∙◌, ◌⊎◌, inl, inr, true, List, [], ◌∷◌, ◌++◌, Option, some, is_some, length,
  leb, insert_set, count, Option-cases,
}
use erdos.Communication.{Result, ok, err, Mpsc}
use erdos.Communication.Control.{ControlMessage, ControlMessageHandler, Channels}
use erdos.Graph.{Graph}
use erdos.Scheduler.{schedule}
use erdos.Node.{
  insert_operator, wait_for_communication_layer_initialized, wait_for_local_operators_initialized,
  broadcast_local_operators_initialized, wait_for_all_operators_initialized,
}
use erdos.Node.Loop.{insert_msgs}
use erdos.Node.Reports.{AllReported}
use erdos.Node.Waits.{
  announced, wait_for_communication_layer_initialized-returns,
  wait_for_local_operators_initialized-returns, wait_for_all_operators_initialized-returns,
  wait_for_communication_layer_initialized-announced,
}
use erdos.Node.Startup.{running, receive_all, local_operators, announce_and_run, start_operators}

is_there : {A : Type 0} (o : Option A) (a : A) → o ≡ some a → is_some o ≡ true
is_there o a e = rw e refl

Result-cases : {E : Type 0} (r : Result (Unit {0}) E) → (r ≡ ok tt) ⊎ ((e : E) × (r ≡ err e))
Result-cases (ok tt) = inl refl
Result-cases (err e) = inr (e, refl)

module _ {R H Manager : Type 0} (mpsc : Mpsc ControlMessage) (id num_nodes : ℕ)
    (new_manager : Graph R H → Option Manager)
    (run_hooks : Graph R H → Manager → Option Manager) where
  announce_and_run-all :
      (h : ControlMessageHandler mpsc) (late : List ControlMessage)
      (channels channels' : Channels mpsc)
      → announce_and_run mpsc id num_nodes new_manager run_hooks h late channels ≡ running channels'
      → leb num_nodes (length (insert_msgs insert_set (announced (h.queue ++ late)) (id ∷ [])))
        ≡ true
  unfolding announce_and_run
  announce_and_run-all h late channels channels' r =
      let sent = broadcast_local_operators_initialized mpsc id num_nodes h in
      elim (Result-cases sent.1) [
        | inr (e, bad) ↦ absurd (cc (rw (bad, announce_and_run) at r))
        | inl good ↦
            let h' = receive_all mpsc sent.0 late in
            elim (Option-cases (wait_for_all_operators_initialized mpsc id num_nodes h')) [
              | inl w ↦ absurd (cc (rw (good, w, announce_and_run) at r))
              | inr (h'', w) ↦
                  sym (wait_for_all_operators_initialized-returns mpsc id num_nodes h')
                  ∙ is_there (wait_for_all_operators_initialized mpsc id num_nodes h') h'' w
            ]
      ]

  -- If a node has told its operators to run: of each of the four kinds of senders and receivers,
  -- for control messages and for data, as many different nodes as there are have reported to it,
  -- itself counted; as many different operators as the scheduled graph has on this node have
  -- reported that they are initialized, and as many nodes as there are have announced themselves, in the messages that
  -- came before or after the first wait, of which none is lost.
  pub start_operators-running :
      (graph_ref : Graph R H) (h : ControlMessageHandler mpsc) (rx late : List ControlMessage)
      (channels channels' : Channels mpsc)
      → start_operators mpsc id num_nodes new_manager run_hooks graph_ref h rx late channels
        ≡ running channels'
      → AllReported id num_nodes h.queue
        × ((graph : Graph R H) × (schedule graph_ref ≡ some graph)
            × (leb (length (local_operators id graph)) (length (insert_msgs insert_operator rx []))
                ≡ true))
        × ((queue : List ControlMessage) × ((n : ℕ)
              → count n (announced queue) ≡ count n (announced h.queue))
            × (leb num_nodes (length (insert_msgs insert_set (announced (queue ++ late)) (id ∷ [])))
                ≡ true))
  unfolding start_operators
  start_operators-running graph_ref h rx late channels channels' r =
      let layer = wait_for_communication_layer_initialized mpsc id num_nodes h in
      elim (Option-cases layer) [
        | inl a ↦ absurd (cc (rw (a, start_operators) at r))
        | inr (h1, a) ↦ elim (Option-cases (schedule graph_ref)) [
          | inl b ↦ absurd (cc (rw (a, b, start_operators) at r))
          | inr (graph, b) ↦ elim (Option-cases (new_manager graph)) [
            | inl c ↦ absurd (cc (rw (a, b, c, start_operators) at r))
            | inr (manager, c) ↦
                let n = length (local_operators id graph) in
                elim (Option-cases (wait_for_local_operators_initialized rx n)) [
                  | inl d ↦ absurd (cc (rw (a, b, c, d, start_operators) at r))
                  | inr (rx', d) ↦ elim (Option-cases (run_hooks graph manager)) [
                    | inl e ↦ absurd (cc (rw (a, b, c, d, e, start_operators) at r))
                    | inr (manager', e) ↦ (
                      (wait_for_communication_layer_initialized-returns mpsc id num_nodes h).0
                          (is_there layer h1 a),
                      (
                        graph,
                        b,
                        sym (wait_for_local_operators_initialized-returns rx n)
                            ∙ is_there (wait_for_local_operators_initialized rx n) rx' d,
                      ),
                      (
                        h1.queue,
                        λ n.
                            wait_for_communication_layer_initialized-announced mpsc id num_nodes h
                              h1 n a,
                        announce_and_run-all h1 late channels channels'
                            (rw (a, b, c, d, e, start_operators) at r),
                      ),
                    )
                  ]
                ]
          ]
        ]
      ]
