-- ===== src/Node/Executor.antt =====
-- src/node/operator_executor.rs: the runner that takes events from an operator's lattice. A
-- callback acts on the world that it can reach, of type `W`, by `call`.
use erdos.Prelude.{
  ℕ, zero, suc, ◌<◌, ◌≡◌, refl, true, not, List, [], ◌∷◌, Option, none, some, is_some, inl, inr,
  length, contains, keep, ◌==◌, ◌&&◌, ==_refl, ==_iff, sym, ==_comm, Bool-cases, Option-cases,
  arith,
}
use mathlib.Core.Path.{subst}
use erdos.Event.{OperatorEvent}
use erdos.Lattice.{ExecutionLattice, get_event, mark_as_completed}
use erdos.Lattice.Petgraph.{StableGraph}
use erdos.Lattice.Invariant.{IsValid}
use erdos.Lattice.Taking.{get_event-IsValid, get_event-some, get_event-none}
use erdos.Lattice.Runnable.{pop}
use erdos.Lattice.RunQueue.{pop-nil}
use erdos.Node.Loop.{length-keep}
use erdos.Lattice.Complete.{mark_as_completed-IsValid}

pub data EventRunnerMessage : Type 0 where
  added_events destroy_operator : EventRunnerMessage

module _ {C W : Type 0} (SG : StableGraph (Option (OperatorEvent C))) (call : C → W → W) where
  -- The inner loop of `event_runner`, on at most `fuel` events.
  unfoldable pub run_events : ℕ → ExecutionLattice SG → W → Option (ExecutionLattice SG × W)
  run_events zero L w = none
  run_events (suc fuel) L w = elim (get_event SG L) [
    | none ↦ none
    | some (none, L') ↦ some (L', w)
    | some (some (event, event_id), L') ↦
        let w' = call event.callback w in
        elim (mark_as_completed SG L' event_id) [ none ↦ none | some L'' ↦ run_events fuel L'' w' ]
  ]

  -- The messages are those that the runner sees; nothing is added to the lattice meanwhile.
  unfoldable pub event_runner :
      ℕ → List EventRunnerMessage → ExecutionLattice SG → W → Option (ExecutionLattice SG × W)
  event_runner fuel [] L w = some (L, w)
  event_runner fuel (destroy_operator ∷ notifier_rx) L w = run_events fuel L w
  event_runner fuel (added_events ∷ notifier_rx) L w = elim (run_events fuel L w) [
    | none ↦ none
    | some (L', w') ↦ event_runner fuel notifier_rx L' w'
  ]

abbrev others : ℕ → List ℕ → List ℕ
others i ids = keep (λ x. not (x == i)) ids

others-contains :
    (i n : ℕ) (ids : List ℕ) → contains (others i ids) n ≡ (contains ids n && not (n == i))
others-contains i n [] = refl
others-contains i n (x ∷ ids) = ground (arith, others-contains i n ids)

others-shorter : (i : ℕ) (ids : List ℕ) → contains ids i ≡ true → length (others i ids) < length ids
others-shorter i [] h = cc
others-shorter i (x ∷ ids) h =
    let shorter = length-keep (λ x. not (x == i)) ids in
    elim (Bool-cases (x == i)) [
      | inl e ↦ rw e (omega (arith, shorter))
      | inr e ↦ let rest = others-shorter i ids (ground (arith, h, e)) in rw e (omega (arith, rest))
    ]

module _ {C : Type 0} (SG : StableGraph (Option (OperatorEvent C))) where
  -- Every node of the graph stands in the list.
  abbrev pub Covers : List ℕ → SG.Graph → Type 0
  Covers ids g = (n : ℕ) → is_some (SG.node_weight g n) ≡ true → contains ids n ≡ true

  Covers-remove_node :
      (g : SG.Graph) (i : ℕ) (ids : List ℕ)
      → Covers ids g
      → Covers (others i ids) (SG.remove_node g i)
  Covers-remove_node g i ids c n h =
      let w = SG.remove_node-weight g i n in
      let o = others-contains i n ids in
      elim (Bool-cases (i == n)) [
        | inl e ↦ ground (arith, w, e, h)
        | inr e ↦
            let there = c n (ground (arith, w, e, h)) in ground (arith, o, there, e, ==_comm i n)
      ]

  Covers-set_weight :
      (g : SG.Graph) (i : ℕ) (ids : List ℕ) (w : Option (OperatorEvent C))
      → is_some (SG.node_weight g i) ≡ true
      → Covers ids g
      → Covers ids (SG.set_weight g i w)
  Covers-set_weight g i ids w there c n h =
      let s = SG.set_weight-weight g i w n (ground (arith, there)) in
      elim (Bool-cases (i == n)) [
        | inl e ↦ c n (subst (λ j. is_some (SG.node_weight g j) ≡ true) ((==_iff i n).0 e) there)
        | inr e ↦ c n (ground (arith, s, e, h))
      ]

module _ {C W : Type 0} (SG : StableGraph (Option (OperatorEvent C))) (call : C → W → W) where
  -- A runner on a valid lattice does not panic, and comes to an end: with as much fuel as the
  -- graph has nodes, and one more, it returns, and then the lattice is valid and no event is
  -- ready to run.
  pub run_events-ends :
      (ids : List ℕ) (fuel : ℕ) (L : ExecutionLattice SG) (w : W)
      → IsValid SG L
      → Covers SG ids L.forest
      → length ids < fuel
      → (L' : ExecutionLattice SG) × (w' : W) × (run_events SG call fuel L w ≡ some (L', w'))
        × IsValid SG L'
        × (L'.run_queue ≡ [])
  unfolding run_events
  run_events-ends ids zero L w v c b = absurd (omega (arith, b))
  run_events-ends ids (suc fuel) L w v c b = elim (Option-cases (pop L.run_queue)) [
    | inl p ↦ (L, w, ground (arith, get_event-none SG L p), v, pop-nil L.run_queue p)
    | inr ((x, rest), p) ↦
        let (e, wx, _, q) = get_event-some SG L x rest v p in
        let (_, M, q', vM, _) = get_event-IsValid SG L v in
        let i = x.node_index in
        let g = SG.set_weight L.forest i none in
        let taken : ExecutionLattice SG = record L { forest = g; run_queue = rest } in
        let same : M ≡ taken = ground (arith, q, q') in
        let there : is_some (SG.node_weight L.forest i) ≡ true = ground (arith, wx) in
        let executing = SG.set_weight-weight L.forest i none i (ground (arith, wx)) in
        let (L'', k, v'', f) =
          mark_as_completed-IsValid SG taken i (subst (IsValid SG) same vM)
            (ground (arith, executing, ==_refl i)) in
        let c'' =
          subst (Covers SG (others i ids)) (sym f)
            (Covers-remove_node SG g i ids (Covers-set_weight SG L.forest i ids none there c)) in
        let shorter = others-shorter i ids (c i there) in
        let (L', w', run, v', empty) =
          run_events-ends (others i ids) fuel L'' (call e.callback w) v'' c''
            (omega (arith, shorter, b)) in
        (L', w', ground (arith, q, k, run), v', empty)
  ]
