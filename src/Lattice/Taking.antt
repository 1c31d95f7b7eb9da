-- ===== src/Lattice/Taking.antt =====
-- src/node/lattice.rs: get_event keeps the lattice valid, and what it hands out.
use erdos.Prelude.{
  ℕ, ◌≤◌, ◌≡◌, ◌≢◌, refl, sym, List, [], Option, none, some, inl, inr, All, arith, Option-cases,
  ==_refl, All-map, ◌∙◌,
}
use mathlib.Core.Path.{subst}
use erdos.Event.{OperatorEvent}
use erdos.Lattice.{ExecutionLattice, get_event}
use erdos.Lattice.Runnable.{RunnableEvent, pop, with_timestamp}
use erdos.Lattice.RunQueue.{pop-nil, pop-All, pop_first, Ahead, Stamped}
use erdos.Lattice.Petgraph.{StableGraph}
use erdos.Lattice.Invariant.{
  Free, IsValid, Queued, Queued-Stamped, Queued-set_weight, Statuses-taken, waiting-weight,
}

module _ {C : Type 0} (SG : StableGraph (Option (OperatorEvent C))) where
  -- What `get_event` hands out: the queue's first event, none of whose dependencies is left, and
  -- whose node then holds no event.
  abbrev pub Taken : ExecutionLattice SG → ExecutionLattice SG → OperatorEvent C × ℕ → Type 0
  Taken L L' (e, i) =
      (SG.node_weight L.forest i ≡ some (some e))
      × (SG.node_weight L'.forest i ≡ some none)
      × Free SG L.forest i
      × All (Ahead (with_timestamp i e.timestamp)) L.run_queue

  abbrev pub Answer :
      ExecutionLattice SG → ExecutionLattice SG → Option (OperatorEvent C × ℕ) → Type 0
  Answer L L' none = (L.run_queue ≡ []) × (L' ≡ L)
  Answer L L' (some r) = Taken L L' r

  pub get_event-some :
      (L : ExecutionLattice SG) (x : RunnableEvent) (rest : List RunnableEvent)
      → IsValid SG L
      → pop L.run_queue ≡ some (x, rest)
      → (e : OperatorEvent C) × (SG.node_weight L.forest x.node_index ≡ some (some e))
        × (x.timestamp ≡ some e.timestamp)
        × (get_event SG L
            ≡ some (
              some (e, x.node_index),
              record L { forest = SG.set_weight L.forest x.node_index none; run_queue = rest },
            ))
  unfolding get_event
  get_event-some L x rest v h =
      let (e, w, t) = (pop-All (Queued SG L.forest) x L.run_queue rest h v.2).0 in
      (e, w, t, ground (arith, h, waiting-weight SG L.forest x.node_index e w))

  pub get_event-none :
      (L : ExecutionLattice SG) → pop L.run_queue ≡ none → get_event SG L ≡ some (none, L)
  unfolding get_event
  get_event-none L h = ground (arith, h)

  pub get_event-IsValid :
      (L : ExecutionLattice SG)
      → IsValid SG L
      → (r : Option (OperatorEvent C × ℕ)) × (L' : ExecutionLattice SG) × (get_event SG L
          ≡ some (r, L'))
        × IsValid SG L'
        × Answer L L' r
  get_event-IsValid L v = elim (Option-cases (pop L.run_queue)) [
    | inl h ↦ (none, L, get_event-none L h, v, (pop-nil L.run_queue h, refl))
    | inr ((x, rest), h) ↦
        let (e, w, t, q) = get_event-some L x rest v h in
        let s = Statuses-taken SG L x rest e v w h in
        let present : SG.node_weight L.forest x.node_index ≢ none = ground (arith, w) in
        let qs = pop-All (Queued SG L.forest) x L.run_queue rest h v.2 in
        let first =
          pop_first x L.run_queue rest
            (All-map (Queued SG L.forest) Stamped L.run_queue (Queued-Stamped SG L.forest) v.2) h in
        let g = SG.set_weight L.forest x.node_index none in
        (
          some (e, x.node_index),
          record L { forest = g; run_queue = rest },
          q,
          (
            s.2,
            λ a b.
                subst (λ n. n ≤ 1) (sym (SG.set_weight-edges L.forest x.node_index none a b))
                  (v.1 a b),
            Queued-set_weight SG L.forest x.node_index none rest present s.0 qs.1,
          ),
          (
            w,
            ground (
              arith,
              SG.set_weight-weight L.forest x.node_index none x.node_index present,
              ==_refl x.node_index,
            ),
            s.1,
            All-map (Ahead x) (Ahead (with_timestamp x.node_index e.timestamp)) L.run_queue
                (λ y a s' u p' q'. a s' u (t ∙ p') q') first,
          ),
        )
  ]
