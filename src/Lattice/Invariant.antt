-- ===== src/Lattice/Invariant.antt =====
-- The invariant of src/node/lattice.rs: where a node stands is told by its weight.
use erdos.Prelude.{
  ℕ, ◌≤◌, ◌<◌, ◌≡◌, ◌≢◌, refl, List, [], ◌∷◌, Option, none, some, ◌⊎◌, inl, inr, All, ◌==◌, arith,
  ==_refl, ==_iff, Bool-cases, ◌∙◌,
}
use mathlib.Core.Path.{subst}
use erdos.Event.{OperatorEvent}
use erdos.Lattice.{ExecutionLattice}
use erdos.Lattice.Runnable.{RunnableEvent, pop}
use erdos.Lattice.RunQueue.{count_index, pop-count_index, Stamped}
use erdos.Lattice.Search.{waiting}
use erdos.Lattice.Petgraph.{StableGraph}

module _ {C : Type 0} (SG : StableGraph (Option (OperatorEvent C))) where
  abbrev pub Free : SG.Graph → ℕ → Type 0
  Free g i = (b : ℕ) → SG.edges g i b ≡ 0

  abbrev pub Blocked : SG.Graph → ℕ → Type 0
  Blocked g i = (b : ℕ) × (0 < SG.edges g i b)

  -- How often a node stands in the leaves and in the run queue.
  abbrev pub Status : SG.Graph → ℕ → ℕ → ℕ → Option (Option (OperatorEvent C)) → Type 0
  Status g i in_leaves in_queue none = (in_leaves ≡ 0) × (in_queue ≡ 0)
  Status g i in_leaves in_queue (some none) = (in_leaves ≡ 1) × (in_queue ≡ 0) × Free g i
  Status g i in_leaves in_queue (some (some e)) =
      ((in_leaves ≡ 1) × (in_queue ≡ 1) × Free g i)
      ⊎ ((in_leaves ≡ 0) × (in_queue ≡ 0) × Blocked g i)

  -- An entry of the run queue stands for an event that waits, with its timestamp.
  abbrev pub Queued : SG.Graph → RunnableEvent → Type 0
  Queued g x =
      (e : OperatorEvent C) × (SG.node_weight g x.node_index ≡ some (some e))
      × (x.timestamp ≡ some e.timestamp)

  abbrev pub Statuses : ExecutionLattice SG → Type 0
  Statuses L =
      (i : ℕ)
      → Status L.forest i (count_index i L.leaves) (count_index i L.run_queue)
          (SG.node_weight L.forest i)

  -- Every node is absent, executing, ready or blocked; no edge is doubled; the run queue knows
  -- the timestamps.
  abbrev pub IsValid : ExecutionLattice SG → Type 0
  IsValid L =
      Statuses L × ((a b : ℕ) → SG.edges L.forest a b ≤ 1) × All (Queued L.forest) L.run_queue

  pub waiting-weight :
      (g : SG.Graph) (i : ℕ) (e : OperatorEvent C)
      → SG.node_weight g i ≡ some (some e)
      → waiting SG g i ≡ some e
  unfolding waiting
  waiting-weight g i e h = ground arith

  -- What follows for a queued node.
  ready :
      (L : ExecutionLattice SG) (i : ℕ) (e : OperatorEvent C)
      → IsValid L
      → SG.node_weight L.forest i ≡ some (some e)
      → 0 < count_index i L.run_queue
      → (count_index i L.leaves ≡ 1) × (count_index i L.run_queue ≡ 1) × Free L.forest i
  ready L i e v h q =
      elim (subst (Status L.forest i (count_index i L.leaves) (count_index i L.run_queue)) h
        (v.0 i)) [ inl r ↦ r | inr (_, z, _) ↦ absurd (omega (arith, z, q)) ]

  -- Entries other than the node that is taken stay queued.
  pub Queued-set_weight :
      (g : SG.Graph) (i : ℕ) (w : Option (OperatorEvent C)) (xs : List RunnableEvent)
      → SG.node_weight g i ≢ none
      → count_index i xs ≡ 0
      → All (Queued g) xs
      → All (Queued (SG.set_weight g i w)) xs
  Queued-set_weight g i w [] p z qs = tt
  Queued-set_weight g i w (x ∷ xs) p z ((e, h, t), qs) =
      let s = SG.set_weight-weight g i w x.node_index p in
      ((e, ground arith, t), Queued-set_weight g i w xs p (ground arith) qs)

  pub Queued-Stamped : (g : SG.Graph) (x : RunnableEvent) → Queued g x → Stamped x
  Queued-Stamped g x (e, _, t) = (e.timestamp, t)

  -- A status depends on the edges from the node, its weight and the two counts.
  Status-ext :
      (g g' : SG.Graph) (i l q : ℕ) (w : Option (Option (OperatorEvent C)))
      → ((b : ℕ) → SG.edges g' i b ≡ SG.edges g i b)
      → Status g i l q w
      → Status g' i l q w
  Status-ext g g' i l q none e s = s
  Status-ext g g' i l q (some none) e (a, b, f) = (a, b, λ n. e n ∙ f n)
  Status-ext g g' i l q (some (some x)) e (inl (a, b, f)) = inl (a, b, λ n. e n ∙ f n)
  Status-ext g g' i l q (some (some x)) e (inr (a, b, (n, f))) =
      let p = e n in inr (a, b, (n, omega (arith, p, f)))

  pub Status-move :
      {g g' : SG.Graph} {i l q l' q' : ℕ} {w w' : Option (Option (OperatorEvent C))}
      → ((b : ℕ) → SG.edges g' i b ≡ SG.edges g i b)
      → l ≡ l'
      → q ≡ q'
      → w ≡ w'
      → Status g i l q w
      → Status g' i l' q' w'
  Status-move {g} {g'} {i} {l} {q} {l'} {q'} {w} {w'} e a b c s = subst (Status g' i l' q') c (
      subst (λ n. Status g' i l' n w) b
        (subst (λ n. Status g' i n q w) a (Status-ext g g' i l q w e s)))

  -- The taken node is executing, every other stays what it was.
  pub Statuses-taken :
      (L : ExecutionLattice SG) (x : RunnableEvent) (rest : List RunnableEvent)
      (e : OperatorEvent C)
      → IsValid L
      → SG.node_weight L.forest x.node_index ≡ some (some e)
      → pop L.run_queue ≡ some (x, rest)
      → (count_index x.node_index rest ≡ 0)
        × Free L.forest x.node_index
        × Statuses
            (record L { forest = SG.set_weight L.forest x.node_index none; run_queue = rest })
  Statuses-taken L x rest e v w h =
      let c = pop-count_index x.node_index x L.run_queue rest h in
      let eq = ==_refl x.node_index in
      let r = ready L x.node_index e v w (ground (arith, c, eq)) in
      let z : count_index x.node_index rest ≡ 0 = ground (arith, c, eq, r.1) in
      let present : SG.node_weight L.forest x.node_index ≢ none = ground (arith, w) in
      let g = SG.set_weight L.forest x.node_index none in
      (
        z,
        r.2,
        λ i.
            let s = SG.set_weight-weight L.forest x.node_index none i present in
            let n = pop-count_index i x L.run_queue rest h in
            elim (Bool-cases (x.node_index == i)) [
              | inl p ↦
                  let k = (==_iff x.node_index i).0 p in
                  subst (Status g i (count_index i L.leaves) (count_index i rest)) {x = some none}
                    (ground (arith, s, p))
                    (
                      subst (λ j. count_index j L.leaves ≡ 1) k r.0,
                      subst (λ j. count_index j rest ≡ 0) k z,
                      λ b.
                          SG.set_weight-edges L.forest x.node_index none i b
                          ∙ subst (Free L.forest) k r.2 b,
                    )
              | inr p ↦
                  Status-move (λ b. SG.set_weight-edges L.forest x.node_index none i b) refl
                    (ground (arith, n, p)) (ground (arith, s, p)) (v.0 i)
            ],
      )
