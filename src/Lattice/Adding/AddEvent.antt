-- ===== src/Lattice/Adding/AddEvent.antt =====
-- Where each node of src/node/lattice.rs stands after an event is added.
use erdos.Prelude.{
  ℕ, suc, ◌≡◌, refl, ◌∙◌, List, Option, some, inl, inr, ◌==◌, ==_iff, ==_refl, Bool-cases, false,
  count, contains-count, ltb, arith,
}
use mathlib.Core.Path.{subst}
use erdos.Event.{OperatorEvent}
use erdos.Lattice.{ExecutionLattice}
use erdos.Lattice.Petgraph.{StableGraph}
use erdos.Lattice.Runnable.{RunnableEvent}
use erdos.Lattice.RunQueue.{count_index}
use erdos.Lattice.Complete.{blocked_event}
use erdos.Lattice.Invariant.{IsValid, Status, Status-move, Blocked}
use erdos.Lattice.Search.{Scan}
use erdos.Lattice.Adding.Lists.{◌∈◌}
use erdos.Lattice.Adding.Scans.{ScanInv}
use erdos.Lattice.Adding.Insert.{kept, count-kept, new, absent, no_edges, not_parent, Grown}

module _ {C : Type 0} (SG : StableGraph (Option (OperatorEvent C))) where
  module _ (L : ExecutionLattice SG) (valid : IsValid SG L) (added : OperatorEvent C) (s : Scan SG)
      (inv : ScanInv SG L.forest added s) (g : SG.Graph) (G : Grown SG L valid added s inv g) where
    abbrev pub idx : ℕ
    idx = new SG L valid added s inv

    abbrev pub leaves' : List RunnableEvent
    leaves' = kept s.demoted_leaves L.leaves

    abbrev pub queue' : List RunnableEvent
    queue' = kept s.demoted_leaves L.run_queue

    -- The status of a node before, at its weight.
    before :
        (n : ℕ)
        → Status SG L.forest n
            (count_index n L.leaves)
            (count_index n L.run_queue)
            (SG.node_weight L.forest n)
    before n = valid.0 n

    idx-outside : (count_index idx L.leaves ≡ 0) × (count_index idx L.run_queue ≡ 0)
    idx-outside =
        subst (Status SG L.forest idx (count_index idx L.leaves) (count_index idx L.run_queue))
          (absent SG L valid added s inv) (before idx)

    Blocked-outside :
        (n : ℕ)
        → Blocked SG L.forest n
        → (count_index n L.leaves ≡ 0) × (count_index n L.run_queue ≡ 0)
    Blocked-outside n (b, edge) =
        let (_, _, l, q) =
          blocked_event SG L.forest n b (count_index n L.leaves) (count_index n L.run_queue)
            (SG.node_weight L.forest n) (before n) edge (SG.edge_present L.forest n b edge).0 in
        (l, q)

    parent-outside :
        (n : ℕ) → n ∈ s.parents → (count_index n leaves' ≡ 0) × (count_index n queue' ≡ 0)
    parent-outside n m =
        let cl = count-kept n s.demoted_leaves L.leaves in
        let cq = count-kept n s.demoted_leaves L.run_queue in
        elim (inv.parents_wait n m).1 [
          | inl b ↦
              let (l, q) = Blocked-outside n b in (ground (arith, cl, l), ground (arith, cq, q))
          | inr d ↦
              let c = contains-count s.demoted_leaves n in
              (ground (arith, cl, c, d), ground (arith, cq, c, d))
        ]

    pub parent-old : (n : ℕ) → n ∈ s.parents → (idx == n) ≡ false
    parent-old n m = elim (Bool-cases (idx == n)) [
      | inl k ↦
          let z =
            subst (λ j. count j s.parents ≡ 0) ((==_iff idx n).0 k)
              (not_parent SG L valid added s inv) in
          absurd (omega (arith, z, m))
      | inr k ↦ k
    ]

    -- Parents are blocked by the new node.
    pub parent-Status :
        (n : ℕ) (l q : ℕ)
        → n ∈ s.parents
        → l ≡ count_index n leaves'
        → q ≡ count_index n queue'
        → Status SG g n l q (SG.node_weight g n)
    parent-Status n l q m el eq =
        let ((e, w, _), _) = inv.parents_wait n m in
        let old = parent-old n m in
        let wg = G.weight n in
        let ed = G.exactly n idx (inr refl) in
        let (cl, cq) = parent-outside n m in
        subst (Status SG g n l q) {x = some (some e)} (ground (arith, wg, w, old))
          (inr (el ∙ cl, eq ∙ cq, (idx, ground (arith, ed, old, m, ==_refl idx))))

    -- Every other old node keeps its place.
    pub other-Status :
        (n : ℕ) (l q : ℕ)
        → (idx == n) ≡ false
        → count n s.parents ≡ 0
        → l ≡ count_index n leaves'
        → q ≡ count_index n queue'
        → Status SG g n l q (SG.node_weight g n)
    other-Status n l q k z el eq =
        let cl = count-kept n s.demoted_leaves L.leaves in
        let cq = count-kept n s.demoted_leaves L.run_queue in
        let c = contains-count s.demoted_leaves n in
        let no : count n s.demoted_leaves ≡ 0 =
          elim (Bool-cases (ltb 0 (count n s.demoted_leaves))) [
            | inl h ↦
                let m = inv.demoted_parents n (ground (arith, h)) in absurd (omega (arith, m, z))
            | inr h ↦ ground (arith, h)
          ] in
        let wg = G.weight n in
        Status-move SG (λ b. let ed = G.exactly n b (inl z) in ground (arith, ed, k, z))
          (ground (arith, cl, c, no, el)) (ground (arith, cq, c, no, eq)) (ground (arith, wg, k))
          (before n)

    new-outside : (count_index idx leaves' ≡ 0) × (count_index idx queue' ≡ 0)
    new-outside =
        let (l, q) = idx-outside in
        let cl = count-kept idx s.demoted_leaves L.leaves in
        let cq = count-kept idx s.demoted_leaves L.run_queue in
        (ground (arith, l, cl), ground (arith, q, cq))

    pub new-blocked :
        (c l q : ℕ)
        → c ∈ s.children
        → l ≡ count_index idx leaves'
        → q ≡ count_index idx queue'
        → Status SG g idx l q (SG.node_weight g idx)
    new-blocked c l q m el eq =
        let wg = G.weight idx in
        let ed = G.exactly idx c (inl (not_parent SG L valid added s inv)) in
        let (cl, cq) = new-outside in
        subst (Status SG g idx l q) {x = some (some added)} (ground (arith, wg, ==_refl idx))
          (inr (el ∙ cl, eq ∙ cq, (c, ground (arith, ed, m, ==_refl idx))))

    pub new-ready :
        (l q : ℕ)
        → ((n : ℕ) → count n s.children ≡ 0)
        → l ≡ suc (count_index idx leaves')
        → q ≡ suc (count_index idx queue')
        → Status SG g idx l q (SG.node_weight g idx)
    new-ready l q z el eq =
        let wg = G.weight idx in
        let (cl, cq) = new-outside in
        let none_in = not_parent SG L valid added s inv in
        subst (Status SG g idx l q) {x = some (some added)} (ground (arith, wg, ==_refl idx)) (
          inl (
            omega (arith, el, cl),
            omega (arith, eq, cq),
            λ b.
                let ed = G.exactly idx b (inl none_in) in
                let zb = z b in
                let old = (no_edges SG L valid added s inv b).0 in
                ground (arith, ed, zb, old, none_in),
          ))
