-- ===== src/Lattice/Complete.antt =====
-- `mark_as_completed` of src/node/lattice.rs on valid lattices.
use erdos.Prelude.{
  ℕ, ◌+◌, ◌≤◌, ◌<◌, ◌≡◌, ◌≢◌, refl, sym, ◌∙◌, List, [], ◌∷◌, Option, none, some, inl, inr, All,
  ◌==◌, ==_iff, Bool-cases, false, arith, if◌then◌else◌,
}
use mathlib.Core.Path.{subst}
use erdos.Event.{OperatorEvent}
use erdos.Lattice.{ExecutionLattice, mark_as_completed, promote}
use erdos.Lattice.Runnable.{RunnableEvent, remove_index}
use erdos.Lattice.RunQueue.{count_index}
use erdos.Lattice.Invariant.{Status, Status-move, Queued, IsValid}
use erdos.Lattice.Petgraph.{StableGraph}
use erdos.Lattice.Promote.{remove_index_lem, ℕ-cases, Pending, promote-Statuses}

module _ {C : Type 0} (SG : StableGraph (Option (OperatorEvent C))) where
  edges_kept :
      (g : SG.Graph) (id i b : ℕ)
      → (id == i) ≡ false
      → SG.edges g i id ≡ 0
      → SG.edges (SG.remove_node g id) i b ≡ SG.edges g i b
  edges_kept g id i b k z =
      let e = SG.remove_node-edges g id i b in
      elim (Bool-cases (id == b)) [
        | inl q ↦
            let z' : SG.edges g i b ≡ 0 = subst (λ j. SG.edges g i j ≡ 0) ((==_iff id b).0 q) z in
            ground (arith, e, k, q, z')
        | inr q ↦ ground (arith, e, k, q)
      ]

  pub blocked_event :
      (g : SG.Graph) (i b l q : ℕ) (w : Option (Option (OperatorEvent C)))
      → Status SG g i l q w
      → 0 < SG.edges g i b
      → w ≢ none
      → (e : OperatorEvent C) × (w ≡ some (some e)) × (l ≡ 0) × (q ≡ 0)
  blocked_event g i b l q none st h p = absurd (p refl)
  blocked_event g i b l q (some none) (_, _, f) h p = let z = f b in absurd (omega (arith, z, h))
  blocked_event g i b l q (some (some e)) (inl (_, _, f)) h p =
      let z = f b in absurd (omega (arith, z, h))
  blocked_event g i b l q (some (some e)) (inr (a, c, _)) h p = (e, refl, a, c)

  -- The status of a node after another one is removed.
  Pending-remove_node :
      (L : ExecutionLattice SG) (id : ℕ) (leaves : List RunnableEvent)
      → IsValid SG L
      → SG.node_weight L.forest id ≡ some none
      → ((j : ℕ) → count_index j L.leaves ≡ (if id == j then 1 else 0) + count_index j leaves)
      → Pending SG (SG.remove_node L.forest id) (SG.incoming L.forest id) leaves L.run_queue
  Pending-remove_node L id leaves v x c i =
      let (l, q, f) =
        subst (Status SG L.forest id (count_index id L.leaves) (count_index id L.run_queue)) x
          (v.0 id) in
      let g = SG.remove_node L.forest id in
      let ci = c i in
      let s = SG.remove_node-weight L.forest id i in
      let into = SG.count-incoming L.forest i id in
      elim (Bool-cases (id == i)) [
        | inl k ↦
            let same = (==_iff id i).0 k in
            inr (
              into ∙ subst (λ j. SG.edges L.forest j id ≡ 0) same (f id),
              subst (Status SG g i (count_index i leaves) (count_index i L.run_queue)) {x = none}
                  (ground (arith, s, k))
                  (
                    (let l' : count_index i L.leaves ≡ 1 =
                          subst (λ j. count_index j L.leaves ≡ 1) same l in
                        ground (arith, ci, k, l')),
                    subst (λ j. count_index j L.run_queue ≡ 0) same q,
                  ),
            )
        | inr k ↦ elim (ℕ-cases (SG.edges L.forest i id)) [
          | inl z ↦ inr (
            into ∙ z,
            Status-move SG (λ b. edges_kept L.forest id i b k z) (ground (arith, ci, k)) refl
                (ground (arith, s, k)) (v.0 i),
          )
          | inr (n, z) ↦
              let some_edge : 0 < SG.edges L.forest i id = omega (arith, z) in
              let (e, w, l', q') =
                blocked_event L.forest i id (count_index i L.leaves) (count_index i L.run_queue)
                  (SG.node_weight L.forest i) (v.0 i) some_edge
                  (SG.edge_present L.forest i id some_edge).0 in
              inl (
                subst (λ n. 0 < n) (sym into) some_edge,
                e,
                ground (arith, s, k, w),
                ground (arith, ci, k, l'),
                q',
              )
        ]
      ]

  Queued-remove_node :
      (g : SG.Graph) (id : ℕ) (xs : List RunnableEvent)
      → count_index id xs ≡ 0
      → All (Queued SG g) xs
      → All (Queued SG (SG.remove_node g id)) xs
  Queued-remove_node g id [] z qs = tt
  Queued-remove_node g id (x ∷ xs) z ((e, h, t), qs) =
      let s = SG.remove_node-weight g id x.node_index in
      ((e, ground (arith, s, h, z), t), Queued-remove_node g id xs (ground (arith, z)) qs)

  mark_as_completed-some :
      (L : ExecutionLattice SG) (id : ℕ) (leaves leaves' run_queue' : List RunnableEvent)
      → remove_index id L.leaves ≡ some leaves
      → promote SG (SG.remove_node L.forest id) (SG.incoming L.forest id) leaves L.run_queue
        ≡ some (leaves', run_queue')
      → mark_as_completed SG L id
        ≡ some (record {
          forest = SG.remove_node L.forest id;
          leaves = leaves';
          run_queue = run_queue';
        })
  unfolding mark_as_completed
  mark_as_completed-some L id leaves leaves' run_queue' h k = ground (arith, h, k)

  edges_bound :
      (g : SG.Graph) (id a b : ℕ) → SG.edges g a b ≤ 1 → SG.edges (SG.remove_node g id) a b ≤ 1
  edges_bound g id a b h = let e = SG.remove_node-edges g id a b in ground (arith, e, h)

  -- Marking an event that is executing as completed does not panic on a valid lattice: it
  -- removes the node with its edges and leaves a valid lattice, in which every event that
  -- depends on no other one is in the leaves and, if it is not executing, in the run queue.
  pub mark_as_completed-IsValid :
      (L : ExecutionLattice SG) (id : ℕ)
      → IsValid SG L
      → SG.node_weight L.forest id ≡ some none
      → (L' : ExecutionLattice SG) × (mark_as_completed SG L id ≡ some L')
        × IsValid SG L'
        × (L'.forest ≡ SG.remove_node L.forest id)
  mark_as_completed-IsValid L id v x =
      let (l, q, f) =
        subst (Status SG L.forest id (count_index id L.leaves) (count_index id L.run_queue)) x
          (v.0 id) in
      let (leaves, h, c) = remove_index_lem id L.leaves (omega (arith, l)) in
      let (ls, rq, k, sts, qs) =
        promote-Statuses SG (SG.remove_node L.forest id) (SG.incoming L.forest id) leaves
          L.run_queue (λ i. subst (λ n. n ≤ 1) (sym (SG.count-incoming L.forest i id)) (v.1 i id))
          (Pending-remove_node L id leaves v x c)
          (Queued-remove_node L.forest id L.run_queue q v.2) in
      (
        record { forest = SG.remove_node L.forest id; leaves = ls; run_queue = rq },
        mark_as_completed-some L id leaves ls rq h k,
        (sts, λ a b. edges_bound L.forest id a b (v.1 a b), qs),
        refl,
      )
