-- ===== src/Lattice/Adding/Edges.antt =====
-- Which dependencies `add_event` of src/node/lattice.rs records.
use erdos.Prelude.{
  ℕ, ◌<◌, ◌≡◌, ◌≢◌, sym, ap, ◌∙◌, Option, some, ◌⊎◌, inl, inr, ltb, ◌==◌, ◌&&◌, ==_iff, ==_refl,
  Bool-cases, count, arith,
}
use mathlib.Core.Path.{subst}
use erdos.Event.{OperatorEvent}
use erdos.Lattice.{ExecutionLattice, add_event}
use erdos.Lattice.Petgraph.{StableGraph}
use erdos.Lattice.RunQueue.{count_index}
use erdos.Lattice.Invariant.{IsValid, Status}
use erdos.Lattice.Adding.Scans.{Follower, Predecessor}
use erdos.Lattice.Adding.Visits.{Comparable}
use erdos.Lattice.Adding.Walk.{search_lem}
use erdos.Lattice.Adding.Insert.{grown}
use erdos.Lattice.Adding.Result.{insert_event_lem, add_event-IsValid}

module _ {C : Type 0} (SG : StableGraph (Option (OperatorEvent C))) where
  abbrev pub added_index : ExecutionLattice SG → OperatorEvent C → ℕ
  added_index L added = (SG.add_node L.forest (some added)).1

  module _ (L L' : ExecutionLattice SG) (added : OperatorEvent C) (valid : IsValid SG L)
      (comparable : Comparable SG L added) (result : add_event SG L added ≡ some L') where
    -- A new edge leads from the added event to a waiting one that precedes it, or to the added
    -- event from a waiting one that it precedes.
    pub add_event-edges :
        (a b : ℕ)
        → 0 < SG.edges L'.forest a b
        → (0 < SG.edges L.forest a b)
          ⊎ ((added_index L added ≡ a) × Predecessor SG L.forest added b)
          ⊎ ((added_index L added ≡ b) × Follower SG L.forest added a)
    unfolding add_event
    add_event-edges a b h =
        let (s, q, inv) = search_lem SG L valid added comparable in
        let (g, G) = grown SG L valid added s inv in
        let (M, k, _, e) = insert_event_lem SG L valid added s inv g G in
        let same : M ≡ L' = ground (arith, q, k, result) in
        let forest : L'.forest ≡ g = ap (λ (x : ExecutionLattice SG). x.forest) (sym same) ∙ e in
        let h' : 0 < SG.edges g a b = subst (λ x. 0 < SG.edges x a b) forest h in
        let m = G.at_most a b in
        let i = added_index L added in
        elim (Bool-cases (ltb 0 (SG.edges L.forest a b))) [
          | inl old ↦ inl (ground (arith, old))
          | inr fresh ↦ elim (Bool-cases (i == a && ltb 0 (count b s.children))) [
            | inl c ↦ inr (
                inl
                  ((==_iff i a).0 (ground (arith, c)), inv.children_precede b (ground (arith, c))))
            | inr c ↦ elim (Bool-cases (i == b && ltb 0 (count a s.parents))) [
              | inl p ↦ inr (
                  inr (
                    (==_iff i b).0 (ground (arith, p)),
                    (inv.parents_wait a (ground (arith, p))).0,
                  ))
              | inr p ↦ absurd (ground (arith, fresh, c, p, m, h'))
            ]
          ]
        ]

    -- If an event is added to a valid lattice none of whose nodes holds an event, since all are
    -- executing, it goes to the run queue at once, whatever the order between it and them.
    pub add_event_while_executing :
        ((n : ℕ) (e : OperatorEvent C) → SG.node_weight L.forest n ≢ some (some e))
        → (SG.node_weight L'.forest (added_index L added) ≡ some (some added))
          × (count_index (added_index L added) L'.run_queue ≡ 1)
    add_event_while_executing executing =
        let i = added_index L added in
        let (M, q, v, w) = add_event-IsValid SG L added valid comparable in
        let same : M ≡ L' = ground (arith, q, result) in
        let v' = subst (IsValid SG) same v in
        let wi : SG.node_weight L'.forest i ≡ some (some added) =
          subst (λ (x : ExecutionLattice SG). SG.node_weight x.forest i ≡ some (some added)) same
            (let wm = w i in ground (arith, wm, ==_refl i)) in
        (
          wi,
          elim (subst (Status SG L'.forest i (count_index i L'.leaves) (count_index i L'.run_queue))
              wi (v'.0 i)) [
                | inl (_, r, _) ↦ r
                | inr (_, _, (b, edge)) ↦ elim (add_event-edges i b edge) [
                  | inl old ↦ absurd (
                      (SG.edge_present L.forest i b old).0
                        (SG.add_node-fresh L.forest (some added)))
                  | inr (inl (_, (e, we, _))) ↦ absurd (executing b e we)
                  | inr (inr (_, (e, we, _))) ↦ absurd (executing i e we)
                ]
              ],
        )
