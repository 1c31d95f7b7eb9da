-- ===== src/Lattice/Adding/Visits.antt =====
-- The body of the search's loop on valid lattices of src/node/lattice.rs: no branch panics.
use erdos.Prelude.{
  Ordering, ◌∙◌, ap, ℕ, ◌<◌, ◌≡◌, ◌≢◌, refl, List, ◌++◌, Option, none, some, inl, inr, ◌==◌, ==_iff,
  ==_refl, Bool-cases, Option-cases, Ordering-cases, Bool, true, false, length, insert_set, arith,
}
use mathlib.Core.Path.{subst}
use erdos.Event.{OperatorEvent, event_cmp}
use erdos.Lattice.{ExecutionLattice}
use erdos.Lattice.Petgraph.{StableGraph}
use erdos.Lattice.Runnable.{queued}
use erdos.Lattice.RunQueue.{count_index}
use erdos.Lattice.Complete.{blocked_event}
use erdos.Lattice.Promote.{no_outgoing-Free}
use erdos.Lattice.Invariant.{IsValid, Status, Free, Blocked, waiting-weight}
use erdos.Lattice.Search.{
  Scan, insert_all, any_in, followers, visit, visit_less, visit_equal, visit_greater, visit_event,
}
use erdos.Lattice.Adding.Lists.{◌∈◌, NoRepeat, count-queued, followers_lem, edges_to_lem}
use erdos.Lattice.Adding.Scans.{
  Follower, Predecessor, Waits, ScanInv, Fresh, add_parents-ScanInv, demote-ScanInv,
  add_child-ScanInv, skip-ScanInv, any_in-length,
}

module _ {C : Type 0} (SG : StableGraph (Option (OperatorEvent C))) where
  -- The added event and an event that waits are compared, either way, without a panic.
  abbrev pub Comparable : ExecutionLattice SG → OperatorEvent C → Type 0
  Comparable L added =
      (n : ℕ) (e : OperatorEvent C)
      → SG.node_weight L.forest n ≡ some (some e)
      → (event_cmp added e ≢ none) × (event_cmp e added ≢ none)

  module _ (L : ExecutionLattice SG) (valid : IsValid SG L) (added : OperatorEvent C)
      (comparable : Comparable L added) where
    incoming-Blocked :
        (v p : ℕ) → p ∈ SG.incoming L.forest v → Waits SG L.forest added p × Blocked SG L.forest p
    incoming-Blocked v p m =
        let edge : 0 < SG.edges L.forest p v =
          subst (λ n. 0 < n) (SG.count-incoming L.forest p v) m in
        let (e, w, _, _) =
          blocked_event SG L.forest p v (count_index p L.leaves) (count_index p L.run_queue)
            (SG.node_weight L.forest p) (valid.0 p) edge (SG.edge_present L.forest p v edge).0 in
        ((e, w), (v, edge))

    incoming-followers :
        (v : ℕ)
        → (qs : List ℕ) × (followers SG L.forest added (SG.incoming L.forest v) ≡ some qs)
          × NoRepeat qs
          × ((n : ℕ) → n ∈ qs → 0 < SG.edges L.forest n v)
          × ((n : ℕ) → n ∈ qs → Follower SG L.forest added n × Blocked SG L.forest n)
    incoming-followers v =
        let (qs, f, b, greater) = followers_lem SG L.forest added (SG.incoming L.forest v) (λ p m.
          let ((e, w), _) = incoming-Blocked v p m in
          (e, waiting-weight SG L.forest p e w, (comparable p e w).1)) in
        (
          qs,
          f,
          λ n.
              let bn = b n in
              let c = SG.count-incoming L.forest n v in
              let u = valid.1 n v in omega (arith, bn, c, u),
          λ n m. let bn = b n in let c = SG.count-incoming L.forest n v in omega (arith, bn, c, m),
          λ n m.
              let bn = b n in
              let ((e, w), blocked) = incoming-Blocked v n (omega (arith, bn, m)) in
              let (e', w', c) = greater n m in
              let same : e' ≡ e =
                let k = waiting-weight SG L.forest n e w in ground (arith, w', k) in
              ((e, w, inl (subst (λ x. event_cmp x added ≡ some Ordering.gt) same c)), blocked),
        )

    ready_in_queue :
        (v : ℕ) → Waits SG L.forest added v → Free SG L.forest v → v ∈ queued v L.run_queue
    ready_in_queue v (e, w) f =
        let c = count-queued v v L.run_queue in
        elim (subst (Status SG L.forest v (count_index v L.leaves) (count_index v L.run_queue)) w
          (valid.0 v)) [
            | inl (_, q, _) ↦ ground (arith, c, q, ==_refl v)
            | inr (_, _, (b, n)) ↦ let z = f b in absurd (omega (arith, z, n))
          ]

    visit_equal-ScanInv :
        (v : ℕ) (s : Scan SG)
        → ScanInv SG L.forest added s
        → (s' : Scan SG) × (visit_equal SG L.forest added v s ≡ some s')
          × ScanInv SG L.forest added s'
          × (s'.dfs_from_leaf ≡ s.dfs_from_leaf)
    unfolding visit_equal
    visit_equal-ScanInv v s i =
        let (qs, f, _, _, w) = incoming-followers v in
        (
          record s { parents = insert_all qs s.parents },
          ground (arith, f),
          add_parents-ScanInv SG L.forest added s qs i w,
          refl,
        )

    visit_less-ScanInv :
        (v : ℕ) (s : Scan SG)
        → ScanInv SG L.forest added s
        → (w : Waits SG L.forest added v) → event_cmp added w.0 ≡ some Ordering.lt
        → (s' : Scan SG) × (visit_less SG L.forest L.run_queue v s ≡ s')
          × ScanInv SG L.forest added s'
          × (s'.dfs_from_leaf ≡ s.dfs_from_leaf)
    unfolding visit_less
    visit_less-ScanInv v s i w c = elim (Bool-cases (length (SG.outgoing L.forest v) == 0)) [
      | inl h ↦
          let free =
            no_outgoing-Free SG L.forest v ((==_iff (length (SG.outgoing L.forest v)) 0).0 h) in
          (
            record s {
              parents = insert_set v s.parents;
              demoted_leaves = s.demoted_leaves ++ queued v L.run_queue;
            },
            ground (arith, h),
            demote-ScanInv SG L.forest added s v (queued v L.run_queue) i (w.0, w.1, inr c)
                (ready_in_queue v w free)
                (λ n m. let c = count-queued v n L.run_queue in ground (arith, c, m, ==_iff v n)),
            refl,
          )
      | inr h ↦ (s, ground (arith, h), i, refl)
    ]

    visit_greater-ScanInv :
        (v : ℕ) (s : Scan SG)
        → ScanInv SG L.forest added s
        → Predecessor SG L.forest added v
        → SG.emitted s.dfs_from_leaf v ≡ true
        → Fresh SG L.forest added v s
        → (s' : Scan SG) × (visit_greater SG L.forest added v s ≡ some s')
          × ScanInv SG L.forest added s'
          × (s'.dfs_from_leaf ≡ s.dfs_from_leaf)
    unfolding visit_greater
    visit_greater-ScanInv v s i w em fresh =
        let (qs, f, u, edge, wq) = incoming-followers v in
        let (es, k, ends, r) = edges_to_lem SG L.forest v qs u edge in
        (
          record s {
            children = insert_set v s.children;
            preceding_events = insert_set v s.preceding_events;
            parents = insert_all qs s.parents;
            redundant_edges = s.redundant_edges ++ es;
          },
          ground (arith, f, k),
          add_child-ScanInv SG L.forest added s v qs es i w em fresh r wq ends,
          refl,
        )

    visit_event-ScanInv :
        (v : ℕ) (weight : Option (OperatorEvent C)) (s : Scan SG)
        → SG.node_weight L.forest v ≡ some weight
        → ScanInv SG L.forest added s
        → SG.emitted s.dfs_from_leaf v ≡ true
        → Fresh SG L.forest added v s
        → (s' : Scan SG) × (visit_event SG L.forest L.run_queue added v weight s ≡ some s')
          × ScanInv SG L.forest added s'
          × (s'.dfs_from_leaf ≡ s.dfs_from_leaf)
    unfolding visit_event
    visit_event-ScanInv v none s h i em fresh = visit_equal-ScanInv v s i
    visit_event-ScanInv v (some e) s h i em fresh = elim (Option-cases (event_cmp added e)) [
      | inl k ↦ absurd ((comparable v e h).0 k)
      | inr (o, k) ↦ elim (Ordering-cases o) [
        | inl z ↦
            let (s', q, j, d) = visit_less-ScanInv v s i (e, h) (k ∙ ap some z) in
            (s', ground (arith, k, z, q), j, d)
        | inr (inl z) ↦
            let (s', q, j, d) = visit_equal-ScanInv v s i in (s', ground (arith, k, z, q), j, d)
        | inr (inr z) ↦
            let (s', q, j, d) = visit_greater-ScanInv v s i (e, h, k ∙ ap some z) em fresh in
            (s', ground (arith, k, z, q), j, d)
      ]
    ]

    -- One step of the search does not panic and keeps the invariant of its variables.
    pub visit-ScanInv :
        (v : ℕ) (s : Scan SG)
        → ScanInv SG L.forest added s
        → SG.node_weight L.forest v ≢ none
        → SG.emitted s.dfs_from_leaf v ≡ true
        → Fresh SG L.forest added v s
        → (s' : Scan SG) × (b : Bool) × (visit SG L.forest L.run_queue added v s ≡ some (s', b))
          × ScanInv SG L.forest added s'
          × (s'.dfs_from_leaf ≡ s.dfs_from_leaf)
    unfolding visit
    visit-ScanInv v s i w em fresh =
        elim (Bool-cases (any_in s.preceding_events (SG.incoming L.forest v))) [
          | inl h ↦ (
            record s { preceding_events = insert_set v s.preceding_events },
            true,
            ground (arith, h),
            skip-ScanInv SG L.forest added s v i
                (any_in-length s.preceding_events (SG.incoming L.forest v) h),
            refl,
          )
          | inr h ↦ elim (Option-cases (SG.node_weight L.forest v)) [
            | inl k ↦ absurd (w k)
            | inr (weight, k) ↦
                let (s', q, j, d) = visit_event-ScanInv v weight s k i em fresh in
                (s', false, ground (arith, h, k, q), j, d)
          ]
        ]
