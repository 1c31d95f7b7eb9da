-- ===== src/Lattice/Adding/Walk.antt =====
-- The search of src/node/lattice.rs as a whole: its fuel is enough, since each step emits a
-- node that was not emitted before.
use erdos.Prelude.{
  ℕ, zero, suc, ◌<◌, ◌≡◌, ◌≢◌, refl, sym, ◌∙◌, List, [], ◌∷◌, Option, none, some, inl, inr, ==_refl,
  Bool-cases, Option-cases, true, arith, All,
}
use mathlib.Core.Path.{subst}
use erdos.Event.{OperatorEvent}
use erdos.Lattice.{ExecutionLattice}
use erdos.Lattice.Petgraph.{StableGraph}
use erdos.Lattice.Runnable.{RunnableEvent}
use erdos.Lattice.RunQueue.{count_index}
use erdos.Lattice.Invariant.{IsValid, Status}
use erdos.Lattice.Search.{Scan, walk, search, start}
use erdos.Lattice.Adding.Scans.{ScanInv}
use erdos.Lattice.Adding.Visits.{Comparable, visit-ScanInv}

module _ {C : Type 0} (SG : StableGraph (Option (OperatorEvent C))) where
  -- The search moves on, and what was emitted stays so.
  move-ScanInv :
      (g : SG.Graph) (added : OperatorEvent C) (s : Scan SG) (dfs : SG.Dfs)
      → ScanInv SG g added s
      → SG.Within g dfs
      → ((m : ℕ) → SG.emitted s.dfs_from_leaf m ≡ true → SG.emitted dfs m ≡ true)
      → ScanInv SG g added (record s { dfs_from_leaf = dfs })
  move-ScanInv g added s dfs i w h = record {
    within = w;
    parents_once = i.parents_once;
    children_once = i.children_once;
    parents_wait = i.parents_wait;
    demoted_parents = i.demoted_parents;
    children_precede = i.children_precede;
    preceding = i.preceding;
    redundant_once = i.redundant_once;
    redundant = λ e m. let (p, v, d, mp, wv, em) = i.redundant e m in (p, v, d, mp, wv, h v em);
  }

  start-ScanInv : (g : SG.Graph) (added : OperatorEvent C) → ScanInv SG g added (start SG g)
  start-ScanInv g added = record {
    within = SG.dfs_empty-Within g;
    parents_once = λ n. omega arith;
    children_once = λ n. omega arith;
    parents_wait = λ n m. absurd (omega (arith, m));
    demoted_parents = λ n m. absurd (omega (arith, m));
    children_precede = λ n m. absurd (omega (arith, m));
    preceding = inl (refl, λ n. refl);
    redundant_once = λ n. omega arith;
    redundant = λ e m. absurd (omega (arith, m));
  }

  module _ (L : ExecutionLattice SG) (valid : IsValid SG L) (added : OperatorEvent C)
      (comparable : Comparable SG L added) where
    walk-ScanInv :
        (fuel : ℕ) (s : Scan SG)
        → ScanInv SG L.forest added s
        → SG.remaining L.forest s.dfs_from_leaf < fuel
        → (s' : Scan SG) × (walk SG fuel L.forest L.run_queue added s ≡ some s')
          × ScanInv SG L.forest added s'
    unfolding walk
    walk-ScanInv zero s i b = absurd (omega (arith, b))
    walk-ScanInv (suc fuel) s i b = elim (Option-cases (SG.next L.forest s.dfs_from_leaf)) [
      | inl h ↦ (s, ground (arith, h), i)
      | inr ((v, dfs), h) ↦
          let (w, there, less, unseen, seen) =
            SG.next_lem L.forest s.dfs_from_leaf dfs v i.within h in
          let j =
            move-ScanInv L.forest added s dfs i w (λ m e. let k = seen m in ground (arith, k, e)) in
          let now : SG.emitted dfs v ≡ true = let k = seen v in ground (arith, k, ==_refl v) in
          let (s', c, q, j', d) =
            visit-ScanInv SG L valid added comparable v (record s { dfs_from_leaf = dfs }) j there
              now
              (λ e p x m ends same.
                let (p', x', ends', _, _, em) = i.redundant e m in
                let xx : x ≡ x' = ground (arith, ends, ends') in
                let em' : SG.emitted s.dfs_from_leaf v ≡ true =
                  subst (λ k. SG.emitted s.dfs_from_leaf k ≡ true) (sym xx ∙ same) em in
                absurd (ground (arith, em', unseen))) in
          elim (Bool-cases c) [
            | inl z ↦ (s', ground (arith, h, q, z), j')
            | inr z ↦
                let left : SG.remaining L.forest s'.dfs_from_leaf < fuel =
                  subst (λ k. SG.remaining L.forest k < fuel) (sym d) (omega (arith, less, b)) in
                let (s2, q2, j2) = walk-ScanInv fuel s' j' left in
                (s2, ground (arith, h, q, z, q2), j2)
          ]
    ]

    -- All leaves are nodes of the graph.
    abbrev pub Present : List RunnableEvent → Type 0
    Present xs = All (λ x. SG.node_weight L.forest x.node_index ≢ none) xs

    search-ScanInv :
        (leaves : List RunnableEvent) (s : Scan SG)
        → Present leaves
        → ScanInv SG L.forest added s
        → (s' : Scan SG) × (search SG L.forest L.run_queue added leaves s ≡ some s')
          × ScanInv SG L.forest added s'
    unfolding search
    search-ScanInv [] s p i = (s, refl, i)
    search-ScanInv (leaf ∷ leaves) s p i =
        let dfs = SG.move_to s.dfs_from_leaf leaf.node_index in
        let j =
          move-ScanInv L.forest added s dfs i
            (SG.move_to-Within L.forest s.dfs_from_leaf leaf.node_index i.within p.0)
            (λ m e. SG.move_to-emitted s.dfs_from_leaf leaf.node_index m ∙ e) in
        let (s', q, j') =
          walk-ScanInv (suc (SG.remaining L.forest dfs)) (record s { dfs_from_leaf = dfs }) j
            (omega arith) in
        let (s2, q2, j2) = search-ScanInv leaves s' p.1 j' in (s2, ground (arith, q, q2), j2)

    in_leaves-Present :
        (xs : List RunnableEvent)
        → ((i : ℕ) → 0 < count_index i xs → SG.node_weight L.forest i ≢ none)
        → Present xs
    in_leaves-Present [] h = tt
    in_leaves-Present (x ∷ xs) h = (
      h x.node_index (ground (arith, ==_refl x.node_index)),
      in_leaves-Present xs (λ i m. h i (ground (arith, m))),
    )

    leaf-there : (i : ℕ) → 0 < count_index i L.leaves → SG.node_weight L.forest i ≢ none
    leaf-there i m z =
        let s =
          subst (Status SG L.forest i (count_index i L.leaves) (count_index i L.run_queue)) z
            (valid.0 i) in
        absurd (omega (arith, s.0, m))

    -- The search over all leaves of a valid lattice does not panic and does not run out of
    -- fuel.
    pub search_lem :
        (s : Scan SG) × (search SG L.forest L.run_queue added L.leaves (start SG L.forest) ≡ some s)
        × ScanInv SG L.forest added s
    search_lem =
        search-ScanInv L.leaves (start SG L.forest) (in_leaves-Present L.leaves leaf-there)
          (start-ScanInv L.forest added)
