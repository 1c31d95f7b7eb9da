-- ===== src/Lattice/Justified.antt =====
-- The dependencies in src/node/lattice.rs are between events that must not run in another order.
use erdos.Prelude.{
  ℕ, ◌<◌, ◌≡◌, ◌≢◌, sym, ap, ◌∙◌, Option, none, some, ◌⊎◌, inl, inr, Ordering, ◌==◌, ==_iff,
  Bool-cases, Option-cases, arith, if◌then◌else◌,
}
use mathlib.Core.Path.{subst}
use erdos.Event.{OperatorEvent, event_cmp}
use erdos.Lattice.{ExecutionLattice, new, add_event, get_event}
use erdos.Lattice.Petgraph.{StableGraph}
use erdos.Lattice.Runnable.{pop}
use erdos.Lattice.Invariant.{IsValid, Statuses-taken}
use erdos.Lattice.Taking.{get_event-some, get_event-none}
use erdos.Lattice.Complete.{mark_as_completed-IsValid}
use erdos.Lattice.Adding.Visits.{Comparable}
use erdos.Lattice.Adding.Result.{add_event-IsValid}
use erdos.Lattice.Adding.Edges.{added_index, add_event-edges}
use erdos.Lattice.History.{
  Reachable, started, added, taken, completed, Waiting-Comparable, Reachable-IsValid,
}

module _ {C : Type 0} (SG : StableGraph (Option (OperatorEvent C))) where
  abbrev pub Follows : OperatorEvent C → OperatorEvent C → Type 0
  Follows x y = (event_cmp x y ≡ some Ordering.gt) ⊎ (event_cmp y x ≡ some Ordering.lt)

  -- Every edge leads from an event that waits, to one that executes or that it follows.
  abbrev pub Justified : ExecutionLattice SG → Type 0
  Justified L =
      (a b : ℕ)
      → 0 < SG.edges L.forest a b
      → (x : OperatorEvent C) × (SG.node_weight L.forest a ≡ some (some x))
        × ((y : OperatorEvent C) → SG.node_weight L.forest b ≡ some (some y) → Follows x y)

  module _ (L L' : ExecutionLattice SG) (e : OperatorEvent C) (v : IsValid SG L)
      (c : Comparable SG L e) (r : add_event SG L e ≡ some L') where
    weights :
        (n : ℕ)
        → SG.node_weight L'.forest n
          ≡ (if added_index SG L e == n then some (some e) else SG.node_weight L.forest n)
    weights =
        let (M, q, _, w) = add_event-IsValid SG L e v c in
        let same : M ≡ L' = ground (arith, q, r) in
        subst
          (λ (x : ExecutionLattice SG).
            (n : ℕ)
            → SG.node_weight x.forest n
              ≡ (if added_index SG L e == n then some (some e) else SG.node_weight L.forest n))
          same w

    old-weight :
        (n : ℕ)
        → SG.node_weight L.forest n ≢ none
        → SG.node_weight L'.forest n ≡ SG.node_weight L.forest n
    old-weight n h =
        let w = weights n in
        elim (Bool-cases (added_index SG L e == n)) [
          | inl k ↦ absurd (
              h (
                subst (λ j. SG.node_weight L.forest j ≡ none) ((==_iff (added_index SG L e) n).0 k)
                  (SG.add_node-fresh L.forest (some e))))
          | inr k ↦ ground (arith, w, k)
        ]

    new-weight : (n : ℕ) → added_index SG L e ≡ n → SG.node_weight L'.forest n ≡ some (some e)
    new-weight n k =
        let w = weights n in let z = (==_iff (added_index SG L e) n).1 k in ground (arith, w, z)

    add_event-Justified : Justified L → Justified L'
    add_event-Justified j a b h = elim (add_event-edges SG L L' e v c r a b h) [
      | inl old ↦
          let (x, wx, f) = j a b old in
          let (pa, pb) = SG.edge_present L.forest a b old in
          (x, old-weight a pa ∙ wx, λ y wy. f y (sym (old-weight b pb) ∙ wy))
      | inr (inl (k, (x, wx, gt))) ↦
          let there : SG.node_weight L.forest b ≢ none = ground (arith, wx) in
          let wb = old-weight b there in
          (
            e,
            new-weight a k,
            λ y wy.
                let xy : x ≡ y = ground (arith, wb, wx, wy) in
                inl (subst (λ z. event_cmp e z ≡ some Ordering.gt) xy gt),
          )
      | inr (inr (k, (x, wx, f))) ↦
          let there : SG.node_weight L.forest a ≢ none = ground (arith, wx) in
          let wb = new-weight b k in
          (
            x,
            old-weight a there ∙ wx,
            λ y wy. let ey : e ≡ y = ground (arith, wb, wy) in subst (Follows x) ey f,
          )
    ]

  get_event-Justified :
      (L L' : ExecutionLattice SG) (r : Option (OperatorEvent C × ℕ))
      → IsValid SG L
      → get_event SG L ≡ some (r, L')
      → Justified L
      → Justified L'
  get_event-Justified L L' r v h j = elim (Option-cases (pop L.run_queue)) [
    | inl p ↦
        let same : L ≡ L' = let a = get_event-none SG L p in ground (arith, a, h) in
        subst Justified same j
    | inr ((x, rest), p) ↦
        let (d, wx, _, q) = get_event-some SG L x rest v p in
        let free = (Statuses-taken SG L x rest d v wx p).1 in
        let there : SG.node_weight L.forest x.node_index ≢ none = ground (arith, wx) in
        let same : record L { forest = SG.set_weight L.forest x.node_index none; run_queue = rest }
            ≡ L' =
          ground (arith, q, h) in
        subst Justified same (λ a b edge.
          let edge' : 0 < SG.edges L.forest a b =
            subst (λ n. 0 < n) (SG.set_weight-edges L.forest x.node_index none a b) edge in
          let (y, wy, f) = j a b edge' in
          let sa = SG.set_weight-weight L.forest x.node_index none a there in
          let sb = SG.set_weight-weight L.forest x.node_index none b there in
          (
            y,
            elim (Bool-cases (x.node_index == a)) [
              | inl k ↦
                  let z =
                    subst (λ i. SG.edges L.forest i b ≡ 0) ((==_iff x.node_index a).0 k) (free b) in
                  absurd (ground (arith, z, edge'))
              | inr k ↦ ground (arith, sa, wy, k)
            ],
            λ u wu. f u (ground (arith, sb, wu)),
          ))
  ]

  mark_as_completed-Justified :
      (L : ExecutionLattice SG) (id a b : ℕ)
      → Justified L
      → 0 < SG.edges (SG.remove_node L.forest id) a b
      → (x : OperatorEvent C) × (SG.node_weight (SG.remove_node L.forest id) a ≡ some (some x))
        × ((y : OperatorEvent C)
            → SG.node_weight (SG.remove_node L.forest id) b ≡ some (some y)
            → Follows x y)
  mark_as_completed-Justified L id a b j h =
      let e = SG.remove_node-edges L.forest id a b in
      let sa = SG.remove_node-weight L.forest id a in
      let sb = SG.remove_node-weight L.forest id b in
      let (x, wx, f) = j a b (ground (arith, e, h)) in
      (x, ground (arith, e, h, sa, wx), λ y wy. f y (ground (arith, sb, wy)))

  new-Justified : Justified (new SG)
  new-Justified a b h = absurd ((SG.edge_present SG.new a b h).0 (SG.new-weight a))

  module _ (P : OperatorEvent C → Type 0)
      (total : (x y : OperatorEvent C) → P x → P y → event_cmp x y ≢ none) where
    -- In every state that calls lead to, if no two of the added events are in a circular
    -- conflict: a dependency is always that of an event that waits, and it is on a node that
    -- executes, or on an event that must run first: comparing with it gives `Greater`, or
    -- comparing it with the dependent event gives `Less`.
    pub Reachable-Justified : (L : ExecutionLattice SG) → Reachable SG P L → Justified L
    Reachable-Justified _ started = new-Justified
    Reachable-Justified _ (added L L' e r p h) =
        let (v, w) = Reachable-IsValid SG P total L r in
        add_event-Justified L L' e v (Waiting-Comparable SG P total L e w p) h
          (Reachable-Justified L r)
    Reachable-Justified _ (taken L L' r h k) =
        let (v, w) = Reachable-IsValid SG P total L h in
        get_event-Justified L L' r v k (Reachable-Justified L h)
    Reachable-Justified _ (completed L L' id h x k) =
        let (v, w) = Reachable-IsValid SG P total L h in
        let (M, q, _, f) = mark_as_completed-IsValid SG L id v x in
        let same : M ≡ L' = ground (arith, q, k) in
        let j = Reachable-Justified L h in
        subst Justified same (λ a b edge.
          let (y, wy, g) =
            mark_as_completed-Justified L id a b j (subst (λ t. 0 < SG.edges t a b) f edge) in
          (
            y,
            ap (λ t. SG.node_weight t a) f ∙ wy,
            λ u wu. g u (sym (ap (λ t. SG.node_weight t b) f) ∙ wu),
          ))
