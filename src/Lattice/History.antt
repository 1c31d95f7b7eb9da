-- ===== src/Lattice/History.antt =====
-- Histories of calls on the lattice of src/node/lattice.rs, in any order: the adding of events
-- as they arrive, and the executors that take events and report them completed.
use erdos.Prelude.{
  ℕ, ◌≡◌, ◌≢◌, refl, sym, ap, Option, none, some, inl, inr, ◌==◌, Bool-cases, Option-cases, ltb,
  arith,
}
use mathlib.Core.Path.{subst}
use erdos.Event.{OperatorEvent, event_cmp}
use erdos.Lattice.{ExecutionLattice, new, add_event, get_event, mark_as_completed}
use erdos.Lattice.Petgraph.{StableGraph}
use erdos.Lattice.Runnable.{pop}
use erdos.Lattice.Invariant.{IsValid, Status}
use erdos.Lattice.Taking.{get_event-IsValid, get_event-some, get_event-none}
use erdos.Lattice.Complete.{mark_as_completed-IsValid}
use erdos.Lattice.Adding.Visits.{Comparable}
use erdos.Lattice.Adding.Result.{add_event-IsValid}

some_eq {ℓ} : {A : Type ℓ} (x y : A) → some x ≡ some y → x ≡ y
some_eq x y h = cc

module _ {C : Type 0} (SG : StableGraph (Option (OperatorEvent C)))
    (P : OperatorEvent C → Type 0) where
  -- The states that calls lead to from the empty lattice, if `P` holds of all added events.
  -- Only events that were handed out are reported completed.
  pub data Reachable : ExecutionLattice SG → Type 0 where
    started : Reachable (new SG)
    added :
        (L L' : ExecutionLattice SG) (e : OperatorEvent C)
        → Reachable L
        → P e
        → add_event SG L e ≡ some L'
        → Reachable L'
    taken :
        (L L' : ExecutionLattice SG) (r : Option (OperatorEvent C × ℕ))
        → Reachable L
        → get_event SG L ≡ some (r, L')
        → Reachable L'
    completed :
        (L L' : ExecutionLattice SG) (id : ℕ)
        → Reachable L
        → SG.node_weight L.forest id ≡ some none
        → mark_as_completed SG L id ≡ some L'
        → Reachable L'

  -- All events that wait satisfy `P`.
  abbrev pub Waiting : ExecutionLattice SG → Type 0
  Waiting L = (n : ℕ) (e : OperatorEvent C) → SG.node_weight L.forest n ≡ some (some e) → P e

  new-IsValid : IsValid SG (new SG)
  new-IsValid = (
    λ i. subst (Status SG SG.new i 0 0) (sym (SG.new-weight i)) (refl, refl),
    λ a b. elim (Bool-cases (ltb 0 (SG.edges SG.new a b))) [
      | inl h ↦ absurd ((SG.edge_present SG.new a b (ground (arith, h))).0 (SG.new-weight a))
      | inr h ↦ ground (arith, h)
    ],
    tt,
  )

  get_event-Waiting :
      (L L' : ExecutionLattice SG) (r : Option (OperatorEvent C × ℕ))
      → IsValid SG L
      → get_event SG L ≡ some (r, L')
      → Waiting L
      → Waiting L'
  get_event-Waiting L L' r v h w n e k = elim (Option-cases (pop L.run_queue)) [
    | inl p ↦
        let same : L ≡ L' = let a = get_event-none SG L p in ground (arith, a, h) in
        w n e (
          subst (λ (M : ExecutionLattice SG). SG.node_weight M.forest n ≡ some (some e)) (sym same)
            k)
    | inr ((x, rest), p) ↦
        let (d, wx, _, q) = get_event-some SG L x rest v p in
        let s = SG.set_weight-weight L.forest x.node_index none n (ground (arith, wx)) in
        let same : record L { forest = SG.set_weight L.forest x.node_index none; run_queue = rest }
            ≡ L' =
          ground (arith, q, h) in
        let k' =
          subst (λ (M : ExecutionLattice SG). SG.node_weight M.forest n ≡ some (some e)) (sym same)
            k in
        w n e (ground (arith, s, k'))
  ]

  module _ (total : (x y : OperatorEvent C) → P x → P y → event_cmp x y ≢ none) where
    pub Waiting-Comparable :
        (L : ExecutionLattice SG) (e : OperatorEvent C) → Waiting L → P e → Comparable SG L e
    Waiting-Comparable L e w p n d k = (total e d p (w n d k), total d e (w n d k) p)

    -- Every state that calls lead to is valid.
    pub Reachable-IsValid : (L : ExecutionLattice SG) → Reachable L → IsValid SG L × Waiting L
    Reachable-IsValid L started =
        (new-IsValid, λ n e h. let z = SG.new-weight n in absurd (ground (arith, z, h)))
    Reachable-IsValid _ (added L L' e r p h) =
        let (v, w) = Reachable-IsValid L r in
        let (M, q, vM, wM) = add_event-IsValid SG L e v (Waiting-Comparable L e w p) in
        let same : M ≡ L' = ground (arith, q, h) in
        (
          subst (IsValid SG) same vM,
          subst Waiting same (λ n d k.
              let a = wM n in
              elim (Bool-cases ((SG.add_node L.forest (some e)).1 == n)) [
                | inl z ↦ let ed : e ≡ d = ground (arith, a, z, k) in subst P ed p
                | inr z ↦ w n d (ground (arith, a, z, k))
              ]),
        )
    Reachable-IsValid _ (taken L L' r h k) =
        let (v, w) = Reachable-IsValid L h in
        let (r2, M, q, vM, _) = get_event-IsValid SG L v in
        let same : M ≡ L' = ground (arith, q, k) in
        (subst (IsValid SG) same vM, get_event-Waiting L L' r v k w)
    Reachable-IsValid _ (completed L L' id h x k) =
        let (v, w) = Reachable-IsValid L h in
        let (M, q, vM, f) = mark_as_completed-IsValid SG L id v x in
        let same : M ≡ L' = ground (arith, q, k) in
        (
          subst (IsValid SG) same vM,
          subst Waiting same (λ n e z.
              let a = SG.remove_node-weight L.forest id n in
              let b = ap (λ g. SG.node_weight g n) f in w n e (ground (arith, a, b, z))),
        )

    -- Whatever the order of calls, if no two of the added events are in a circular conflict:
    -- the lattice is valid (each node is executing, or ready and queued, or blocked by another
    -- one), and the next call does not panic, be it the adding of an event, the taking of one,
    -- or the completion of one that is executing.
    pub Reachable-no_panic :
        (L : ExecutionLattice SG)
        → Reachable L
        → IsValid SG L
          × ((e : OperatorEvent C) → P e → add_event SG L e ≢ none)
          × (get_event SG L ≢ none)
          × ((id : ℕ) → SG.node_weight L.forest id ≡ some none → mark_as_completed SG L id ≢ none)
    Reachable-no_panic L r =
        let (v, w) = Reachable-IsValid L r in
        (
          v,
          λ e p z.
              let (M, q, _, _) = add_event-IsValid SG L e v (Waiting-Comparable L e w p) in
              ground (arith, q, z),
          λ z. let (_, M, q, _, _) = get_event-IsValid SG L v in ground (arith, q, z),
          λ id x z.
              let (M, q, _, _) = mark_as_completed-IsValid SG L id v x in ground (arith, q, z),
        )
