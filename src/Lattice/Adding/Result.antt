-- ===== src/Lattice/Adding/Result.antt =====
-- `add_event` of src/node/lattice.rs does not panic and keeps the lattice valid.
use erdos.Prelude.{
  ℕ, ◌≤◌, ◌≡◌, refl, ap, ◌∙◌, List, [], ◌∷◌, ◌++◌, Option, none, some, inl, inr, All, All-map, ◌==◌,
  ==_iff, ==_refl, Bool-cases, false, count, length, ltb, arith, if◌then◌else◌,
}
use mathlib.Core.Path.{subst}
use erdos.Event.{OperatorEvent}
use erdos.Lattice.{ExecutionLattice, add_event, insert_event}
use erdos.Lattice.Petgraph.{StableGraph}
use erdos.Lattice.Runnable.{RunnableEvent, with_timestamp}
use erdos.Lattice.RunQueue.{count_index}
use erdos.Lattice.Promote.{count_index-append}
use erdos.Lattice.Invariant.{IsValid, Status, Statuses, Queued}
use erdos.Lattice.Search.{Scan}
use erdos.Lattice.Adding.Lists.{◌∈◌}
use erdos.Lattice.Adding.Scans.{ScanInv}
use erdos.Lattice.Adding.Visits.{Comparable}
use erdos.Lattice.Adding.Walk.{search_lem}
use erdos.Lattice.Adding.Insert.{All-kept, no_edges, not_parent, absent, Grown, grown}
use erdos.Lattice.Adding.AddEvent.{
  leaves', queue', parent-Status, other-Status, new-blocked, new-ready,
}

module _ {C : Type 0} (SG : StableGraph (Option (OperatorEvent C))) where
  module _ (L : ExecutionLattice SG) (valid : IsValid SG L) (added : OperatorEvent C) (s : Scan SG)
      (inv : ScanInv SG L.forest added s) (g : SG.Graph) (G : Grown SG L valid added s inv g) where
    abbrev i : ℕ
    i = (SG.add_node L.forest (some added)).1

    abbrev x : RunnableEvent
    x = with_timestamp i added.timestamp

    abbrev ls : List RunnableEvent
    ls = leaves' SG L valid added s inv g G

    abbrev rq : List RunnableEvent
    rq = queue' SG L valid added s inv g G

    old-Status :
        (n l q : ℕ)
        → (i == n) ≡ false
        → l ≡ count_index n ls
        → q ≡ count_index n rq
        → Status SG g n l q (SG.node_weight g n)
    old-Status n l q k el eq = elim (Bool-cases (ltb 0 (count n s.parents))) [
      | inl h ↦ parent-Status SG L valid added s inv g G n l q (ground (arith, h)) el eq
      | inr h ↦ other-Status SG L valid added s inv g G n l q k (ground (arith, h)) el eq
    ]

    -- With the new node, or without it, in the lists.
    runnable-Statuses :
        ((n : ℕ) → count n s.children ≡ 0)
        → Statuses SG (record { forest = g; leaves = ls ++ (x ∷ []); run_queue = x ∷ rq })
    runnable-Statuses none_in n =
        let a = count_index-append n ls (x ∷ []) in
        elim (Bool-cases (i == n)) [
          | inl k ↦
              let a' = count_index-append i ls (x ∷ []) in
              subst
                (λ j.
                  Status SG g j (count_index j (ls ++ (x ∷ []))) (count_index j (x ∷ rq))
                    (SG.node_weight g j))
                ((==_iff i n).0 k)
                (new-ready SG L valid added s inv g G (count_index i (ls ++ (x ∷ [])))
                  (count_index i (x ∷ rq)) none_in (ground (arith, a', ==_refl i))
                  (ground (arith, ==_refl i)))
          | inr k ↦
              old-Status n (count_index n (ls ++ (x ∷ []))) (count_index n (x ∷ rq)) k
                (ground (arith, a, k)) (ground (arith, k))
        ]

    blocked-Statuses :
        (c : ℕ) → c ∈ s.children → Statuses SG (record { forest = g; leaves = ls; run_queue = rq })
    blocked-Statuses c m n = elim (Bool-cases (i == n)) [
      | inl k ↦
          subst (λ j. Status SG g j (count_index j ls) (count_index j rq) (SG.node_weight g j))
            ((==_iff i n).0 k)
            (new-blocked SG L valid added s inv g G c (count_index i ls) (count_index i rq) m refl
              refl)
      | inr k ↦ old-Status n (count_index n ls) (count_index n rq) k refl refl
    ]

    simple : (a b : ℕ) → SG.edges g a b ≤ 1
    simple a b =
        let m = G.at_most a b in
        let u = valid.1 a b in
        let c = inv.children_once b in
        let p = inv.parents_once a in
        let (out, _) = no_edges SG L valid added s inv b in
        let (_, into) = no_edges SG L valid added s inv a in
        elim (Bool-cases (i == a)) [
          | inl k ↦
              let e = (==_iff i a).0 k in
              let out' = subst (λ j. SG.edges L.forest j b ≡ 0) e out in
              let p' = subst (λ j. count j s.parents ≡ 0) e (not_parent SG L valid added s inv) in
              ground (arith, m, c, out', p')
          | inr k ↦ elim (Bool-cases (i == b)) [
            | inl h ↦
                let into' = subst (λ j. SG.edges L.forest a j ≡ 0) ((==_iff i b).0 h) into in
                ground (arith, m, p, k, into')
            | inr h ↦ ground (arith, m, k, h, u)
          ]
        ]

    Queued-grown : (y : RunnableEvent) → Queued SG L.forest y → Queued SG g y
    Queued-grown y (e, w, t) =
        let wg = G.weight y.node_index in
        (
          e,
          elim (Bool-cases (i == y.node_index)) [
            | inl k ↦
                let z =
                  subst (λ j. SG.node_weight L.forest j ≡ none) ((==_iff i y.node_index).0 k)
                    (absent SG L valid added s inv) in
                absurd (ground (arith, w, z))
            | inr k ↦ ground (arith, wg, w, k)
          ],
          t,
        )

    Queued-kept : All (Queued SG g) rq
    Queued-kept =
        All-kept (Queued SG g) s.demoted_leaves L.run_queue
          (All-map (Queued SG L.forest) (Queued SG g) L.run_queue Queued-grown valid.2)

    pub insert_event_lem :
        (L' : ExecutionLattice SG) × (insert_event SG L added s ≡ some L')
        × IsValid SG L'
        × (L'.forest ≡ g)
    unfolding insert_event
    insert_event_lem = elim inv.preceding [
      | inl (z, none_in) ↦ (
        record { forest = g; leaves = ls ++ (x ∷ []); run_queue = x ∷ rq },
        rw (G.removed, z, insert_event) refl,
        (
          runnable-Statuses none_in,
          simple,
          ((added, let w = G.weight i in ground (arith, w, ==_refl i), refl), Queued-kept),
        ),
        refl,
      )
      | inr (z, c, m) ↦ (
        record { forest = g; leaves = ls; run_queue = rq },
        let f : (length s.preceding_events == 0) ≡ false = ground (arith, z) in
            rw (G.removed, f, insert_event) refl,
        (blocked-Statuses c m, simple, Queued-kept),
        refl,
      )
    ]

  -- Adding an event to a valid lattice does not panic, and the search does not run out of fuel,
  -- if comparing it with the waiting events does not panic. The lattice stays valid, and its
  -- nodes are the old ones and a new one with the event.
  pub add_event-IsValid :
      (L : ExecutionLattice SG) (added : OperatorEvent C)
      → IsValid SG L
      → Comparable SG L added
      → (L' : ExecutionLattice SG) × (add_event SG L added ≡ some L')
        × IsValid SG L'
        × ((n : ℕ)
            → SG.node_weight L'.forest n ≡ (
                if (SG.add_node L.forest (some added)).1 == n
                then some (some added)
                else SG.node_weight L.forest n))
  unfolding add_event
  add_event-IsValid L added v c =
      let (s, q, inv) = search_lem SG L v added c in
      let (g, G) = grown SG L v added s inv in
      let (L', k, v', e) = insert_event_lem L v added s inv g G in
      (L', ground (arith, q, k), v', λ n. ap (λ h. SG.node_weight h n) e ∙ G.weight n)
