-- ===== src/Lattice/Adding/Insert.antt =====
-- The lattice that `insert_event` of src/node/lattice.rs builds: its lists and its graph.
use erdos.Prelude.{
  ℕ, suc, ◌+◌, ◌≤◌, ◌≡◌, ◌≢◌, sym, ap, ◌∙◌, List, [], ◌∷◌, Option, none, some, ◌⊎◌, inl, inr, All,
  ◌==◌, ==_iff, ==_refl, Bool-cases, Bool, true, false, count, contains, length, ltb, keep, arith,
  if◌then◌else◌,
}
use mathlib.Core.Path.{subst}
use erdos.Event.{OperatorEvent}
use erdos.Lattice.{ExecutionLattice, add_edges_to, add_edges_from, remove_edges}
use erdos.Lattice.Petgraph.{StableGraph}
use erdos.Lattice.Runnable.{RunnableEvent, not_in}
use erdos.Lattice.RunQueue.{count_index}
use erdos.Lattice.Invariant.{IsValid}
use erdos.Lattice.Search.{Scan}
use erdos.Lattice.Adding.Lists.{◌∈◌}
use erdos.Lattice.Adding.Scans.{ScanInv}
use erdos.Lattice.Adding.Graphs.{add_edges_to_lem, add_edges_from_lem, remove_edges_lem}

-- The entries that stay when leaves are demoted.
abbrev pub kept : List ℕ → List RunnableEvent → List RunnableEvent
kept ds xs = if ltb 0 (length ds) then keep (not_in ds) xs else xs

count-kept_some :
    (n : ℕ) (ds : List ℕ) (xs : List RunnableEvent)
    → count_index n (keep (not_in ds) xs) ≡ (if contains ds n then 0 else count_index n xs)
count-kept_some n ds [] = ground arith
count-kept_some n ds (x ∷ xs) = elim (Bool-cases (x.node_index == n)) [
  | inl p ↦
      let same : contains ds x.node_index ≡ contains ds n =
        ap (contains ds) ((==_iff x.node_index n).0 p) in
      ground (arith, count-kept_some n ds xs, p, same)
  | inr p ↦ ground (arith, count-kept_some n ds xs, p)
]

pub count-kept :
    (n : ℕ) (ds : List ℕ) (xs : List RunnableEvent)
    → count_index n (kept ds xs) ≡ (if contains ds n then 0 else count_index n xs)
count-kept n [] xs = ground arith
count-kept n (d ∷ ds) xs = ground (arith, count-kept_some n (d ∷ ds) xs)

All-keep {κ} :
    (P : RunnableEvent → Type κ) (ds : List ℕ) (xs : List RunnableEvent)
    → All P xs
    → All P (keep (not_in ds) xs)
All-keep P ds [] h = tt
All-keep P ds (x ∷ xs) (p, h) = let r = All-keep P ds xs h in ground (arith, p, r)

All-if {κ} :
    (P : RunnableEvent → Type κ) (c : Bool) (xs ys : List RunnableEvent)
    → All P xs
    → All P ys
    → All P (if c then xs else ys)
All-if P true xs ys h k = h
All-if P false xs ys h k = k

pub All-kept {κ} :
    (P : RunnableEvent → Type κ) (ds : List ℕ) (xs : List RunnableEvent)
    → All P xs
    → All P (kept ds xs)
All-kept P [] xs h = h
All-kept P (d ∷ ds) xs h =
    All-if P (ltb 0 (suc (length ds))) (keep (not_in (d ∷ ds)) xs) xs (All-keep P (d ∷ ds) xs h) h

module _ {C : Type 0} (SG : StableGraph (Option (OperatorEvent C))) where
  -- How many edges the new node's dependencies account for.
  abbrev pub more : ℕ → Scan SG → ℕ → ℕ → ℕ
  more i s a b =
      (if i == a then count b s.children else 0) + (if i == b then count a s.parents else 0)

  module _ (L : ExecutionLattice SG) (valid : IsValid SG L) (added : OperatorEvent C) (s : Scan SG)
      (inv : ScanInv SG L.forest added s) where
    abbrev pub g0 : SG.Graph
    g0 = (SG.add_node L.forest (some added)).0

    abbrev pub new : ℕ
    new = (SG.add_node L.forest (some added)).1

    abbrev pub g2 : SG.Graph
    g2 = add_edges_from SG new s.parents (add_edges_to SG new s.children g0)

    pub absent : SG.node_weight L.forest new ≡ none
    absent = SG.add_node-fresh L.forest (some added)

    pub no_edges : (b : ℕ) → (SG.edges L.forest new b ≡ 0) × (SG.edges L.forest b new ≡ 0)
    no_edges b = (
      elim (Bool-cases (ltb 0 (SG.edges L.forest new b))) [
        | inl h ↦ absurd ((SG.edge_present L.forest new b (ground (arith, h))).0 absent)
        | inr h ↦ ground (arith, h)
      ],
      elim (Bool-cases (ltb 0 (SG.edges L.forest b new))) [
        | inl h ↦ absurd ((SG.edge_present L.forest b new (ground (arith, h))).1 absent)
        | inr h ↦ ground (arith, h)
      ],
    )

    pub not_parent : count new s.parents ≡ 0
    not_parent = elim (Bool-cases (ltb 0 (count new s.parents))) [
      | inl h ↦
          let ((e, w, _), _) = inv.parents_wait new (ground (arith, h)) in
          absurd (ground (arith, w, absent))
      | inr h ↦ ground (arith, h)
    ]

    g0-there : (n : ℕ) → SG.node_weight L.forest n ≢ none → SG.node_weight g0 n ≢ none
    g0-there n h = let w = SG.add_node-weight L.forest (some added) n in ground (arith, w, h)

    child-there : (n : ℕ) → n ∈ s.children → SG.node_weight L.forest n ≢ none
    child-there n m = let (e, w, _) = inv.children_precede n m in ground (arith, w)

    g0-new : SG.node_weight g0 new ≢ none
    g0-new = let w = SG.add_node-weight L.forest (some added) new in ground (arith, w, ==_refl new)

    linked :
        ((n : ℕ) → SG.node_weight g2 n ≡ SG.node_weight g0 n)
        × ((e : ℕ) (p : ℕ × ℕ) → SG.ends L.forest e ≡ some p → SG.ends g2 e ≡ some p)
        × ((a b : ℕ) → SG.edges g2 a b ≡ SG.edges L.forest a b + more new s a b)
    linked =
        let ((w1, n1), e1) =
          add_edges_to_lem SG new s.children g0 g0-new (λ n m. g0-there n (child-there n m)) in
        let ((w2, n2), e2) =
          add_edges_from_lem SG new s.parents (add_edges_to SG new s.children g0)
            (subst (λ x. x ≢ none) (sym (w1 new)) g0-new)
            (λ n m.
              let ((e, w, _), _) = inv.parents_wait n m in
              subst (λ x. x ≢ none) (sym (w1 n)) (g0-there n (ground (arith, w)))) in
        (
          λ n. w2 n ∙ w1 n,
          λ e p d. n2 e p (n1 e p (SG.add_node-ends L.forest (some added) e p d)),
          λ a b.
              let x = e1 a b in
              let y = e2 a b in
              let z = SG.add_node-edges L.forest (some added) a b in omega (arith, x, y, z),
        )

    -- Redundant edges lead from parents to nodes that were there before.
    redundant_ends :
        (e x y : ℕ)
        → e ∈ s.redundant_edges
        → SG.ends g2 e ≡ some (x, y)
        → (x ∈ s.parents) × (new ≢ y)
    redundant_ends e x y m d =
        let (p, v, dp, mp, w, _) = inv.redundant e m in
        let dp' = linked.1 e (p, v) dp in
        let px : p ≡ x = ground (arith, d, dp') in
        let vy : v ≡ y = ground (arith, d, dp') in
        (
          subst (λ j. j ∈ s.parents) px mp,
          λ k. w (subst (λ j. SG.node_weight L.forest j ≡ none) (k ∙ sym vy) absent),
        )

    -- The new graph.
    pub record Grown (g : SG.Graph) : Type 0 where
      pub removed : remove_edges SG s.redundant_edges g2 ≡ some g
      pub weight :
          (n : ℕ)
          → SG.node_weight g n ≡ (if new == n then some (some added) else SG.node_weight L.forest n)
      pub at_most : (a b : ℕ) → SG.edges g a b ≤ SG.edges L.forest a b + more new s a b
      pub exactly :
          (a b : ℕ)
          → (count a s.parents ≡ 0) ⊎ (new ≡ b)
          → SG.edges g a b ≡ SG.edges L.forest a b + more new s a b

    pub grown : (g : SG.Graph) × Grown g
    grown =
        let (g, r, w, le, eq) =
          remove_edges_lem SG s.redundant_edges g2 inv.redundant_once
            (λ e m. let (p, v, d, _, _, _) = inv.redundant e m in (p, v, linked.1 e (p, v) d)) in
        (
          g,
          record {
            removed = r;
            weight = λ n. w n ∙ linked.0 n ∙ SG.add_node-weight L.forest (some added) n;
            at_most = λ a b. let x = le a b in let y = linked.2 a b in omega (arith, x, y);
            exactly = λ a b k.
                eq a b (λ e m d.
                  let (mp, ne) = redundant_ends e a b m d in
                  elim k [ inl z ↦ omega (arith, z, mp) | inr z ↦ ne z ])
                ∙ linked.2 a b;
          },
        )
