-- ===== src/Lattice/Adding/Graphs.antt =====
-- The graph that `add_events` of src/node/lattice.rs builds from what its search found.
use erdos.Prelude.{
  ℕ, ◌+◌, ◌≤◌, ◌≡◌, ◌≢◌, refl, sym, ◌∙◌, List, [], ◌∷◌, Option, none, some, inl, inr, ◌==◌, ==_refl,
  Bool-cases, true, ◌&&◌, count, arith, if◌then◌else◌,
}
use mathlib.Core.Path.{subst}
use erdos.Event.{OperatorEvent}
use erdos.Lattice.{add_edges_to, add_edges_from, remove_edges}
use erdos.Lattice.Petgraph.{StableGraph}
use erdos.Lattice.Adding.Lists.{◌∈◌, NoRepeat}

pair_eq :
    (p x v y : ℕ) → (p == x && v == y) ≡ true → ◌≡◌ {A = Option (ℕ × ℕ)} (some (p, v)) (some (x, y))
pair_eq p x v y h = ground (arith, h)

module _ {C : Type 0} (SG : StableGraph (Option (OperatorEvent C))) where
  -- The nodes are the same, and no edge changes its ends.
  abbrev pub Extends : SG.Graph → SG.Graph → Type 0
  Extends g g' =
      ((n : ℕ) → SG.node_weight g' n ≡ SG.node_weight g n)
      × ((e : ℕ) (p : ℕ × ℕ) → SG.ends g e ≡ some p → SG.ends g' e ≡ some p)

  pub add_edges_to_lem :
      (i : ℕ) (cs : List ℕ) (g : SG.Graph)
      → SG.node_weight g i ≢ none
      → ((n : ℕ) → n ∈ cs → SG.node_weight g n ≢ none)
      → Extends g (add_edges_to SG i cs g)
        × ((a b : ℕ)
            → SG.edges (add_edges_to SG i cs g) a b
              ≡ SG.edges g a b + (if i == a then count b cs else 0))
  unfolding add_edges_to
  add_edges_to_lem i [] g w h = ((λ n. refl, λ e p d. d), λ a b. ground arith)
  add_edges_to_lem i (c ∷ cs) g w h =
      let g' = SG.add_edge g i c in
      let here = h c (ground (arith, ==_refl c)) in
      let ((wt, en), ed) =
        add_edges_to_lem i cs g' (subst (λ x. x ≢ none) (sym (SG.add_edge-weight g i c i)) w)
          (λ n m.
            subst (λ x. x ≢ none) (sym (SG.add_edge-weight g i c n)) (h n (ground (arith, m)))) in
      (
        (λ n. wt n ∙ SG.add_edge-weight g i c n, λ e p d. en e p (SG.add_edge-ends g i c e p d)),
        λ a b. let x = ed a b in let y = SG.add_edge-edges g i c a b w here in ground (arith, x, y),
      )

  pub add_edges_from_lem :
      (i : ℕ) (ps : List ℕ) (g : SG.Graph)
      → SG.node_weight g i ≢ none
      → ((n : ℕ) → n ∈ ps → SG.node_weight g n ≢ none)
      → Extends g (add_edges_from SG i ps g)
        × ((a b : ℕ)
            → SG.edges (add_edges_from SG i ps g) a b
              ≡ SG.edges g a b + (if i == b then count a ps else 0))
  unfolding add_edges_from
  add_edges_from_lem i [] g w h = ((λ n. refl, λ e p d. d), λ a b. ground arith)
  add_edges_from_lem i (c ∷ cs) g w h =
      let g' = SG.add_edge g c i in
      let here = h c (ground (arith, ==_refl c)) in
      let ((wt, en), ed) =
        add_edges_from_lem i cs g' (subst (λ x. x ≢ none) (sym (SG.add_edge-weight g c i i)) w)
          (λ n m.
            subst (λ x. x ≢ none) (sym (SG.add_edge-weight g c i n)) (h n (ground (arith, m)))) in
      (
        (λ n. wt n ∙ SG.add_edge-weight g c i n, λ e p d. en e p (SG.add_edge-ends g c i e p d)),
        λ a b. let x = ed a b in let y = SG.add_edge-edges g c i a b here w in ground (arith, x, y),
      )

  -- Removing edges, each once, succeeds, and takes only edges with their ends.
  pub remove_edges_lem :
      (es : List ℕ) (g : SG.Graph)
      → NoRepeat es
      → ((e : ℕ) → e ∈ es → (p v : ℕ) × (SG.ends g e ≡ some (p, v)))
      → (g' : SG.Graph) × (remove_edges SG es g ≡ some g')
        × ((n : ℕ) → SG.node_weight g' n ≡ SG.node_weight g n)
        × ((x y : ℕ) → SG.edges g' x y ≤ SG.edges g x y)
        × ((x y : ℕ)
            → ((e : ℕ) → e ∈ es → SG.ends g e ≢ some (x, y))
            → SG.edges g' x y ≡ SG.edges g x y)
  unfolding remove_edges
  remove_edges_lem [] g u h = (g, refl, λ n. refl, λ x y. omega arith, λ x y k. refl)
  remove_edges_lem (e ∷ es) g u h =
      let here : e ∈ (e ∷ es) = ground (arith, ==_refl e) in
      let (p, v, d) = h e here in
      let (g1, r, w, ed, en) = SG.remove_edge_lem g e p v d in
      let ne : (e' : ℕ) → e' ∈ es → e ≢ e' = λ e' m k.
        let ue = u e in
        let m' : e ∈ es = subst (λ j. j ∈ es) (sym k) m in ground (arith, ue, m', ==_refl e) in
      let (g2, r2, w2, le2, eq2) =
        remove_edges_lem es g1 (λ n. let un = u n in ground (arith, un))
          (λ e' m. let (p', v', d') = h e' (ground (arith, m)) in (p', v', en e' (ne e' m) ∙ d')) in
      (
        g2,
        ground (arith, r, r2),
        λ n. w2 n ∙ w n,
        λ x y. let a = le2 x y in let b = ed x y in omega (arith, a, b),
        λ x y k.
            let b = ed x y in
            let c = k e here in
            eq2 x y (λ e' m q. k e' (ground (arith, m)) (sym (en e' (ne e' m)) ∙ q))
            ∙ elim (Bool-cases (p == x && v == y)) [
              | inl z ↦ absurd (c (d ∙ pair_eq p x v y z))
              | inr z ↦ ground (arith, b, z)
            ],
      )
