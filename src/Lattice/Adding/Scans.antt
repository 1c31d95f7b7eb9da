-- ===== src/Lattice/Adding/Scans.antt =====
-- What the search of src/node/lattice.rs keeps true of its local variables.
use erdos.Prelude.{
  ℕ, ◌≤◌, ◌<◌, ◌≡◌, ◌≢◌, refl, List, [], ◌∷◌, ◌++◌, Option, none, some, ◌⊎◌, inl, inr, Bool-cases,
  true, Ordering, count, count-append, insert_set, length, ltb, arith,
}
use mathlib.Core.Path.{subst}
use erdos.Event.{OperatorEvent, event_cmp}
use erdos.Lattice.Petgraph.{StableGraph}
use erdos.Lattice.Invariant.{Blocked}
use erdos.Lattice.Search.{Scan, insert_all, any_in}
use erdos.Lattice.Adding.Lists.{
  ◌∈◌, NoRepeat, insert_set-NoRepeat, insert_set-mono, insert_set-here, insert_set-cases,
  insert_all-NoRepeat, insert_all-mono, insert_all-has, insert_all-cases,
}

count-le : (a : ℕ) (xs : List ℕ) → count a xs ≤ length xs
count-le a [] = omega arith
count-le a (x ∷ xs) = ground (arith, count-le a xs)

length-insert_set : (a : ℕ) (xs : List ℕ) → 0 < length (insert_set a xs)
length-insert_set a xs = omega (arith, insert_set-here a xs, count-le a (insert_set a xs))

pub any_in-length : (xs ns : List ℕ) → any_in xs ns ≡ true → 0 < length xs
unfolding any_in
any_in-length xs [] h = ground (arith, h)
any_in-length [] (n ∷ ns) h = any_in-length [] ns h
any_in-length (x ∷ xs) (n ∷ ns) h = ground arith

module _ {C : Type 0} (SG : StableGraph (Option (OperatorEvent C))) (g : SG.Graph)
    (added : OperatorEvent C) where
  -- The node holds an event.
  abbrev pub Waits : ℕ → Type 0
  Waits n = (e : OperatorEvent C) × (SG.node_weight g n ≡ some (some e))

  -- It holds an event that must follow the added one, or one that must precede it.
  abbrev pub Follower : ℕ → Type 0
  Follower n =
      (e : OperatorEvent C) × (SG.node_weight g n ≡ some (some e))
      × ((event_cmp e added ≡ some Ordering.gt) ⊎ (event_cmp added e ≡ some Ordering.lt))

  abbrev pub Predecessor : ℕ → Type 0
  Predecessor n =
      (e : OperatorEvent C) × (SG.node_weight g n ≡ some (some e))
      × (event_cmp added e ≡ some Ordering.gt)

  pub record ScanInv (s : Scan SG) : Type 0 where
    pub within : SG.Within g s.dfs_from_leaf
    pub parents_once : NoRepeat s.parents
    pub children_once : NoRepeat s.children
    pub parents_wait :
        (n : ℕ) → n ∈ s.parents → Follower n × (Blocked SG g n ⊎ (n ∈ s.demoted_leaves))
    pub demoted_parents : (n : ℕ) → n ∈ s.demoted_leaves → n ∈ s.parents
    pub children_precede : (n : ℕ) → n ∈ s.children → Predecessor n
    pub preceding :
        ((length s.preceding_events ≡ 0) × ((n : ℕ) → count n s.children ≡ 0))
        ⊎ ((0 < length s.preceding_events) × (c : ℕ) × (c ∈ s.children))
    pub redundant_once : NoRepeat s.redundant_edges
    pub redundant :
        (e : ℕ)
        → e ∈ s.redundant_edges
        → (p v : ℕ) × (SG.ends g e ≡ some (p, v))
          × (p ∈ s.parents)
          × (SG.node_weight g v ≢ none)
          × (SG.emitted s.dfs_from_leaf v ≡ true)

  -- No edge to the node is redundant yet.
  abbrev pub Fresh : ℕ → Scan SG → Type 0
  Fresh v s = (e p w : ℕ) → e ∈ s.redundant_edges → SG.ends g e ≡ some (p, w) → w ≢ v

  pub add_parents-ScanInv :
      (s : Scan SG) (qs : List ℕ)
      → ScanInv s
      → ((n : ℕ) → n ∈ qs → Follower n × Blocked SG g n)
      → ScanInv (record s { parents = insert_all qs s.parents })
  add_parents-ScanInv s qs i h = record {
    within = i.within;
    parents_once = insert_all-NoRepeat qs s.parents i.parents_once;
    children_once = i.children_once;
    parents_wait = λ n m. elim (insert_all-cases qs s.parents n m) [
      | inl p ↦ let (w, b) = h n p in (w, inl b)
      | inr p ↦ i.parents_wait n p
    ];
    demoted_parents = λ n m. insert_all-mono qs s.parents n (i.demoted_parents n m);
    children_precede = i.children_precede;
    preceding = i.preceding;
    redundant_once = i.redundant_once;
    redundant = λ e m.
        let (p, v, d, mp, w, em) = i.redundant e m in
        (p, v, d, insert_all-mono qs s.parents p mp, w, em);
  }

  pub demote-ScanInv :
      (s : Scan SG) (v : ℕ) (ds : List ℕ)
      → ScanInv s
      → Follower v
      → v ∈ ds
      → ((n : ℕ) → n ∈ ds → v ≡ n)
      → ScanInv
          (record s { parents = insert_set v s.parents; demoted_leaves = s.demoted_leaves ++ ds })
  demote-ScanInv s v ds i w m only = record {
    within = i.within;
    parents_once = insert_set-NoRepeat v s.parents i.parents_once;
    children_once = i.children_once;
    parents_wait = λ n k. elim (insert_set-cases v n s.parents k) [
      | inl p ↦ (
        subst Follower p w,
        inr (
            let a = count-append n s.demoted_leaves ds in
            let m' : n ∈ ds = subst (λ j. j ∈ ds) p m in omega (arith, a, m')),
      )
      | inr p ↦
          let (wn, b) = i.parents_wait n p in
          let a = count-append n s.demoted_leaves ds in
          (wn, elim b [ inl x ↦ inl x | inr x ↦ inr (omega (arith, a, x)) ])
    ];
    demoted_parents = λ n k. elim (Bool-cases (ltb 0 (count n ds))) [
      | inl z ↦
          subst (λ j. j ∈ insert_set v s.parents) (only n (ground (arith, z)))
            (insert_set-here v s.parents)
      | inr z ↦
          let a = count-append n s.demoted_leaves ds in
          insert_set-mono v n s.parents (i.demoted_parents n (ground (arith, a, z, k)))
    ];
    children_precede = i.children_precede;
    preceding = i.preceding;
    redundant_once = i.redundant_once;
    redundant = λ e k.
        let (p, x, d, mp, wx, em) = i.redundant e k in
        (p, x, d, insert_set-mono v p s.parents mp, wx, em);
  }

  pub add_child-ScanInv :
      (s : Scan SG) (v : ℕ) (qs es : List ℕ)
      → ScanInv s
      → Predecessor v
      → SG.emitted s.dfs_from_leaf v ≡ true
      → Fresh v s
      → NoRepeat es
      → ((n : ℕ) → n ∈ qs → Follower n × Blocked SG g n)
      → ((e : ℕ) → e ∈ es → (p : ℕ) × (p ∈ qs) × (SG.ends g e ≡ some (p, v)))
      → ScanInv (record s {
        children = insert_set v s.children;
        preceding_events = insert_set v s.preceding_events;
        parents = insert_all qs s.parents;
        redundant_edges = s.redundant_edges ++ es;
      })
  add_child-ScanInv s v qs es i w em fresh u h ends =
      let j = add_parents-ScanInv s qs i h in
      let there : SG.node_weight g v ≢ none = let wv = w.1 in ground (arith, wv) in
      record {
        within = i.within;
        parents_once = j.parents_once;
        children_once = insert_set-NoRepeat v s.children i.children_once;
        parents_wait = j.parents_wait;
        demoted_parents = j.demoted_parents;
        children_precede = λ n m. elim (insert_set-cases v n s.children m) [
          | inl p ↦ subst Predecessor p w
          | inr p ↦ i.children_precede n p
        ];
        preceding = inr (length-insert_set v s.preceding_events, v, insert_set-here v s.children);
        redundant_once = λ e.
            let a = count-append e s.redundant_edges es in
            let r = i.redundant_once e in
            let ue = u e in
            elim (Bool-cases (ltb 0 (count e es))) [
              | inr z ↦ ground (arith, a, r, z)
              | inl z ↦ elim (Bool-cases (ltb 0 (count e s.redundant_edges))) [
                | inr y ↦ ground (arith, a, ue, y)
                | inl y ↦
                    let (p, mp, d) = ends e (ground (arith, z)) in
                    absurd (fresh e p v (ground (arith, y)) d refl)
              ]
            ];
        redundant = λ e m.
            let a = count-append e s.redundant_edges es in
            elim (Bool-cases (ltb 0 (count e es))) [
              | inl z ↦
                  let (p, mp, d) = ends e (ground (arith, z)) in
                  (p, v, d, insert_all-has qs s.parents p mp, there, em)
              | inr z ↦ j.redundant e (ground (arith, a, z, m))
            ];
      }

  pub skip-ScanInv :
      (s : Scan SG) (v : ℕ)
      → ScanInv s
      → 0 < length s.preceding_events
      → ScanInv (record s { preceding_events = insert_set v s.preceding_events })
  skip-ScanInv s v i h = record {
    within = i.within;
    parents_once = i.parents_once;
    children_once = i.children_once;
    parents_wait = i.parents_wait;
    demoted_parents = i.demoted_parents;
    children_precede = i.children_precede;
    preceding = elim i.preceding [
      | inl (z, _) ↦ absurd (omega (arith, z, h))
      | inr (_, c, m) ↦ inr (length-insert_set v s.preceding_events, c, m)
    ];
    redundant_once = i.redundant_once;
    redundant = i.redundant;
  }
