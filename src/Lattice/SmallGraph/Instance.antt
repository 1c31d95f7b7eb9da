-- ===== src/Lattice/SmallGraph/Instance.antt =====
-- The small graph with its search as an instance of `StableGraph`.
use erdos.Prelude.{
  ℕ, zero, suc, ◌+◌, ◌≤◌, ◌<◌, ◌≡◌, ◌≢◌, refl, sym, ap, List, [], ◌∷◌, map, Option, none, some,
  true, false, not, ◌&&◌, ◌||◌, ◌==◌, contains, length, arith, if◌then◌else◌,
}
use mathlib.Core.Path.{subst}
use erdos.Lattice.Petgraph.{StableGraph}
use erdos.Lattice.SmallGraph.{
  nth, present, is_some, sources, targets, find, find_lem, count-sources, count-targets,
  edges_in-present,
}
use erdos.Lattice.SmallGraph.Changes.{nth-out, nth-append, edges_in-append, if_live-append}
use erdos.Lattice.SmallGraph.Slots.{
  Slots, empty, append_node, replace, link, unlink, without, edges_of, ends_of, replace-weight,
  replace_if-edges, link_if-weight, link_if-edges, link_if-ends, unlink_lem, without-weight,
  without-edges,
}

-- The nodes emitted, and the node the search was moved to.
pub record Search : Type 0 where
  pub seen : List ℕ
  pub root : Option ℕ

abbrev first : List (Option ℕ) → Option ℕ
first [] = none
first (none ∷ xs) = first xs
first (some x ∷ xs) = some x

module _ (N : Type 0) where
  -- Depth first against the edges: the first node that no unseen node leads to.
  abbrev choose : ℕ → Slots N → List ℕ → ℕ → Option ℕ
  choose zero g seen n = none
  choose (suc fuel) g seen n =
      let deeper = first (map (choose fuel g seen) (sources g.nodes n g.links)) in
      if contains seen n then none else elim deeper [ none ↦ some n | some m ↦ some m ]

  abbrev accept : Slots N → Search → Option ℕ → Option (ℕ × Search)
  accept g s none = none
  accept g s (some n) =
      if present g.nodes n && not (contains s.seen n)
      then some (n, record { seen = n ∷ s.seen; root = s.root })
      else none

  abbrev step : Slots N → Search → Option (ℕ × Search)
  step g s =
      accept g s (elim s.root [ none ↦ none | some n ↦ choose (suc (length g.nodes)) g s.seen n ])

  abbrev unseen : ℕ → List (Option N) → List ℕ → ℕ
  unseen i [] seen = 0
  unseen i (x ∷ xs) seen =
      (if is_some x && not (contains seen i) then 1 else 0) + unseen (suc i) xs seen

  unseen-le :
      (i n : ℕ) (ns : List (Option N)) (seen : List ℕ) → unseen i ns (n ∷ seen) ≤ unseen i ns seen
  unseen-le i n [] seen = omega arith
  unseen-le i n (x ∷ ns) seen = ground (arith, unseen-le (suc i) n ns seen)

  unseen-lt :
      (i n m : ℕ) (ns : List (Option N)) (seen : List ℕ)
      → m ≡ i + n
      → present ns n ≡ true
      → contains seen m ≡ false
      → unseen i ns (m ∷ seen) < unseen i ns seen
  unseen-lt i n m [] seen e p h = ground (arith, p)
  unseen-lt i zero m (x ∷ ns) seen e p h =
      let c : contains seen i ≡ false = subst (λ j. contains seen j ≡ false) (omega (arith, e)) h in
      ground (arith, unseen-le (suc i) m ns seen, c, p, e)
  unseen-lt i (suc n) m (x ∷ ns) seen e p h =
      let r = unseen-lt (suc i) n m ns seen (omega (arith, e)) p h in ground (arith, r)

  accept_lem :
      (g : Slots N) (s s' : Search) (n : ℕ) (o : Option ℕ)
      → accept g s o ≡ some (n, s')
      → (present g.nodes n ≡ true) × (contains s.seen n ≡ false) × (s'.seen ≡ n ∷ s.seen)
  accept_lem g s s' n none h = ground (arith, h)
  accept_lem g s s' n (some m) h = ground (arith, h)

  pub step_lem :
      (g : Slots N) (s s' : Search) (n : ℕ)
      → step g s ≡ some (n, s')
      → Unit {0}
        × (nth g.nodes n ≢ none)
        × (unseen 0 g.nodes s'.seen < unseen 0 g.nodes s.seen)
        × (contains s.seen n ≡ false)
        × ((m : ℕ) → contains s'.seen m ≡ (n == m || contains s.seen m))
  step_lem g s s' n h =
      let (p, c, e) =
        accept_lem g s s' n
          (elim s.root [ none ↦ none | some m ↦ choose (suc (length g.nodes)) g s.seen m ]) h in
      (
        tt,
        ground (arith, p),
        subst (λ l. unseen 0 g.nodes l < unseen 0 g.nodes s.seen) (sym e)
            (unseen-lt 0 n n g.nodes s.seen (omega arith) p c),
        c,
        λ m. ap (λ l. contains l m) e,
      )

  unfoldable pub small_graph : StableGraph N
  small_graph = record {
    Graph = Slots N;
    node_weight = λ g. nth g.nodes;
    incoming = λ g b. sources g.nodes b g.links;
    outgoing = λ g a. targets g.nodes a g.links;
    find_edge = λ g a b. find g.nodes a b g.links;
    new = empty N;
    add_node = append_node N;
    set_weight = replace N;
    add_edge = link N;
    remove_edge = unlink N;
    remove_node = without N;
    edges = edges_of N;
    ends = ends_of N;
    count-incoming = λ g a b. count-sources g.nodes a b g.links;
    count-outgoing = λ g a b. count-targets g.nodes a b g.links;
    edge_present = λ g a b. edges_in-present g.nodes a b g.links;
    find_edge_lem = λ g a b. find_lem g.nodes a b g.links;
    new-weight = λ n. refl;
    add_node-fresh = λ g w. nth-out g.nodes (length g.nodes) (omega arith);
    add_node-weight = λ g w. nth-append g.nodes w;
    add_node-edges = λ g w a b. edges_in-append g.nodes w g.links a b g.bounded;
    add_node-ends = λ g w. if_live-append g.nodes w g.links;
    set_weight-weight = replace-weight N;
    set_weight-edges = λ g i w a b. replace_if-edges N g i w (present g.nodes i) a b refl;
    add_edge-weight = λ g a b. link_if-weight N g a b (present g.nodes a && present g.nodes b) refl;
    add_edge-edges = λ g a b. link_if-edges N g a b (present g.nodes a && present g.nodes b) refl;
    add_edge-ends = λ g a b. link_if-ends N g a b (present g.nodes a && present g.nodes b) refl;
    remove_edge_lem = unlink_lem N;
    remove_node-weight = without-weight N;
    remove_node-edges = without-edges N;
    Dfs = Search;
    dfs_empty = λ g. record { seen = []; root = none };
    move_to = λ s n. record { seen = s.seen; root = some n };
    next = step;
    emitted = λ s. contains s.seen;
    remaining = λ g s. unseen 0 g.nodes s.seen;
    Within = λ g s. Unit {0};
    dfs_empty-Within = λ g. tt;
    move_to-Within = λ g s n h p. tt;
    move_to-emitted = λ s n m. refl;
    next_lem = λ g s s' n u h. step_lem g s s' n h;
  }
