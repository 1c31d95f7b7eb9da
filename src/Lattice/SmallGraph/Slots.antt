-- ===== src/Lattice/SmallGraph/Slots.antt =====
-- The slots of a small graph, with the changes to them.
use erdos.Prelude.{
  ℕ, ◌+◌, ◌<◌, ◌≡◌, ◌≢◌, refl, sym, List, [], ◌∷◌, ◌++◌, Option, none, some, inl, inr, All, All-map,
  All-append, Bool, true, false, ◌&&◌, ◌||◌, ◌==◌, ltb, ==_iff, Bool-cases, length, length-append,
  arith, if◌then◌else◌,
}
use mathlib.Core.Path.{subst}
use erdos.Lattice.SmallGraph.{nth, present, Slot, edges_in, slot_at, if_live}
use erdos.Lattice.SmallGraph.Changes.{
  Bounded, Bounded-mono, clear, clear-Bounded, put, length-put, nth-out, nth-put, nth-put-none,
  edges_in-same, edges_in-add, if_live-add, edges_in-clear, if_live-clear, edges_in-remove,
}

module _ (N : Type 0) where
  pub record Slots : Type 0 where
    pub nodes : List (Option N)
    pub links : List Slot
    pub bounded : All (Bounded (length nodes)) links

  abbrev pub empty : Slots
  empty = record { nodes = []; links = []; bounded = tt }

  abbrev pub edges_of : Slots → ℕ → ℕ → ℕ
  edges_of g a b = edges_in g.nodes g.links a b

  abbrev pub append_node : Slots → N → Slots × ℕ
  append_node g w = (
    record {
      nodes = g.nodes ++ (some w ∷ []);
      links = g.links;
      bounded =
          subst (λ n. All (Bounded n) g.links) (sym (length-append g.nodes (some w ∷ [])))
            (All-map (Bounded (length g.nodes)) (Bounded (length g.nodes + 1)) g.links
              (Bounded-mono (length g.nodes)) g.bounded);
    },
    length g.nodes,
  )

  unfoldable pub with_nodes : Slots → ℕ → Option N → Slots
  with_nodes g i w = record {
    nodes = put i w g.nodes;
    links = g.links;
    bounded = subst (λ n. All (Bounded n) g.links) (sym (length-put i w g.nodes)) g.bounded;
  }

  abbrev pub replace_if : Slots → ℕ → N → Bool → Slots
  replace_if g i w true = with_nodes g i (some w)
  replace_if g i w false = g

  abbrev pub replace : Slots → ℕ → N → Slots
  replace g i w = replace_if g i w (present g.nodes i)

  abbrev pub drop_edge : Slots → ℕ → Slots
  drop_edge g e = record {
    nodes = g.nodes;
    links = clear e g.links;
    bounded = clear-Bounded (length g.nodes) e g.links g.bounded;
  }

  pub present-bound : (ns : List (Option N)) (i : ℕ) → present ns i ≡ true → i < length ns
  present-bound ns i h = elim (Bool-cases (ltb i (length ns))) [
    | inl p ↦ ground (arith, p)
    | inr p ↦ let z = nth-out ns i (ground (arith, p)) in absurd (ground (arith, z, h))
  ]

  -- Without both nodes the graph stays as it is.
  abbrev pub link_if :
      (g : Slots) (a b : ℕ) (c : Bool) → (present g.nodes a && present g.nodes b) ≡ c → Slots
  link_if g a b true h = record {
    nodes = g.nodes;
    links = g.links ++ (some (a, b) ∷ []);
    bounded = All-append (Bounded (length g.nodes)) g.links (some (a, b) ∷ []) g.bounded (
      (present-bound g.nodes a (ground (arith, h)), present-bound g.nodes b (ground (arith, h))),
      tt,
    );
  }
  link_if g a b false h = g

  abbrev pub link : Slots → ℕ → ℕ → Slots
  link g a b = link_if g a b (present g.nodes a && present g.nodes b) refl

  nth-present : (ns : List (Option N)) (i : ℕ) → nth ns i ≢ none → present ns i ≡ true
  nth-present ns i h = ground (arith, h)

  pub replace-weight :
      (g : Slots) (i : ℕ) (w : N) (n : ℕ)
      → nth g.nodes i ≢ none
      → nth (replace g i w).nodes n ≡ (if i == n then some w else nth g.nodes n)
  unfolding with_nodes
  replace-weight g i w n h = ground (arith, nth-put i w g.nodes n h, nth-present g.nodes i h)

  replace-present :
      (g : Slots) (i : ℕ) (w : N) (n : ℕ)
      → present g.nodes i ≡ true
      → present (put i (some w) g.nodes) n ≡ present g.nodes n
  replace-present g i w n h =
      let e = nth-put i w g.nodes n (ground (arith, h)) in
      elim (Bool-cases (i == n)) [
        | inl p ↦
            let h' : present g.nodes n ≡ true =
              subst (λ j. present g.nodes j ≡ true) ((==_iff i n).0 p) h in
            ground (arith, e, p, h')
        | inr p ↦ ground (arith, e, p)
      ]

  pub replace_if-edges :
      (g : Slots) (i : ℕ) (w : N) (c : Bool) (a b : ℕ)
      → present g.nodes i ≡ c
      → edges_of (replace_if g i w c) a b ≡ edges_of g a b
  unfolding with_nodes
  replace_if-edges g i w true a b h =
      edges_in-same (put i (some w) g.nodes) g.nodes g.links a b (λ n. replace-present g i w n h)
  replace_if-edges g i w false a b h = refl

  pub link_if-weight :
      (g : Slots) (a b : ℕ) (c : Bool) (h : (present g.nodes a && present g.nodes b) ≡ c) (n : ℕ)
      → nth (link_if g a b c h).nodes n ≡ nth g.nodes n
  link_if-weight g a b true h n = refl
  link_if-weight g a b false h n = refl

  pub link_if-edges :
      (g : Slots) (a b : ℕ) (c : Bool) (h : (present g.nodes a && present g.nodes b) ≡ c) (x y : ℕ)
      → nth g.nodes a ≢ none
      → nth g.nodes b ≢ none
      → edges_of (link_if g a b c h) x y ≡ edges_of g x y + (if a == x && b == y then 1 else 0)
  link_if-edges g a b true h x y p q =
      edges_in-add g.nodes g.links a b x y (nth-present g.nodes a p) (nth-present g.nodes b q)
  link_if-edges g a b false h x y p q =
      absurd (ground (arith, h, nth-present g.nodes a p, nth-present g.nodes b q))

  pub link_if-ends :
      (g : Slots) (a b : ℕ) (c : Bool) (h : (present g.nodes a && present g.nodes b) ≡ c) (e : ℕ)
      (p : ℕ × ℕ)
      → if_live g.nodes (slot_at g.links e) ≡ some p
      → if_live (link_if g a b c h).nodes (slot_at (link_if g a b c h).links e) ≡ some p
  link_if-ends g a b true h e p q = if_live-add g.nodes g.links (some (a, b)) e p q
  link_if-ends g a b false h e p q = q

  abbrev pub ends_of : Slots → ℕ → Option (ℕ × ℕ)
  ends_of g e = if_live g.nodes (slot_at g.links e)

  unfoldable pub unlink : Slots → ℕ → Option Slots
  unlink g e = elim (ends_of g e) [ none ↦ none | some p ↦ some (drop_edge g e) ]

  pub unlink_lem :
      (g : Slots) (e a b : ℕ)
      → ends_of g e ≡ some (a, b)
      → (g' : Slots) × (unlink g e ≡ some g')
        × ((n : ℕ) → nth g'.nodes n ≡ nth g.nodes n)
        × ((x y : ℕ) → edges_of g x y ≡ edges_of g' x y + (if a == x && b == y then 1 else 0))
        × ((e' : ℕ) → e ≢ e' → ends_of g' e' ≡ ends_of g e')
  unfolding unlink
  unlink_lem g e a b h = (
    drop_edge g e,
    ground (arith, h),
    λ n. refl,
    λ x y. edges_in-clear g.nodes g.links e a b x y h,
    λ e' k. if_live-clear g.nodes g.links e e' k,
  )

  unfoldable pub without : Slots → ℕ → Slots
  unfolding with_nodes
  without g i = with_nodes g i none

  pub without-weight :
      (g : Slots) (i n : ℕ) → nth (without g i).nodes n ≡ (if i == n then none else nth g.nodes n)
  unfolding without
  without-weight g i n = nth-put-none i g.nodes n

  pub without-edges :
      (g : Slots) (i a b : ℕ)
      → edges_of (without g i) a b ≡ (if i == a || i == b then 0 else edges_of g a b)
  unfolding without
  without-edges g i a b = edges_in-remove g.nodes g.links i a b
