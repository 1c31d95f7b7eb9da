-- ===== src/Lattice/Adding/Lists.antt =====
-- Sets of nodes and lists of edges in the search of src/node/lattice.rs.
use erdos.Prelude.{
  Ordering, ◌∙◌, ap, ℕ, ◌≤◌, ◌<◌, ◌≡◌, ◌≢◌, refl, sym, List, [], ◌∷◌, Option, none, some, ◌⊎◌, inl,
  inr, ◌==◌, ==_iff, ==_refl, Bool-cases, Option-cases, Ordering-cases, ◌&&◌, count, contains-count,
  insert_set, count-insert_set, ltb, arith, if◌then◌else◌,
}
use mathlib.Core.Path.{subst}
use erdos.Event.{OperatorEvent, event_cmp}
use erdos.Lattice.Petgraph.{StableGraph}
use erdos.Lattice.Runnable.{RunnableEvent, queued}
use erdos.Lattice.RunQueue.{count_index}
use erdos.Lattice.Search.{insert_all, followers, edges_to, waiting}

infix 50 ◌∈◌
abbrev pub ◌∈◌ : ℕ → List ℕ → Type 0
n ∈ xs = 0 < count n xs

abbrev pub NoRepeat : List ℕ → Type 0
NoRepeat xs = (n : ℕ) → count n xs ≤ 1

pub insert_set-NoRepeat : (a : ℕ) (xs : List ℕ) → NoRepeat xs → NoRepeat (insert_set a xs)
insert_set-NoRepeat a xs u n =
    let h = u n in ground (arith, count-insert_set a n xs, contains-count xs a, h)

pub insert_set-mono : (a n : ℕ) (xs : List ℕ) → n ∈ xs → n ∈ insert_set a xs
insert_set-mono a n xs h = ground (arith, count-insert_set a n xs, h)

pub insert_set-here : (a : ℕ) (xs : List ℕ) → a ∈ insert_set a xs
insert_set-here a xs = ground (arith, count-insert_set a a xs, ==_refl a, contains-count xs a)

pub insert_set-cases : (a n : ℕ) (xs : List ℕ) → n ∈ insert_set a xs → (a ≡ n) ⊎ (n ∈ xs)
insert_set-cases a n xs h = ground (arith, count-insert_set a n xs, ==_iff a n, h)

pub insert_all-NoRepeat : (ns xs : List ℕ) → NoRepeat xs → NoRepeat (insert_all ns xs)
unfolding insert_all
insert_all-NoRepeat [] xs u = u
insert_all-NoRepeat (a ∷ ns) xs u =
    insert_all-NoRepeat ns (insert_set a xs) (insert_set-NoRepeat a xs u)

pub insert_all-mono : (ns xs : List ℕ) (n : ℕ) → n ∈ xs → n ∈ insert_all ns xs
unfolding insert_all
insert_all-mono [] xs n h = h
insert_all-mono (a ∷ ns) xs n h = insert_all-mono ns (insert_set a xs) n (insert_set-mono a n xs h)

pub insert_all-has : (ns xs : List ℕ) (n : ℕ) → n ∈ ns → n ∈ insert_all ns xs
unfolding insert_all
insert_all-has [] xs n h = absurd (omega (arith, h))
insert_all-has (a ∷ ns) xs n h = elim (Bool-cases (a == n)) [
  | inl p ↦
      insert_all-mono ns (insert_set a xs) n
        (subst (λ j. j ∈ insert_set a xs) ((==_iff a n).0 p) (insert_set-here a xs))
  | inr p ↦ insert_all-has ns (insert_set a xs) n (ground (arith, h, p))
]

pub insert_all-cases : (ns xs : List ℕ) (n : ℕ) → n ∈ insert_all ns xs → (n ∈ ns) ⊎ (n ∈ xs)
unfolding insert_all
insert_all-cases [] xs n h = inr h
insert_all-cases (a ∷ ns) xs n h = elim (insert_all-cases ns (insert_set a xs) n h) [
  | inl p ↦ inl (ground (arith, p))
  | inr p ↦ elim (insert_set-cases a n xs p) [
    | inl q ↦ inl (ground (arith, q, ==_iff a n))
    | inr q ↦ inr q
  ]
]

pub count-queued :
    (i n : ℕ) (xs : List RunnableEvent)
    → count n (queued i xs) ≡ (if i == n then count_index i xs else 0)
unfolding queued
count-queued i n [] = ground arith
count-queued i n (x ∷ xs) = ground (arith, count-queued i n xs, ==_iff i n, ==_iff x.node_index n)

module _ {C : Type 0} (SG : StableGraph (Option (OperatorEvent C))) (g : SG.Graph) where
  -- A node whose event is greater than the added one.
  abbrev pub Greater : OperatorEvent C → ℕ → Type 0
  Greater added n =
      (e : OperatorEvent C) × (waiting SG g n ≡ some e) × (event_cmp e added ≡ some Ordering.gt)

  pub followers_lem :
      (added : OperatorEvent C) (ps : List ℕ)
      → ((p : ℕ)
          → p ∈ ps
          → (e : OperatorEvent C) × (waiting SG g p ≡ some e) × (event_cmp e added ≢ none))
      → (qs : List ℕ) × (followers SG g added ps ≡ some qs)
        × ((n : ℕ) → count n qs ≤ count n ps)
        × ((n : ℕ) → n ∈ qs → Greater added n)
  unfolding followers
  followers_lem added [] h = ([], refl, λ n. omega arith, λ n m. absurd (omega (arith, m)))
  followers_lem added (p ∷ ps) h =
      let (e, w, c) = h p (ground (arith, ==_refl p)) in
      let (qs, f, b, g') = followers_lem added ps (λ q m. h q (ground (arith, m))) in
      elim (Option-cases (event_cmp e added)) [
        | inl k ↦ absurd (c k)
        | inr (o, k) ↦ elim (Ordering-cases o) [
          | inl z ↦ (qs, ground (arith, w, k, f, z), λ n. let bn = b n in ground (arith, bn), g')
          | inr (inl z) ↦
              (qs, ground (arith, w, k, f, z), λ n. let bn = b n in ground (arith, bn), g')
          | inr (inr z) ↦ (
            p ∷ qs,
            ground (arith, w, k, f, z),
            λ n. let bn = b n in ground (arith, bn),
            λ n m. elim (Bool-cases (p == n)) [
              | inl same ↦ subst (Greater added) ((==_iff p n).0 same) (e, w, k ∙ ap some z)
              | inr other ↦ g' n (ground (arith, m, other))
            ],
          )
        ]
      ]

  edges_to_fresh :
      (v e p : ℕ) (ps es : List ℕ) (n : ℕ)
      → NoRepeat (p ∷ ps)
      → SG.ends g e ≡ some (p, v)
      → ((e : ℕ) → e ∈ es → (p : ℕ) × (p ∈ ps) × (SG.ends g e ≡ some (p, v)))
      → NoRepeat es
      → count n (e ∷ es) ≤ 1
  edges_to_fresh v e p ps es n u d ends r =
      let rn = r n in
      elim (Bool-cases (e == n && ltb 0 (count n es))) [
        | inr z ↦ ground (arith, z, rn)
        | inl z ↦
            let (q, mq, dq) = ends n (ground (arith, z)) in
            let k : e ≡ n = (==_iff e n).0 (ground (arith, z)) in
            let d' : SG.ends g n ≡ some (p, v) = subst (λ x. SG.ends g x ≡ some (p, v)) k d in
            let pq : p ≡ q = ground (arith, d', dq) in
            let mp : p ∈ ps = subst (λ x. x ∈ ps) (sym pq) mq in
            let up = u p in absurd (ground (arith, up, mp, ==_refl p))
      ]

  pub edges_to_lem :
      (v : ℕ) (ps : List ℕ)
      → NoRepeat ps
      → ((p : ℕ) → p ∈ ps → 0 < SG.edges g p v)
      → (es : List ℕ) × (edges_to SG g v ps ≡ some es)
        × ((e : ℕ) → e ∈ es → (p : ℕ) × (p ∈ ps) × (SG.ends g e ≡ some (p, v)))
        × NoRepeat es
  unfolding edges_to
  edges_to_lem v [] u h = ([], refl, λ e m. absurd (omega (arith, m)), λ n. omega arith)
  edges_to_lem v (p ∷ ps) u h =
      let here : p ∈ (p ∷ ps) = ground (arith, ==_refl p) in
      let (e, f, d) = SG.find_edge_lem g p v (h p here) in
      let (es, k, ends, r) =
        edges_to_lem v ps (λ n. let un = u n in ground (arith, un))
          (λ q m. h q (ground (arith, m))) in
      (
        e ∷ es,
        ground (arith, f, k),
        λ e' m. elim (Bool-cases (e == e')) [
          | inl z ↦ (p, here, subst (λ x. SG.ends g x ≡ some (p, v)) ((==_iff e e').0 z) d)
          | inr z ↦ let (q, mq, dq) = ends e' (ground (arith, m, z)) in (q, ground (arith, mq), dq)
        ],
        λ n. edges_to_fresh v e p ps es n u d ends r,
      )
