-- ===== src/Lattice/Promote.antt =====
-- The loop of `mark_as_completed` in src/node/lattice.rs, which promotes nodes that became free.
use erdos.Prelude.{
  ℕ, zero, suc, ◌+◌, ◌≤◌, ◌<◌, ◌≡◌, ◌≢◌, refl, sym, ◌∙◌, List, [], ◌∷◌, ◌++◌, Option, some, ◌⊎◌,
  inl, inr, All, ◌==◌, ==_iff, ==_refl, Bool-cases, count, length, arith, if◌then◌else◌,
}
use mathlib.Core.Path.{subst}
use erdos.Event.{OperatorEvent}
use erdos.Lattice.{promote}
use erdos.Lattice.Runnable.{RunnableEvent, remove_index, with_timestamp}
use erdos.Lattice.RunQueue.{count_index}
use erdos.Lattice.Invariant.{Status, Statuses, Status-move, Queued, Free, Blocked, waiting-weight}
use erdos.Lattice.Petgraph.{StableGraph}

pub count_index-append :
    (i : ℕ) (xs ys : List RunnableEvent)
    → count_index i (xs ++ ys) ≡ count_index i xs + count_index i ys
count_index-append i [] ys = omega arith
count_index-append i (x ∷ xs) ys = omega (arith, count_index-append i xs ys)

pub remove_index_lem :
    (i : ℕ) (xs : List RunnableEvent)
    → 0 < count_index i xs
    → (ys : List RunnableEvent) × (remove_index i xs ≡ some ys)
      × ((j : ℕ) → count_index j xs ≡ (if i == j then 1 else 0) + count_index j ys)
unfolding remove_index
remove_index_lem i [] h = absurd (omega (arith, h))
remove_index_lem i (x ∷ xs) h = elim (Bool-cases (x.node_index == i)) [
  | inl p ↦ (xs, ground (arith, p), λ j. ground (arith, p))
  | inr p ↦
      let (ys, e, c) = remove_index_lem i xs (ground (arith, h, p)) in
      (x ∷ ys, ground (arith, p, e), λ j. let k = c j in ground (arith, k))
]

count-length : (xs : List ℕ) → 0 < length xs → (b : ℕ) × (0 < count b xs)
count-length [] h = absurd (omega (arith, h))
count-length (x ∷ xs) h = (x, ground (arith, ==_refl x))

length-count : (b : ℕ) (xs : List ℕ) → length xs ≡ 0 → count b xs ≡ 0
length-count b [] h = refl
length-count b (x ∷ xs) h = absurd (omega (arith, h))

pub ℕ-cases : (n : ℕ) → (n ≡ 0) ⊎ ((m : ℕ) × (n ≡ suc m))
ℕ-cases zero = inl refl
ℕ-cases (suc m) = inr (m, refl)

fewer : (p i : ℕ) (ps : List ℕ) → count i (p ∷ ps) ≤ 1 → count i ps ≤ 1
fewer p i ps h = ground (arith, h)

module _ {C : Type 0} (SG : StableGraph (Option (OperatorEvent C))) where
  pub no_outgoing-Free : (g : SG.Graph) (i : ℕ) → length (SG.outgoing g i) ≡ 0 → Free SG g i
  no_outgoing-Free g i h = λ b. sym (SG.count-outgoing g i b) ∙ length-count b (SG.outgoing g i) h

  outgoing-Blocked : (g : SG.Graph) (i n : ℕ) → length (SG.outgoing g i) ≡ suc n → Blocked SG g i
  outgoing-Blocked g i n h =
      let (b, c) = count-length (SG.outgoing g i) (omega (arith, h)) in
      (b, subst (λ k. 0 < k) (SG.count-outgoing g i b) c)

  -- Nodes that the loop still has to look at hold an event and stand in neither list.
  abbrev pub Pending : SG.Graph → List ℕ → List RunnableEvent → List RunnableEvent → Type 0
  Pending g ps leaves run_queue =
      (i : ℕ)
      → ((0 < count i ps)
          × (e : OperatorEvent C) × (SG.node_weight g i ≡ some (some e))
          × (count_index i leaves ≡ 0)
          × (count_index i run_queue ≡ 0))
        ⊎ ((count i ps ≡ 0)
            × Status SG g i (count_index i leaves) (count_index i run_queue) (SG.node_weight g i))

  Pending-step :
      (g : SG.Graph) (p : ℕ) (ps : List ℕ)
      (leaves run_queue leaves' run_queue' : List RunnableEvent)
      → ((i : ℕ) → count i (p ∷ ps) ≤ 1)
      → Pending g (p ∷ ps) leaves run_queue
      → ((i : ℕ) → p ≢ i → count_index i leaves ≡ count_index i leaves')
      → ((i : ℕ) → p ≢ i → count_index i run_queue ≡ count_index i run_queue')
      → Status SG g p (count_index p leaves') (count_index p run_queue') (SG.node_weight g p)
      → Pending g ps leaves' run_queue'
  Pending-step g p ps leaves run_queue leaves' run_queue' u h cl cq s i =
      let ui = u i in
      elim (Bool-cases (p == i)) [
        | inl k ↦ inr (
          ground (arith, ui, k),
          subst
              (λ j.
                Status SG g j (count_index j leaves') (count_index j run_queue')
                  (SG.node_weight g j))
              ((==_iff p i).0 k) s,
        )
        | inr k ↦
            let ne : p ≢ i = ground (arith, k) in
            let (a, b) : (count_index i leaves ≡ count_index i leaves')
                × (count_index i run_queue ≡ count_index i run_queue') =
              (cl i ne, cq i ne) in
            elim (h i) [
              | inl (c, e, w, l, q) ↦ inl (ground (arith, c, k), e, w, sym a ∙ l, sym b ∙ q)
              | inr (c, st) ↦ inr (ground (arith, c, k), Status-move SG (λ n. refl) a b refl st)
            ]
      ]

  promote-nil :
      (g : SG.Graph) (leaves run_queue : List RunnableEvent)
      → promote SG g [] leaves run_queue ≡ some (leaves, run_queue)
  unfolding promote
  promote-nil g leaves run_queue = refl

  promote-zero :
      (g : SG.Graph) (p : ℕ) (ps : List ℕ) (e : OperatorEvent C)
      (leaves run_queue : List RunnableEvent)
      → length (SG.outgoing g p) ≡ 0
      → SG.node_weight g p ≡ some (some e)
      → promote SG g (p ∷ ps) leaves run_queue
        ≡ promote SG g ps
            (leaves ++ (with_timestamp p e.timestamp ∷ []))
            (with_timestamp p e.timestamp ∷ run_queue)
  unfolding promote
  promote-zero g p ps e leaves run_queue z w = ground (arith, z, waiting-weight SG g p e w)

  promote-suc :
      (g : SG.Graph) (p n : ℕ) (ps : List ℕ) (leaves run_queue : List RunnableEvent)
      → length (SG.outgoing g p) ≡ suc n
      → promote SG g (p ∷ ps) leaves run_queue ≡ promote SG g ps leaves run_queue
  unfolding promote
  promote-suc g p n ps leaves run_queue z = ground (arith, z)

  -- The loop leaves every node in the place its edges call for.
  pub promote-Statuses :
      (g : SG.Graph) (ps : List ℕ) (leaves run_queue : List RunnableEvent)
      → ((i : ℕ) → count i ps ≤ 1)
      → Pending g ps leaves run_queue
      → All (Queued SG g) run_queue
      → (leaves' run_queue' : List RunnableEvent) × (promote SG g ps leaves run_queue
          ≡ some (leaves', run_queue'))
        × Statuses SG (record { forest = g; leaves = leaves'; run_queue = run_queue' })
        × All (Queued SG g) run_queue'
  promote-Statuses g [] leaves run_queue u h q = (
    leaves,
    run_queue,
    promote-nil g leaves run_queue,
    λ i. elim (h i) [ inl t ↦ absurd (omega (arith, t.0)) | inr (_, st) ↦ st ],
    q,
  )
  promote-Statuses g (p ∷ ps) leaves run_queue u h q = elim (h p) [
    | inr (c, _) ↦ absurd (ground (arith, c, ==_refl p))
    | inl (c, e, w, l, r) ↦ elim (ℕ-cases (length (SG.outgoing g p))) [
      | inl z ↦
          let x = with_timestamp p e.timestamp in
          let grown = count_index-append p leaves (x ∷ []) in
          let st : Status SG g p (count_index p (leaves ++ (x ∷ [])))
              (count_index p (x ∷ run_queue)) (SG.node_weight g p) =
            subst
              (Status SG g p (count_index p (leaves ++ (x ∷ []))) (count_index p (x ∷ run_queue)))
              (sym w)
              (inl (
                ground (arith, grown, l, ==_refl p),
                ground (arith, r, ==_refl p),
                no_outgoing-Free g p z,
              )) in
          let next =
            Pending-step g p ps leaves run_queue (leaves ++ (x ∷ [])) (x ∷ run_queue) u h
              (λ i n. let a = count_index-append i leaves (x ∷ []) in ground (arith, a, n))
              (λ i n. ground (arith, n)) st in
          let (ls, rq, k, sts, qs) =
            promote-Statuses g ps (leaves ++ (x ∷ [])) (x ∷ run_queue) (λ i. fewer p i ps (u i))
              next ((e, w, refl), q) in
          (ls, rq, promote-zero g p ps e leaves run_queue z w ∙ k, sts, qs)
      | inr (n, z) ↦
          let st : Status SG g p (count_index p leaves) (count_index p run_queue)
              (SG.node_weight g p) =
            subst (Status SG g p (count_index p leaves) (count_index p run_queue)) (sym w)
              (inr (l, r, outgoing-Blocked g p n z)) in
          let next =
            Pending-step g p ps leaves run_queue leaves run_queue u h (λ i m. refl) (λ i m. refl)
              st in
          let (ls, rq, k, sts, qs) =
            promote-Statuses g ps leaves run_queue (λ i. fewer p i ps (u i)) next q in
          (ls, rq, promote-suc g p n ps leaves run_queue z ∙ k, sts, qs)
    ]
  ]
