-- ===== src/Lattice/RunQueue.antt =====
-- The order in which the run queue of src/node/lattice.rs hands out events.
use erdos.Prelude.{
  ℕ, ◌+◌, ◌≢◌, sym, ◌≤◌, ◌≡◌, refl, List, [], ◌∷◌, none, some, Ordering, ◌==◌, All, All-map,
  if◌then◌else◌, arith, Option-cases, Ordering-cases, ◌⊎◌, inl, inr,
}
use mathlib.Core.Path.{subst}
use erdos.Message
use erdos.Message.{Timestamp}
use erdos.Message.Order.{cmp-reverse, cmp_trans, cmp_eq_left, cmp_eq_right, cmp_refl}
use erdos.Lattice.Runnable.{RunnableEvent, runnable_cmp, cmp_timestamps, pop}

-- Every entry of the run queue carries a timestamp.
abbrev pub Stamped : RunnableEvent → Type 0
Stamped x = (t : Timestamp) × (x.timestamp ≡ some t)

-- An earlier timestamp, or the same and no larger index of the node.
abbrev pub Before : Timestamp → ℕ → Timestamp → ℕ → Type 0
Before s i t j = (Message.cmp s t ≡ Ordering.lt) ⊎ ((Message.cmp s t ≡ Ordering.eq) × (i ≤ j))

-- `x` is handed out no later than `y`.
abbrev pub Ahead : RunnableEvent → RunnableEvent → Type 0
Ahead x y =
    (s t : Timestamp)
    → x.timestamp ≡ some s
    → y.timestamp ≡ some t
    → Before s x.node_index t y.node_index

Before-trans : (s t u : Timestamp) (i j k : ℕ) → Before s i t j → Before t j u k → Before s i u k
Before-trans s t u i j k h h' =
    ground (arith, cmp_trans s t u, cmp_eq_left s t u, cmp_eq_right t u s)

Ahead-trans : (x y z : RunnableEvent) → Stamped y → Ahead x y → Ahead y z → Ahead x z
Ahead-trans x y z (t, e) h h' =
    λ s u p q. Before-trans s t u x.node_index y.node_index z.node_index (h s t p e) (h' t u e q)

runnable_cmp-Ahead :
    (x y : RunnableEvent)
    → (runnable_cmp x y ≡ Ordering.lt → Ahead y x) × ((runnable_cmp x y ≢ Ordering.lt) → Ahead x y)
unfolding runnable_cmp cmp_timestamps
runnable_cmp-Ahead x y =
    (λ h s t p q. ground (arith, cmp-reverse t s), λ h s t p q. ground (arith, cmp-reverse t s))

Ahead-refl : (x : RunnableEvent) → Ahead x x
Ahead-refl x = λ s t p q. ground (arith, cmp_refl s)

pop-some : (x : RunnableEvent) (xs : List RunnableEvent) → pop (x ∷ xs) ≢ none
unfolding pop
pop-some x xs = elim (Option-cases (pop xs)) [
  | inl e ↦ ground arith
  | inr ((m, r), e) ↦ ground (arith, Ordering-cases (runnable_cmp x m))
]

pub pop-nil : (xs : List RunnableEvent) → pop xs ≡ none → xs ≡ []
pop-nil [] h = refl
pop-nil (x ∷ xs) h = absurd (pop-some x xs h)

-- What a step of `pop` compares.
pop_step :
    (x y : RunnableEvent) (ys rest : List RunnableEvent)
    → pop (y ∷ ys) ≡ some (x, rest)
    → ((pop ys ≡ none) × (y ≡ x) × (rest ≡ []))
      ⊎ ((m : RunnableEvent) × (r : List RunnableEvent) × (pop ys ≡ some (m, r))
          × (((runnable_cmp y m ≡ Ordering.lt) × (m ≡ x) × (rest ≡ y ∷ r))
              ⊎ ((runnable_cmp y m ≢ Ordering.lt) × (y ≡ x) × (rest ≡ m ∷ r))))
unfolding pop
pop_step x y ys rest h = elim (Option-cases (pop ys)) [
  | inl e ↦ inl (e, ground arith, ground arith)
  | inr ((m, r), e) ↦ inr (m, r, e, ground (arith, Ordering-cases (runnable_cmp y m)))
]

pub pop-All {κ} :
    (P : RunnableEvent → Type κ) (x : RunnableEvent) (xs rest : List RunnableEvent)
    → pop xs ≡ some (x, rest)
    → All P xs
    → P x × All P rest
unfolding pop
pop-All P x [] rest h ps = ground arith
pop-All P x (y ∷ ys) rest h ps = elim (Option-cases (pop ys)) [
  | inl e ↦ ground arith
  | inr ((m, r), e) ↦
      let ih = pop-All P m ys r e ps.1 in ground (arith, Ordering-cases (runnable_cmp y m))
]

-- How often an index stands in a list of events.
abbrev pub count_index : ℕ → List RunnableEvent → ℕ
count_index i [] = 0
count_index i (x ∷ xs) = (if x.node_index == i then 1 else 0) + count_index i xs

pub pop-count_index :
    (i : ℕ) (x : RunnableEvent) (xs rest : List RunnableEvent)
    → pop xs ≡ some (x, rest)
    → count_index i xs ≡ (if x.node_index == i then 1 else 0) + count_index i rest
unfolding pop
pop-count_index i x [] rest h = ground arith
pop-count_index i x (y ∷ ys) rest h = elim (pop_step x y ys rest h) [
  | inl (e, p, q) ↦ ground (arith, pop-nil ys e)
  | inr (m, r, e, inl (c, p, q)) ↦ let ih = pop-count_index i m ys r e in ground arith
  | inr (m, r, e, inr (c, p, q)) ↦ let ih = pop-count_index i m ys r e in ground arith
]

-- If every entry of the run queue carries a timestamp, the entry popped comes before every
-- entry of the queue: its timestamp is smaller, or it is the same timestamp and the entry's
-- node was inserted no later.
pub pop_first :
    (x : RunnableEvent) (xs rest : List RunnableEvent)
    → All Stamped xs
    → pop xs ≡ some (x, rest)
    → All (Ahead x) xs
pop_first x [] rest ss h = tt
pop_first x (y ∷ ys) rest ss h = elim (pop_step x y ys rest h) [
  | inl (e, p, q) ↦
      (subst (λ z. Ahead z y) p (Ahead-refl y), subst (All (Ahead x)) (sym (pop-nil ys e)) tt)
  | inr (m, r, e, inl (c, p, q)) ↦
      let ih = pop_first m ys r ss.1 e in
      (subst (λ z. Ahead z y) p ((runnable_cmp-Ahead y m).0 c), subst (λ z. All (Ahead z) ys) p ih)
  | inr (m, r, e, inr (c, p, q)) ↦
      let ih = pop_first m ys r ss.1 e in
      let sm = (pop-All Stamped m ys r e ss.1).0 in
      let all =
        All-map (Ahead m) (Ahead y) ys (λ z. Ahead-trans y m z sm ((runnable_cmp-Ahead y m).1 c))
          ih in
      (subst (λ z. Ahead z y) p (Ahead-refl y), subst (λ z. All (Ahead z) ys) p all)
]
