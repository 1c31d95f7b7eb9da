-- ===== src/Lattice/Runnable.antt =====
-- src/node/lattice.rs: `RunnableEvent`, an index into the lattice with a priority, and the
-- lists of them.
use erdos.Prelude.{
  ℕ, Bool, not, List, [], ◌∷◌, Option, none, some, Ordering, ◌==◌, contains, if◌then◌else◌, compare,
  reverse_ord,
}
use erdos.Message
use erdos.Message.{Timestamp}

pub record RunnableEvent : Type 0 where
  pub node_index : ℕ
  pub timestamp : Option Timestamp

-- `RunnableEvent::new(i).with_timestamp(t)`
abbrev pub with_timestamp : ℕ → Timestamp → RunnableEvent
with_timestamp i t = record { node_index = i; timestamp = some t }

unfoldable pub cmp_timestamps : Option Timestamp → Option Timestamp → Ordering → Ordering
cmp_timestamps (some s) (some t) by_index = elim (Message.cmp s t) [
  | Ordering.lt ↦ Ordering.gt
  | Ordering.gt ↦ Ordering.lt
  | Ordering.eq ↦ by_index
]
cmp_timestamps (some s) none by_index = by_index
cmp_timestamps none t by_index = by_index

-- `Ord::cmp`, the greatest of which a `BinaryHeap` hands out first.
unfoldable pub runnable_cmp : RunnableEvent → RunnableEvent → Ordering
runnable_cmp x y =
    cmp_timestamps x.timestamp y.timestamp (reverse_ord (compare x.node_index y.node_index))

-- `BinaryHeap::pop`, on the elements in any order.
unfoldable pub pop : List RunnableEvent → Option (RunnableEvent × List RunnableEvent)
pop [] = none
pop (x ∷ xs) = elim (pop xs) [
  | none ↦ some (x, [])
  | some (m, rest) ↦ elim (runnable_cmp x m) [
    | Ordering.lt ↦ some (m, x ∷ rest)
    | Ordering.eq ↦ some (x, m ∷ rest)
    | Ordering.gt ↦ some (x, m ∷ rest)
  ]
]

-- `events.iter().position(|e| e == &event)`, then `remove`.
unfoldable pub remove_index : ℕ → List RunnableEvent → Option (List RunnableEvent)
remove_index i [] = none
remove_index i (x ∷ xs) =
    let rest = remove_index i xs in
    if x.node_index == i then some xs else elim rest [ none ↦ none | some ys ↦ some (x ∷ ys) ]

-- The indices under which an event stands in the run queue.
unfoldable pub queued : ℕ → List RunnableEvent → List ℕ
queued i [] = []
queued i (x ∷ xs) =
    let rest = queued i xs in if x.node_index == i then x.node_index ∷ rest else rest

-- `!demoted_leaves.contains(&event.node_index)`
abbrev pub not_in : List ℕ → RunnableEvent → Bool
not_in ns x = not (contains ns x.node_index)
