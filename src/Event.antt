-- ===== src/Event.antt =====
-- src/node/operator_event.rs: invocations of callbacks and the order that decides which of two
-- runs first.
pub mod Order
pub mod Conflicts
use erdos.Prelude.{
  ℕ, ◌+◌, Bool, true, false, not, List, [], ◌∷◌, Option, none, some, Ordering, compare, reverse_ord,
  length, contains, if◌then◌else◌, ◌&&◌,
}
use erdos.Prelude.Int.{ℤ, compare_ℤ}
use erdos.Message
use erdos.Message.{Timestamp}

-- The two sets hold each identifier once. The callback is a value that this file never looks at.
pub record OperatorEvent (C : Type 0) : Type 0 where
  pub timestamp : Timestamp
  pub is_watermark_callback : Bool
  pub priority : ℤ
  pub callback : C
  pub read_ids : List ℕ
  pub write_ids : List ℕ

-- `HashSet::is_disjoint`
unfoldable pub is_disjoint : List ℕ → List ℕ → Bool
is_disjoint [] ys = true
is_disjoint (x ∷ xs) ys = not (contains ys x) && is_disjoint xs ys

module _ {C : Type 0} where
  -- `None` is the panic on a circular dependency.
  unfoldable pub resolve_access_conflicts : OperatorEvent C → OperatorEvent C → Option Ordering
  resolve_access_conflicts x y =
      let has_ww_conflicts = not (is_disjoint x.write_ids y.write_ids) in
      let has_rw_conflicts = not (is_disjoint x.read_ids y.write_ids) in
      let has_wr_conflicts = not (is_disjoint x.write_ids y.read_ids) in
      let by_priority = compare_ℤ x.priority y.priority in
      let x_num_dependencies = length x.read_ids + length x.write_ids in
      let y_num_dependencies = length y.read_ids + length y.write_ids in
      if has_ww_conflicts
      then elim by_priority [
        | Ordering.eq ↦ some (compare x_num_dependencies y_num_dependencies)
        | Ordering.lt ↦ some Ordering.lt
        | Ordering.gt ↦ some Ordering.gt
      ]
      else if has_rw_conflicts
      then (if has_wr_conflicts then none else some Ordering.gt)
      else (if has_wr_conflicts then some Ordering.lt else some by_priority)

  -- Two watermark callbacks.
  unfoldable pub cmp_watermarks : OperatorEvent C → OperatorEvent C → Option Ordering
  cmp_watermarks x y = elim (Message.cmp x.timestamp y.timestamp) [
    | Ordering.eq ↦ elim (resolve_access_conflicts x y) [
      | none ↦ none
      | some Ordering.eq ↦ some Ordering.gt
      | some Ordering.lt ↦ some Ordering.lt
      | some Ordering.gt ↦ some Ordering.gt
    ]
    | Ordering.lt ↦ some Ordering.lt
    | Ordering.gt ↦ some Ordering.gt
  ]

  -- A watermark callback and a message callback.
  unfoldable pub cmp_watermark_message : OperatorEvent C → OperatorEvent C → Ordering
  cmp_watermark_message x y = elim (Message.cmp x.timestamp y.timestamp) [
    | Ordering.gt ↦ Ordering.gt
    | Ordering.eq ↦ Ordering.gt
    | Ordering.lt ↦ Ordering.eq
  ]

  cmp_kinds : Bool → Bool → OperatorEvent C → OperatorEvent C → Option Ordering
  cmp_kinds true true x y = cmp_watermarks x y
  cmp_kinds true false x y = some (cmp_watermark_message x y)
  cmp_kinds false true x y = some (reverse_ord (cmp_watermark_message y x))
  cmp_kinds false false x y = resolve_access_conflicts x y

  -- `Ord::cmp`: `some lt` if the first event precedes the second.
  unfoldable pub event_cmp : OperatorEvent C → OperatorEvent C → Option Ordering
  unfolding cmp_kinds
  event_cmp x y = cmp_kinds x.is_watermark_callback y.is_watermark_callback x y
