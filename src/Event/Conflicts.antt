-- ===== src/Event/Conflicts.antt =====
-- `resolve_access_conflicts`: when it panics, and what it says with its arguments swapped.
use erdos.Prelude.{
  ℕ, ◌≡◌, refl, true, false, not, List, [], ◌∷◌, Option, none, some, Ordering, reverse_ord,
  contains, ◌↔◌, arith, ◌&&◌,
}
use erdos.Prelude.Int.{compare_ℤ-reverse}
use erdos.Event.{OperatorEvent, is_disjoint, resolve_access_conflicts}

is_disjoint-nil : (xs : List ℕ) → is_disjoint xs [] ≡ true
unfolding is_disjoint
is_disjoint-nil [] = refl
is_disjoint-nil (x ∷ xs) = is_disjoint-nil xs

is_disjoint-cons :
    (xs ys : List ℕ) (y : ℕ) → is_disjoint xs (y ∷ ys) ≡ (not (contains xs y) && is_disjoint xs ys)
unfolding is_disjoint
is_disjoint-cons [] ys y = refl
is_disjoint-cons (x ∷ xs) ys y = ground (arith, is_disjoint-cons xs ys y)

pub is_disjoint_comm : (xs ys : List ℕ) → is_disjoint xs ys ≡ is_disjoint ys xs
unfolding is_disjoint
is_disjoint_comm xs [] = is_disjoint-nil xs
is_disjoint_comm xs (y ∷ ys) = ground (arith, is_disjoint-cons xs ys y, is_disjoint_comm xs ys)

-- What an answer becomes when the two events change places.
abbrev pub swapped : Option Ordering → Option Ordering
swapped none = none
swapped (some o) = some (reverse_ord o)

module _ {C : Type 0} (x y : OperatorEvent C) where
  -- The panic happens exactly when neither event writes what the other writes, and each reads
  -- what the other writes.
  pub resolve_access_conflicts-panics : (resolve_access_conflicts x y ≡ none) ↔ (
      (is_disjoint x.write_ids y.write_ids ≡ true)
      × (is_disjoint x.read_ids y.write_ids ≡ false)
      × (is_disjoint x.write_ids y.read_ids ≡ false))
  unfolding resolve_access_conflicts
  resolve_access_conflicts-panics = (λ h. ground arith, λ h. ground arith)

  -- Swapping the arguments reverses the answer.
  pub resolve_access_conflicts-swap :
      resolve_access_conflicts y x ≡ swapped (resolve_access_conflicts x y)
  unfolding resolve_access_conflicts
  resolve_access_conflicts-swap = ground (
    arith,
    is_disjoint_comm x.write_ids y.write_ids,
    is_disjoint_comm x.read_ids y.write_ids,
    is_disjoint_comm x.write_ids y.read_ids,
    compare_ℤ-reverse x.priority y.priority,
  )
