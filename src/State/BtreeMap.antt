-- ===== src/State/BtreeMap.antt =====
-- `BTreeMap` with timestamps for keys: a list of entries, newest first. Iteration from the back
-- is iteration from the head of the list.
use erdos.Prelude.{ℕ, zero, suc, Bool, List, [], ◌∷◌, Option, none, some, keep, Ordering}
use erdos.Message
use erdos.Message.{Timestamp, le}

abbrev pub TimeMap : Type 0 → Type 0
TimeMap V = List (Timestamp × V)

-- `nth_back`
abbrev pub nth_back : {A : Type 0} → ℕ → List A → Option A
nth_back n [] = none
nth_back zero (x ∷ xs) = some x
nth_back (suc n) (x ∷ xs) = nth_back n xs

-- `next` of an ascending iterator: the last entry.
abbrev pub first : {A : Type 0} → List A → Option A
first [] = none
first (x ∷ xs) = elim (first xs) [ none ↦ some x | some y ↦ some y ]

module _ {V : Type 0} where
  unfoldable pub get : Timestamp → TimeMap V → Option V
  get t [] = none
  get t ((k, v) ∷ m) = elim (Message.cmp k t) [ Ordering.eq ↦ some v | _ ↦ get t m ]

  unfoldable pub insert : Timestamp → V → TimeMap V → TimeMap V
  insert t v [] = (t, v) ∷ []
  insert t v ((k, w) ∷ m) =
      let rest = insert t v m in
      elim (Message.cmp k t) [
        | Ordering.gt ↦ (k, w) ∷ rest
        | Ordering.eq ↦ (k, v) ∷ m
        | Ordering.lt ↦ (t, v) ∷ (k, w) ∷ m
      ]

  -- `entry(t).or_insert(v)`
  unfoldable pub or_default : Timestamp → V → TimeMap V → TimeMap V
  or_default t v [] = (t, v) ∷ []
  or_default t v ((k, w) ∷ m) =
      let rest = or_default t v m in
      elim (Message.cmp k t) [
        | Ordering.gt ↦ (k, w) ∷ rest
        | Ordering.eq ↦ (k, w) ∷ m
        | Ordering.lt ↦ (t, v) ∷ (k, w) ∷ m
      ]

  -- A write through `get_mut`.
  unfoldable pub modify : Timestamp → (V → V) → TimeMap V → TimeMap V
  modify t f [] = []
  modify t f ((k, v) ∷ m) =
      let rest = modify t f m in
      elim (Message.cmp k t) [ Ordering.eq ↦ (k, f v) ∷ m | _ ↦ (k, v) ∷ rest ]

  -- The entries whose key passes the test that a range stands for.
  abbrev pub range : (Timestamp → Bool) → TimeMap V → TimeMap V
  range p m = keep (λ e. p e.0) m

  -- The part from `t` on.
  abbrev pub split_off : Timestamp → TimeMap V → TimeMap V
  split_off t m = range (le t) m
