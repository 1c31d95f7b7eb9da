-- ===== src/State/Sorted.antt =====
-- The order of a map's keys, and that every operation keeps it and the agreement of two maps.
use erdos.Prelude.{◌≡◌, refl, Bool, true, List, [], ◌∷◌, some, arith, inl, inr, Ordering-cases}
use erdos.Message
use erdos.Message.{Timestamp, le, lt}
use erdos.Message.Order.{cmp-reverse, cmp_trans, cmp_refl}
use erdos.State.BtreeMap.{TimeMap, get, insert, or_default, modify, range}

module _ {V : Type 0} where
  -- Every key of the map is older than `t`.
  abbrev pub Below : Timestamp → TimeMap V → Type 0
  Below t [] = Unit
  Below t ((k, v) ∷ m) = (lt k t ≡ true) × Below t m

  -- Newest first, with no key twice.
  abbrev pub Sorted : TimeMap V → Type 0
  Sorted [] = Unit
  Sorted ((k, v) ∷ m) = Below k m × Sorted m

  pub Below-insert :
      (s t : Timestamp) (v : V) (m : TimeMap V) → lt t s ≡ true → Below s m → Below s (insert t v m)
  unfolding insert
  Below-insert s t v [] h b = (h, tt)
  Below-insert s t v ((k, w) ∷ m) h b = ground (arith, Below-insert s t v m)

  Below-trans : (s t : Timestamp) (m : TimeMap V) → lt s t ≡ true → Below s m → Below t m
  Below-trans s t [] h b = tt
  Below-trans s t ((k, w) ∷ m) h b = (ground (arith, cmp_trans k s t), Below-trans s t m h b.1)

  pub Sorted-insert : (t : Timestamp) (v : V) (m : TimeMap V) → Sorted m → Sorted (insert t v m)
  unfolding insert
  Sorted-insert t v [] s = (tt, tt)
  Sorted-insert t v ((k, w) ∷ m) s =
      ground (arith, Sorted-insert t v m, Below-insert k t v m, Below-trans k t m, cmp-reverse k t)

  Below-or_default :
      (s t : Timestamp) (v : V) (m : TimeMap V)
      → lt t s ≡ true
      → Below s m
      → Below s (or_default t v m)
  unfolding or_default
  Below-or_default s t v [] h b = (h, tt)
  Below-or_default s t v ((k, w) ∷ m) h b = ground (arith, Below-or_default s t v m)

  pub Sorted-or_default :
      (t : Timestamp) (v : V) (m : TimeMap V) → Sorted m → Sorted (or_default t v m)
  unfolding or_default
  Sorted-or_default t v [] s = (tt, tt)
  Sorted-or_default t v ((k, w) ∷ m) s =
      ground (
        arith,
        Sorted-or_default t v m,
        Below-or_default k t v m,
        Below-trans k t m,
        cmp-reverse k t,
      )

  abbrev pub keys : TimeMap V → List Timestamp
  keys [] = []
  keys ((k, v) ∷ m) = k ∷ keys m

  pub keys-modify : (t : Timestamp) (f : V → V) (m : TimeMap V) → keys (modify t f m) ≡ keys m
  unfolding modify
  keys-modify t f [] = refl
  keys-modify t f ((k, v) ∷ m) = ground (arith, keys-modify t f m)

  Below-modify : (s t : Timestamp) (f : V → V) (m : TimeMap V) → Below s m → Below s (modify t f m)
  unfolding modify
  Below-modify s t f [] b = tt
  Below-modify s t f ((k, v) ∷ m) b = ground (arith, Below-modify s t f m)

  pub Sorted-modify : (t : Timestamp) (f : V → V) (m : TimeMap V) → Sorted m → Sorted (modify t f m)
  unfolding modify
  Sorted-modify t f [] s = tt
  Sorted-modify t f ((k, v) ∷ m) s = ground (arith, Sorted-modify t f m, Below-modify k t f m)

  Below-range :
      (s : Timestamp) (p : Timestamp → Bool) (m : TimeMap V) → Below s m → Below s (range p m)
  Below-range s p [] b = tt
  Below-range s p ((k, v) ∷ m) b = ground (arith, Below-range s p m)

  pub Sorted-range : (p : Timestamp → Bool) (m : TimeMap V) → Sorted m → Sorted (range p m)
  Sorted-range p [] s = tt
  Sorted-range p ((k, v) ∷ m) s = ground (arith, Sorted-range p m, Below-range k p m)

  -- After `entry(t).or_default()` the key is there.
  pub get-or_default :
      (t : Timestamp) (v : V) (m : TimeMap V) → (w : V) × (get t (or_default t v m) ≡ some w)
  unfolding get or_default
  get-or_default t v [] = (v, ground (arith, cmp_refl t))
  get-or_default t v ((k, w) ∷ m) = elim (Ordering-cases (Message.cmp k t)) [
    | inl l ↦ (v, ground (arith, cmp_refl t))
    | inr (inl e) ↦ (w, ground arith)
    | inr (inr g) ↦ let (u, h) = get-or_default t v m in (u, ground arith)
  ]

module _ {V W : Type 0} where
  -- Operations on two maps with the same keys leave them with the same keys.
  pub insert-keys :
      (t : Timestamp) (v : V) (w : W) (m : TimeMap V) (n : TimeMap W)
      → keys m ≡ keys n
      → keys (insert t v m) ≡ keys (insert t w n)
  unfolding insert
  insert-keys t v w [] [] h = refl
  insert-keys t v w [] (y ∷ n) h = ground arith
  insert-keys t v w (x ∷ m) [] h = ground arith
  insert-keys t v w ((k, a) ∷ m) ((l, b) ∷ n) h = ground (arith, insert-keys t v w m n)

  pub or_default-keys :
      (t : Timestamp) (v : V) (w : W) (m : TimeMap V) (n : TimeMap W)
      → keys m ≡ keys n
      → keys (or_default t v m) ≡ keys (or_default t w n)
  unfolding or_default
  or_default-keys t v w [] [] h = refl
  or_default-keys t v w [] (y ∷ n) h = ground arith
  or_default-keys t v w (x ∷ m) [] h = ground arith
  or_default-keys t v w ((k, a) ∷ m) ((l, b) ∷ n) h = ground (arith, or_default-keys t v w m n)

  pub range-keys :
      (p : Timestamp → Bool) (m : TimeMap V) (n : TimeMap W)
      → keys m ≡ keys n
      → keys (range p m) ≡ keys (range p n)
  range-keys p [] [] h = refl
  range-keys p [] (y ∷ n) h = ground arith
  range-keys p (x ∷ m) [] h = ground arith
  range-keys p ((k, a) ∷ m) ((l, b) ∷ n) h = ground (arith, range-keys p m n)
