-- ===== src/State/Gc/Visible.antt =====
-- src/dataflow/state.rs: what later watermark callbacks see of a history that close_time has split.
use erdos.Prelude.{ℕ, zero, suc, ◌≤◌, ◌≡◌, refl, ap, true, false, [], ◌∷◌, none, some, arith, take}
use erdos.Message.{Timestamp, le, lt}
use erdos.Message.Order.{cmp-reverse, cmp_trans, le-lt_trans, lt-le_trans, lt-or-le}
use erdos.State.BtreeMap.{TimeMap, get, or_default, range}
use erdos.State.Sorted.{Sorted, Below}
use erdos.State.Gc.Split.{newest, range-older}

module _ {V : Type 0} where
  range-take :
      (s now : Timestamp) (h : ℕ) (m : TimeMap V)
      → Below s m
      → le s now ≡ true
      → range (λ k. le k now) (take h m) ≡ take h m
  range-take s now zero m b l = refl
  range-take s now (suc h) [] b l = refl
  range-take s now (suc h) ((k, v) ∷ m) b l =
      ground (arith, range-take s now h m b.1 l, lt-le_trans k s now, b.0)

  take-take : (n h : ℕ) (m : TimeMap V) → n ≤ h → take n (take h m) ≡ take n m
  take-take zero h m b = refl
  take-take (suc n) zero m b = absurd (omega arith)
  take-take (suc n) (suc h) [] b = refl
  take-take (suc n) (suc h) (x ∷ m) b = ap (◌∷◌ x) (take-take n h m (omega arith))

  visible-older :
      (t now k : Timestamp) (v : V) (n h : ℕ) (m : TimeMap V)
      → Sorted ((k, v) ∷ m)
      → lt t now ≡ true
      → lt t k ≡ false
      → n ≤ h
      → take n (range (λ k. le k now) (take h ((k, v) ∷ m)))
        ≡ take n (range (λ k. le k now) ((k, v) ∷ m))
  visible-older t now k v n h m s l older b =
      let low = le-lt_trans k t now (lt-or-le t k older) l in
      let whole : range (λ k. le k now) ((k, v) ∷ m) ≡ (k, v) ∷ m =
        range-older now k v m s (ground (arith, low, cmp-reverse k now)) in
      let part : range (λ k. le k now) (take h ((k, v) ∷ m)) ≡ take h ((k, v) ∷ m) =
        first-part h low in
      rw (part, whole) (take-take n h ((k, v) ∷ m) b)
    where
      first-part :
          (h : ℕ)
          → lt k now ≡ true
          → range (λ k. le k now) (take h ((k, v) ∷ m)) ≡ take h ((k, v) ∷ m)
      first-part zero low = refl
      first-part (suc h) low = ground (arith, range-take k now h m s.0)

  -- What a watermark callback at a later time can see is not changed by the split.
  pub visible-newest :
      (t now : Timestamp) (n h : ℕ) (m : TimeMap V)
      → Sorted m
      → lt t now ≡ true
      → n ≤ h
      → take n (range (λ k. le k now) (newest t h m)) ≡ take n (range (λ k. le k now) m)
  visible-newest t now n h [] s l b = refl
  visible-newest t now zero h ((k, v) ∷ m) s l b = refl
  visible-newest t now (suc n) h ((k, v) ∷ m) s l b = ground (
    arith,
    visible-newest t now (suc n) h m s.1 l b,
    visible-newest t now n h m s.1 l (omega arith),
    visible-older t now k v (suc n) h m s l,
  )

  get-Below : (s now : Timestamp) (m : TimeMap V) → Below s m → lt s now ≡ true → get now m ≡ none
  unfolding get
  get-Below s now [] b h = refl
  get-Below s now ((k, v) ∷ m) b h = ground (arith, get-Below s now m b.1 h, cmp_trans k s now, b.0)

  -- The same with one entry more, if there is one between `t` and the later time.
  pub visible-current :
      (t now : Timestamp) (v : V) (h : ℕ) (m : TimeMap V)
      → Sorted m
      → lt t now ≡ true
      → get now m ≡ some v
      → take (suc h) (range (λ k. le k now) (newest t h m)) ≡ take (suc h) (range (λ k. le k now) m)
  unfolding get
  visible-current t now w h [] s l g = refl
  visible-current t now w h ((k, v) ∷ m) s l g = ground (
    arith,
    visible-newest t now h h m s.1 l (omega arith),
    visible-current t now w h m s.1 l,
    get-Below k now m s.0,
    le-lt_trans k t now,
    lt-or-le t k,
  )

  -- An entry made for a later time stands outside of what the split looks at.
  pub newest-or_default :
      (t now : Timestamp) (d : V) (h : ℕ) (m : TimeMap V)
      → lt t now ≡ true
      → newest t h (or_default now d m) ≡ or_default now d (newest t h m)
  unfolding or_default
  newest-or_default t now d h [] l = ground arith
  newest-or_default t now d zero ((k, v) ∷ m) l = ground (
    arith,
    newest-or_default t now d zero m l,
    lt-le_trans t now k,
    cmp-reverse k now,
    le-lt_trans k t now,
    lt-or-le t k,
  )
  newest-or_default t now d (suc h) ((k, v) ∷ m) l = ground (
    arith,
    newest-or_default t now d (suc h) m l,
    lt-le_trans t now k,
    cmp-reverse k now,
    le-lt_trans k t now,
    lt-or-le t k,
  )
