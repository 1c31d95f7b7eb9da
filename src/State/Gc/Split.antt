-- ===== src/State/Gc/Split.antt =====
-- What the split of `close_time` keeps: everything newer than `t`, and the newest entries up to it.
use erdos.Prelude.{
  ℕ, zero, suc, ◌≡◌, refl, ap, Bool, true, false, [], ◌∷◌, none, some, arith, if◌then◌else◌, take,
  Bool-cases, inl, inr,
}
use erdos.Message.{Timestamp, le, lt}
use erdos.Message.Order.{cmp-reverse, le-lt_trans, lt-le_trans, le_refl, lt-or-le}
use erdos.State.BtreeMap.{TimeMap, range, first, nth_back}
use erdos.State.Sorted.{Sorted, Below}

module _ {V : Type 0} where
  abbrev pub newest : Timestamp → ℕ → TimeMap V → TimeMap V
  newest t h [] = []
  newest t h ((k, v) ∷ m) =
      let rest = newest t h m in if lt t k then (k, v) ∷ rest else take h ((k, v) ∷ m)

  range-Below :
      (s t : Timestamp) (m : TimeMap V) → le s t ≡ true → Below s m → range (λ k. le k t) m ≡ m
  range-Below s t [] h b = refl
  range-Below s t ((k, v) ∷ m) h b =
      ground (arith, range-Below s t m h b.1, cmp-reverse k t, le-lt_trans t k s, lt-le_trans k s t)

  range-above : (s : Timestamp) (m : TimeMap V) → Below s m → range (le s) m ≡ []
  range-above s [] b = refl
  range-above s ((k, v) ∷ m) b = ground (arith, range-above s m b.1, cmp-reverse k s)

  nth_back-Below :
      (s : Timestamp) (n : ℕ) (m : TimeMap V) (e : Timestamp × V)
      → Below s m
      → nth_back n m ≡ some e
      → lt e.0 s ≡ true
  nth_back-Below s zero [] e b h = cc
  nth_back-Below s (suc n) [] e b h = cc
  nth_back-Below s zero ((k, v) ∷ m) e b h = ground (arith, h)
  nth_back-Below s (suc n) ((k, v) ∷ m) e b h = nth_back-Below s n m e b.1 h

  nth_back-take :
      (n : ℕ) (m : TimeMap V) (e : Timestamp × V)
      → Sorted m
      → nth_back n m ≡ some e
      → range (le e.0) m ≡ take (suc n) m
  nth_back-take zero [] e s h = cc
  nth_back-take (suc n) [] e s h = cc
  nth_back-take zero ((k, v) ∷ m) e s h = ground (arith, h, le_refl k, range-above k m s.0)
  nth_back-take (suc n) ((k, v) ∷ m) e s h =
      ground (arith, nth_back-take n m e s.1 h, nth_back-Below k n m e s.0 h)

  nth_back-none : (n : ℕ) (m : TimeMap V) → nth_back n m ≡ none → take (suc n) m ≡ m
  nth_back-none n [] h = refl
  nth_back-none zero ((k, v) ∷ m) h = cc
  nth_back-none (suc n) ((k, v) ∷ m) h = ap (◌∷◌ (k, v)) (nth_back-none n m h)

  nth_back-range :
      (t : Timestamp) (n : ℕ) (m : TimeMap V) (e : Timestamp × V)
      → nth_back n (range (λ k. le k t) m) ≡ some e
      → le e.0 t ≡ true
  nth_back-range t n [] e h = cc
  nth_back-range t zero ((k, v) ∷ m) e h = ground (arith, nth_back-range t zero m e)
  nth_back-range t (suc n) ((k, v) ∷ m) e h =
      ground (arith, nth_back-range t n m e, nth_back-range t (suc n) m e)

  pub range-older :
      (t k : Timestamp) (v : V) (m : TimeMap V)
      → Sorted ((k, v) ∷ m)
      → lt t k ≡ false
      → range (λ k. le k t) ((k, v) ∷ m) ≡ (k, v) ∷ m
  range-older t k v m s h = ground (arith, range-Below k t m, lt-or-le t k, s.0)

  range-newer :
      (t k : Timestamp) (v : V) (m : TimeMap V)
      → lt t k ≡ true
      → range (λ k. le k t) ((k, v) ∷ m) ≡ range (λ k. le k t) m
  range-newer t k v m h = ground (arith, cmp-reverse t k)

  -- With a history, the code splits at the entry that is `suc n`-th from the newest up to `t`.
  pub split-newest :
      (t : Timestamp) (n : ℕ) (m : TimeMap V) (e : Timestamp × V)
      → Sorted m
      → nth_back n (range (λ k. le k t) m) ≡ some e
      → range (le e.0) m ≡ newest t (suc n) m
  split-newest t n [] e s h = refl
  split-newest t n ((k, v) ∷ m) e s h = elim (Bool-cases (lt t k)) [
    | inl newer ↦
        let h' : nth_back n (range (λ k. le k t) m) ≡ some e =
          rw (range-newer t k v m newer) at h in
        let low = le-lt_trans e.0 t k (nth_back-range t n m e h') newer in
        ground (arith, split-newest t n m e s.1 h', low, newer)
    | inr older ↦
        let h' : nth_back n ((k, v) ∷ m) ≡ some e = rw (range-older t k v m s older) at h in
        rw older (nth_back-take n ((k, v) ∷ m) e s h')
  ]

  pub split-none :
      (t : Timestamp) (n : ℕ) (m : TimeMap V)
      → Sorted m
      → nth_back n (range (λ k. le k t) m) ≡ none
      → newest t (suc n) m ≡ m
  split-none t n [] s h = refl
  split-none t n ((k, v) ∷ m) s h = elim (Bool-cases (lt t k)) [
    | inl newer ↦
        let h' : nth_back n (range (λ k. le k t) m) ≡ none = rw (range-newer t k v m newer) at h in
        rw newer (ap (◌∷◌ (k, v)) (split-none t n m s.1 h'))
    | inr older ↦
        let h' : nth_back n ((k, v) ∷ m) ≡ none = rw (range-older t k v m s older) at h in
        rw older (nth_back-none n ((k, v) ∷ m) h')
  ]

  pub range-none-newer :
      (t k : Timestamp) (m : TimeMap V) → Below k m → lt t k ≡ false → range (lt t) m ≡ []
  range-none-newer t k [] b h = refl
  range-none-newer t k ((j, v) ∷ m) b h =
      ground (arith, range-none-newer t k m b.1 h, lt-or-le t k, lt-le_trans j k t, cmp-reverse j t)

  pub first-none :
      (t : Timestamp) (m : TimeMap V) → first (range (lt t) m) ≡ none → newest t 0 m ≡ []
  first-none t [] h = refl
  first-none t ((k, v) ∷ m) h = ground arith

  first-Below :
      (s : Timestamp) (p : Timestamp → Bool) (m : TimeMap V) (e : Timestamp × V)
      → Below s m
      → first (range p m) ≡ some e
      → lt e.0 s ≡ true
  first-Below s p [] e b h = cc
  first-Below s p ((k, v) ∷ m) e b h = ground (arith, first-Below s p m e b.1, b.0)

  -- With no history, the code splits at the oldest entry that is newer than `t`, if there is one.
  pub split-first :
      (t : Timestamp) (m : TimeMap V) (e : Timestamp × V)
      → Sorted m
      → first (range (lt t) m) ≡ some e
      → range (le e.0) m ≡ newest t 0 m
  split-first t [] e s h = cc
  split-first t ((k, v) ∷ m) e s h = ground (
    arith,
    split-first t m e s.1,
    first-none t m,
    first-Below k (lt t) m e s.0,
    range-above k m s.0,
    le_refl k,
    range-none-newer t k m s.0,
  )
