-- ===== src/State/Window.antt =====
-- How far back `get_state` and `iter_states` reach.
use erdos.Prelude.{
  ℕ, zero, suc, ◌≡◌, refl, true, [], ◌∷◌, none, some, arith, if◌then◌else◌, ◌&&◌, leb, take, length,
}
use erdos.Message.{Timestamp, le, lt}
use erdos.Message.Order.{cmp-reverse, cmp_trans, cmp_eq_left, cmp_eq_right, cmp_refl, lt-le_trans}
use erdos.State.BtreeMap.{TimeMap, get, range, nth_back}
use erdos.State.Sorted.{Sorted, Below}
use erdos.State.{TimeVersionedState, watermark_callback, ok, get_within, get_state, iter_states}
use erdos.State.Access.{IsValid}

module _ {V : Type 0} where
  get-absent : (s t : Timestamp) (m : TimeMap V) → Below s m → lt s t ≡ true → get t m ≡ none
  unfolding get
  get-absent s t [] b h = refl
  get-absent s t ((k, v) ∷ m) b h = ground (arith, get-absent s t m b.1 h, cmp_trans k s t, b.0)

  range-empty :
      (t now s : Timestamp) (m : TimeMap V)
      → Below s m
      → le s t ≡ true
      → range (λ k. le t k && le k now) m ≡ []
  range-empty t now s [] b h = refl
  range-empty t now s ((k, v) ∷ m) b h =
      ground (arith, range-empty t now s m b.1 h, lt-le_trans k s t, cmp-reverse k t, b.0)

  -- The entries up to `now`, cut after `n`, hold the entry of `t` exactly when at most `n` entries
  -- lie between the two, both included.
  get-take :
      (t now : Timestamp) (n : ℕ) (m : TimeMap V)
      → Sorted m
      → le t now ≡ true
      → get t (take n (range (λ k. le k now) m))
        ≡ (if leb (length (range (λ k. le t k && le k now) m)) n then get t m else none)
  unfolding get
  get-take t now zero [] s h = refl
  get-take t now (suc n) [] s h = ground arith
  get-take t now zero ((k, v) ∷ m) s h =
      ground (
        arith,
        get-take t now zero m s.1 h,
        cmp-reverse k now,
        cmp-reverse t k,
        cmp_eq_left t k now,
      )
  get-take t now (suc n) ((k, v) ∷ m) s h = ground (
    arith,
    get-take t now (suc n) m s.1 h,
    get-take t now n m s.1 h,
    cmp_trans t now k,
    cmp-reverse k now,
    cmp-reverse t k,
    cmp_eq_left t k now,
    range-empty t now k m s.0,
    get-absent k t m s.0,
  )

  range_before-empty :
      (t now s : Timestamp) (m : TimeMap V)
      → Below s m
      → le s t ≡ true
      → range (λ k. le t k && lt k now) m ≡ []
  range_before-empty t now s [] b h = refl
  range_before-empty t now s ((k, v) ∷ m) b h =
      ground (arith, range_before-empty t now s m b.1 h, lt-le_trans k s t, cmp-reverse k t, b.0)

  get-before :
      (t now : Timestamp) (m : TimeMap V)
      → lt t now ≡ true
      → range (λ k. le t k && lt k now) m ≡ []
      → get t m ≡ none
  unfolding get
  get-before t now [] h e = refl
  get-before t now ((k, v) ∷ m) h e =
      ground (arith, get-before t now m h, cmp-reverse k t, cmp_eq_left k t now)

  nth_back-window :
      (t now : Timestamp) (n : ℕ) (m : TimeMap V)
      → Sorted m
      → le t now ≡ true
      → (elim (nth_back n (range (λ k. le t k && lt k now) m)) [
        | none ↦ get t m
        | some (o, _) ↦ if le o t then get t m else none
      ])
        ≡ (if leb (length (range (λ k. le t k && lt k now) m)) (suc n) then get t m else none)
  unfolding get
  nth_back-window t now n [] s h = ground arith
  nth_back-window t now zero ((k, v) ∷ m) s h = ground (
    arith,
    nth_back-window t now zero m s.1 h,
    range_before-empty t now k m s.0,
    get-before t now m,
    get-absent k t m s.0,
    cmp-reverse t k,
    cmp_eq_left t k now,
    cmp_trans t k now,
    cmp_refl t,
  )
  nth_back-window t now (suc n) ((k, v) ∷ m) s h = ground (
    arith,
    nth_back-window t now n m s.1 h,
    nth_back-window t now (suc n) m s.1 h,
    range_before-empty t now k m s.0,
    get-absent k t m s.0,
    cmp-reverse t k,
    cmp_eq_left t k now,
    cmp_trans t k now,
  )

  window-same :
      (t now s : Timestamp) (m : TimeMap V)
      → Below s m
      → le s now ≡ true
      → range (λ k. le t k && le k now) m ≡ range (λ k. le t k && lt k now) m
  window-same t now s [] b h = refl
  window-same t now s ((k, v) ∷ m) b h =
      ground (arith, window-same t now s m b.1 h, lt-le_trans k s now, b.0)

  window-current :
      (t now : Timestamp) (c : V) (m : TimeMap V)
      → Sorted m
      → le t now ≡ true
      → get now m ≡ some c
      → length (range (λ k. le t k && le k now) m)
        ≡ suc (length (range (λ k. le t k && lt k now) m))
  unfolding get
  window-current t now c [] s h g = cc
  window-current t now c ((k, v) ∷ m) s h g = ground (
    arith,
    window-current t now c m s.1 h,
    window-same t now k m s.0,
    get-absent k now m s.0,
    cmp_eq_right k now t,
    cmp-reverse k now,
  )

module _ {S T : Type 0} (s : TimeVersionedState S T) (t : Timestamp) where
  -- `get_state` gives the state of a time exactly when the time is not in the future and at most
  -- `history_size + 1` states lie between it and the current time, itself included and the
  -- current one not.
  pub get_state_window :
      IsValid s
      → s.access_context ≡ watermark_callback
      → get_state s t
        ≡ ok (
            if le t s.current_time
              && leb
                  (length (range (λ k. le t k && lt k s.current_time) s.state_history))
                  (suc s.history_size)
            then get t s.state_history
            else none)
  unfolding get_state get_within
  get_state_window v c =
      ground (arith, nth_back-window t s.current_time s.history_size s.state_history v.states)

  -- `iter_states` shows the state of a time up to the current one exactly when at most
  -- `history_size + 1` states lie between the two, both included.
  pub iter_states_window :
      (l : TimeMap S)
      → IsValid s
      → le t s.current_time ≡ true
      → iter_states s ≡ ok l
      → get t l ≡ (
          if leb
            (length (range (λ k. le t k && le k s.current_time) s.state_history))
            (suc s.history_size)
          then get t s.state_history
          else none)
  unfolding iter_states
  iter_states_window l v h e =
      ground (arith, get-take t s.current_time (suc s.history_size) s.state_history v.states)

  iter_states-context :
      (l : TimeMap S) → iter_states s ≡ ok l → s.access_context ≡ watermark_callback
  unfolding iter_states
  iter_states-context l e = ground arith

  -- `get_state` reaches one past state further than `iter_states`: where the current time has
  -- its state, and `history_size + 1` older ones lie between `t` and it, `t` included, the state
  -- of `t` is given by the one and left out by the other.
  pub get_state_one_further :
      (l : TimeMap S) (c v : S)
      → IsValid s
      → lt t s.current_time ≡ true
      → get s.current_time s.state_history ≡ some c
      → get t s.state_history ≡ some v
      → length (range (λ k. le t k && lt k s.current_time) s.state_history) ≡ suc s.history_size
      → iter_states s ≡ ok l
      → (get_state s t ≡ ok (some v)) × (get t l ≡ none)
  get_state_one_further l c v valid h now past size e = (
    ground (arith, get_state_window valid (iter_states-context l e)),
    ground (
      arith,
      iter_states_window l valid (ground arith) e,
      window-current t s.current_time c s.state_history valid.states (ground arith) now,
    ),
  )
