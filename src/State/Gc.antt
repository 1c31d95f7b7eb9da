-- ===== src/State/Gc.antt =====
-- `close_time` against what later watermark callbacks can see.
pub mod Split
pub mod Visible
use erdos.Prelude.{
  ℕ, zero, suc, ◌≤◌, ◌<◌, ◌-◌, ◌+◌, ◌≡◌, refl, sym, ◌∙◌, ap, Bool, true, false, List, [], ◌∷◌, ◌++◌,
  Option, none, some, arith, inl, inr, if◌then◌else◌, ◌==◌, ◌&&◌, take, Bool-cases, Option-cases,
  length, ◌⊎◌, ◌≢◌,
}
use erdos.Message
use erdos.Message.{Timestamp, le, lt}
use erdos.State.BtreeMap.{TimeMap, get, or_default, range, split_off, first, nth_back}
use erdos.State.Sorted.{Sorted, keys, Sorted-or_default, get-or_default}
use erdos.State.{
  TimeVersionedState, watermark_callback, Outcome, ok, split_option, close_time, iter_states,
  iter_messages, set_current_time, set_access_context,
}
use erdos.State.Access.{IsValid}
use Split.{range-none-newer, first-none, newest, split-newest, split-none, split-first}
use Visible.{visible-current, newest-or_default}

split_option-suc :
    {V : Type 0} (n : ℕ) (t : Timestamp) (m : TimeMap V)
    → split_option (suc n) t m ≡ nth_back n (range (λ k. le k t) m)
unfolding split_option
split_option-suc n t m = ground arith

module _ {V W : Type 0} where
  -- Maps over the same times are split at the same time.
  nth_back-keys :
      (p : Timestamp → Bool) (n : ℕ) (m : TimeMap V) (l : TimeMap W) (e : Timestamp × V)
      → keys m ≡ keys l
      → nth_back n (range p m) ≡ some e
      → (w : W) × (nth_back n (range p l) ≡ some (e.0, w))
  nth_back-keys p n [] l e q h = cc
  nth_back-keys p n (x ∷ m) [] e q h = absurd (cc)
  nth_back-keys p zero ((k, v) ∷ m) ((j, w) ∷ l) e q h = elim (Bool-cases (p k)) [
    | inl y ↦ (w, ground arith)
    | inr z ↦
        let (u, r) = nth_back-keys p zero m l e (ground arith) (ground arith) in (u, ground arith)
  ]
  nth_back-keys p (suc n) ((k, v) ∷ m) ((j, w) ∷ l) e q h = elim (Bool-cases (p k)) [
    | inl y ↦
        let (u, r) = nth_back-keys p n m l e (ground arith) (ground arith) in (u, ground arith)
    | inr z ↦
        let (u, r) = nth_back-keys p (suc n) m l e (ground arith) (ground arith) in
        (u, ground arith)
  ]

  first-agree :
      (p : Timestamp → Bool) (m : TimeMap V) (l : TimeMap W)
      → keys m ≡ keys l
      → ((first (range p m) ≡ none) × (first (range p l) ≡ none))
        ⊎ ((k : Timestamp) × (v : V) × (w : W) × (first (range p m) ≡ some (k, v))
            × (first (range p l) ≡ some (k, w)))
  first-agree p [] [] q = inl (refl, refl)
  first-agree p [] (y ∷ l) q = absurd (cc)
  first-agree p (x ∷ m) [] q = absurd (cc)
  first-agree p ((k, v) ∷ m) ((j, w) ∷ l) q = elim (Bool-cases (p k)) [
    | inl y ↦ elim (first-agree p m l (ground arith)) [
      | inl (a, b) ↦ inr (k, v, w, ground arith, ground arith)
      | inr (i, a, b, c, d) ↦ inr (i, a, b, ground arith, ground arith)
    ]
    | inr z ↦ elim (first-agree p m l (ground arith)) [
      | inl (a, b) ↦ inl (ground arith, ground arith)
      | inr (i, a, b, c, d) ↦ inr (i, a, b, ground arith, ground arith)
    ]
  ]

  split_option-keys :
      (h : ℕ) (t : Timestamp) (m : TimeMap V) (l : TimeMap W) (e : Timestamp × V)
      → keys m ≡ keys l
      → split_option h t m ≡ some e
      → (w : W) × (split_option h t l ≡ some (e.0, w))
  unfolding split_option
  split_option-keys zero t m l e q s = elim (first-agree (lt t) m l q) [
    | inl (a, b) ↦ absurd (ground arith)
    | inr (k, v, w, a, b) ↦ (w, ground arith)
  ]
  split_option-keys (suc h) t m l e q s =
      let (w, r) = nth_back-keys (λ k. le k t) h m l e q (sym (split_option-suc h t m) ∙ s) in
      (w, split_option-suc h t l ∙ r)

module _ {V : Type 0} where
  split_option-newest :
      (h : ℕ) (t : Timestamp) (m : TimeMap V) (e : Timestamp × V)
      → Sorted m
      → split_option h t m ≡ some e
      → split_off e.0 m ≡ newest t h m
  unfolding split_option
  split_option-newest zero t m e s h = split-first t m e s h
  split_option-newest (suc n) t m e s h = split-newest t n m e s (sym (split_option-suc n t m) ∙ h)

  -- At a later time both maps show the same entries, the time itself included.
  later_entries :
      (h : ℕ) (t now : Timestamp) (d : V) (m : TimeMap V)
      → Sorted m
      → lt t now ≡ true
      → take (suc h) (range (λ k. le k now) (or_default now d (newest t h m)))
        ≡ take (suc h) (range (λ k. le k now) (or_default now d m))
  later_entries h t now d m s l =
      let (v, g) = get-or_default now d m in
      rw (← newest-or_default t now d h m l)
        (visible-current t now v h (or_default now d m) (Sorted-or_default now d m s) l g)

abbrev is_empty : {A : Type 0} → List A → Bool
is_empty [] = true
is_empty (x ∷ xs) = false

-- No history is wanted, and nothing is newer.
abbrev keeps_all : {V : Type 0} → ℕ → Timestamp → TimeMap V → Bool
keeps_all h t m = h == 0 && is_empty (newest t 0 m)

module _ {V : Type 0} where
  newest-nonempty :
      (t : Timestamp) (m : TimeMap V) (e : Timestamp × V)
      → Sorted m
      → first (range (lt t) m) ≡ some e
      → is_empty (newest t 0 m) ≡ false
  newest-nonempty t [] e s h = cc
  newest-nonempty t ((k, v) ∷ m) e s h = ground (arith, h, range-none-newer t k m s.0)

  split_option-some :
      (h : ℕ) (t : Timestamp) (m : TimeMap V) (e : Timestamp × V)
      → Sorted m
      → split_option h t m ≡ some e
      → keeps_all h t m ≡ false
  unfolding split_option
  split_option-some zero t m e s h = newest-nonempty t m e s h
  split_option-some (suc n) t m e s h = ground arith

  split_option-none :
      {W : Type 0} (h : ℕ) (t : Timestamp) (m : TimeMap V) (l : TimeMap W)
      → Sorted m
      → Sorted l
      → keys l ≡ keys m
      → split_option h t m ≡ none
      → (keeps_all h t m ≡ true)
        ⊎ (keeps_all h t m ≡ false) × (newest t h m ≡ m) × (newest t h l ≡ l)
  unfolding split_option
  split_option-none zero t m l sm sl q h = inl (rw (first-none t m h) refl)
  split_option-none (suc n) t m l sm sl q h = elim (Option-cases (split_option (suc n) t l)) [
    | inr (e, at) ↦ let (w, at') = split_option-keys (suc n) t l m e q at in absurd (cc (at', h))
    | inl none_in ↦ inr (
      ground arith,
      split-none t n m sm (sym (split_option-suc n t m) ∙ h),
      split-none t n l sl (sym (split_option-suc n t l) ∙ none_in),
    )
  ]

module _ {S T : Type 0} where
  -- Whether there is a time to split at, as the history is read.
  close_time-split :
      (s : TimeVersionedState S T) (t : Timestamp)
      → IsValid s
      → s.access_context ≡ watermark_callback
      → (close_time s t ≡ ok s)
        ⊎ (close_time s t
            ≡ ok (record s {
              state_history = newest t s.history_size s.state_history;
              message_history = newest t s.history_size s.message_history;
            }))
  unfolding close_time
  close_time-split s t v c = elim (Option-cases (split_option s.history_size t s.state_history)) [
    | inl e ↦ inl (ground arith)
    | inr (e, at) ↦
        let (w, at') =
          split_option-keys s.history_size t s.state_history s.message_history e (sym v.same) at in
        inr (
          ground (
            arith,
            split_option-newest s.history_size t s.state_history e v.states at,
            split_option-newest s.history_size t s.message_history (e.0, w) v.messages at',
          ))
  ]

  -- The histories after `close_time`.
  abbrev collected : TimeVersionedState S T → Timestamp → TimeVersionedState S T
  collected s t = record s {
    state_history = newest t s.history_size s.state_history;
    message_history = newest t s.history_size s.message_history;
  }

  -- In a watermark callback `close_time` succeeds: it keeps of both histories what is newer than
  -- `t` and the newest `history_size` entries up to it, and nothing else. The exception is a
  -- history size of zero with no state that is newer than `t`: then it keeps everything.
  pub close_time-newest :
      (s : TimeVersionedState S T) (t : Timestamp)
      → IsValid s
      → s.access_context ≡ watermark_callback
      → close_time s t
        ≡ ok (if keeps_all s.history_size t s.state_history then s else collected s t)
  unfolding close_time
  close_time-newest s t v c = elim (Option-cases (split_option s.history_size t s.state_history)) [
    | inl e ↦
        elim (split_option-none s.history_size t s.state_history s.message_history v.states
          v.messages v.same e) [
            | inl all ↦ rw all (ground (arith, c, e))
            | inr (none_kept, states, messages) ↦
                rw none_kept (ground (arith, c, e, states, messages))
          ]
    | inr (e, at) ↦
        let (w, at') =
          split_option-keys s.history_size t s.state_history s.message_history e (sym v.same) at in
        rw (split_option-some s.history_size t s.state_history e v.states at) (
          ground (
            arith,
            c,
            at,
            split_option-newest s.history_size t s.state_history e v.states at,
            split_option-newest s.history_size t s.message_history (e.0, w) v.messages at',
          ))
  ]

  -- Garbage collection up to `t` does not show: a watermark callback at any later time iterates
  -- over the same states and messages as if `close_time` had not been called.
  pub close_time_unseen :
      (d : S) (s s' : TimeVersionedState S T) (t now : Timestamp)
      → IsValid s
      → s.access_context ≡ watermark_callback
      → close_time s t ≡ ok s'
      → lt t now ≡ true
      → (iter_states (set_current_time d s' now) ≡ iter_states (set_current_time d s now))
        × (iter_messages (set_current_time d s' now) ≡ iter_messages (set_current_time d s now))
  unfolding iter_states iter_messages set_current_time
  close_time_unseen d s s' t now v c e l = ground (
    arith,
    close_time-split s t v c,
    later_entries s.history_size t now d s.state_history v.states l,
    later_entries s.history_size t now [] s.message_history v.messages l,
  )
