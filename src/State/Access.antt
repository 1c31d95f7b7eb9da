-- ===== src/State/Access.antt =====
-- Which context may call what, and why the calls that are allowed find their entries.
use erdos.Prelude.{ℕ, ◌≡◌, refl, List, [], ◌∷◌, ◌++◌, Option, none, some, arith, ◌≢◌, ◌↔◌}
use erdos.Message
use erdos.Message.{Timestamp, le, lt}
use erdos.State.BtreeMap.{get, split_off}
use erdos.State.Sorted.{
  Sorted, keys, Sorted-insert, Sorted-or_default, Sorted-modify, Sorted-range, insert-keys,
  or_default-keys, keys-modify, range-keys, get-or_default,
}
use erdos.State.{
  TimeVersionedState, AccessContext, operator, callback, watermark_callback, from_watermark,
  Outcome, ok, access_error, panic, new_with_history_size, close_time, split_option,
  set_history_size, set_initial_state, append, get_messages, get_state, get_current_messages,
  get_current_state, modify_current_state, iter_messages, iter_states, set_current_time,
}

module _ {S T : Type 0} where
  -- Both histories are ordered maps over the same times.
  pub record IsValid (s : TimeVersionedState S T) : Type 0 where
    pub messages : Sorted s.message_history
    pub states : Sorted s.state_history
    pub same : keys s.message_history ≡ keys s.state_history

  -- The current time has an entry in both.
  pub record IsCurrent (s : TimeVersionedState S T) : Type 0 where
    pub message_entry : (ms : List T) × (get s.current_time s.message_history ≡ some ms)
    pub state_entry : (v : S) × (get s.current_time s.state_history ≡ some v)

  -- A successful outcome satisfies `P`.
  abbrev pub Succeeds :
      (TimeVersionedState S T → Type 0) → Outcome (TimeVersionedState S T) → Type 0
  Succeeds P (ok s) = P s
  Succeeds P access_error = Unit
  Succeeds P panic = Unit

  pub new-IsValid : (n : ℕ) → IsValid (new_with_history_size {S = S} {T = T} n)
  unfolding new_with_history_size
  new-IsValid n = record { messages = tt; states = tt; same = refl }

  pub set_current_time-IsValid :
      (d : S) (s : TimeVersionedState S T) (t : Timestamp)
      → IsValid s
      → IsValid (set_current_time d s t)
  unfolding set_current_time
  set_current_time-IsValid d s t v = record {
    messages = Sorted-or_default t [] s.message_history v.messages;
    states = Sorted-or_default t d s.state_history v.states;
    same = or_default-keys t [] d s.message_history s.state_history v.same;
  }

  pub set_current_time-IsCurrent :
      (d : S) (s : TimeVersionedState S T) (t : Timestamp) → IsCurrent (set_current_time d s t)
  unfolding set_current_time
  set_current_time-IsCurrent d s t = record {
    message_entry = get-or_default t [] s.message_history;
    state_entry = get-or_default t d s.state_history;
  }

  pub set_initial_state-IsValid :
      (s : TimeVersionedState S T) (i : S) → IsValid s → Succeeds IsValid (set_initial_state s i)
  unfolding set_initial_state
  set_initial_state-IsValid s i v = ground (
    arith,
    Sorted-insert Message.bottom [] s.message_history v.messages,
    Sorted-insert Message.bottom i s.state_history v.states,
    insert-keys Message.bottom [] i s.message_history s.state_history v.same,
  )

  pub set_history_size-IsValid :
      (s : TimeVersionedState S T) (n : ℕ) → IsValid s → Succeeds IsValid (set_history_size s n)
  unfolding set_history_size
  set_history_size-IsValid s n v = ground arith

  pub append-IsValid :
      (s : TimeVersionedState S T) (a : T) → IsValid s → Succeeds IsValid (append s a)
  unfolding append
  append-IsValid s a v = ground (
    arith,
    Sorted-modify s.current_time (λ items. items ++ a ∷ []) s.message_history v.messages,
    keys-modify s.current_time (λ items. items ++ a ∷ []) s.message_history,
  )

  pub modify_current_state-IsValid :
      (s : TimeVersionedState S T) (f : S → S)
      → IsValid s
      → Succeeds IsValid (modify_current_state s f)
  unfolding modify_current_state
  modify_current_state-IsValid s f v = ground (
    arith,
    Sorted-modify s.current_time f s.state_history v.states,
    keys-modify s.current_time f s.state_history,
  )

  pub close_time-IsValid :
      (s : TimeVersionedState S T) (t : Timestamp) → IsValid s → Succeeds IsValid (close_time s t)
  unfolding close_time
  close_time-IsValid s t v = cut s.access_context (split_option s.history_size t s.state_history)
    where
      cut :
          (c : AccessContext) (split : Option (Timestamp × S))
          → Succeeds IsValid (
              from_watermark c (elim split [
                | none ↦ ok s
                | some (split_t, _) ↦ ok (record s {
                  state_history = split_off split_t s.state_history;
                  message_history = split_off split_t s.message_history;
                })
              ]))
      cut operator split = tt
      cut callback split = tt
      cut watermark_callback none = v
      cut watermark_callback (some (k, _)) = record {
        messages = Sorted-range (le k) s.message_history v.messages;
        states = Sorted-range (le k) s.state_history v.states;
        same = range-keys (le k) s.message_history s.state_history v.same;
      }

  -- Each method answers with an access error exactly outside of its own context.
  pub access_control :
      (s : TimeVersionedState S T) (t : Timestamp) (a : T) (i : S) (n : ℕ) (f : S → S)
      → ((set_history_size s n ≡ access_error) ↔ (s.access_context ≢ operator))
        × ((set_initial_state s i ≡ access_error) ↔ (s.access_context ≢ operator))
        × ((append s a ≡ access_error) ↔ (s.access_context ≢ callback))
        × ((close_time s t ≡ access_error) ↔ (s.access_context ≢ watermark_callback))
        × ((get_messages s t ≡ access_error) ↔ (s.access_context ≢ watermark_callback))
        × ((get_state s t ≡ access_error) ↔ (s.access_context ≢ watermark_callback))
        × ((get_current_messages s ≡ access_error) ↔ (s.access_context ≢ watermark_callback))
        × ((get_current_state s ≡ access_error) ↔ (s.access_context ≢ watermark_callback))
        × ((modify_current_state s f ≡ access_error) ↔ (s.access_context ≢ watermark_callback))
        × ((iter_messages s ≡ access_error) ↔ (s.access_context ≢ watermark_callback))
        × ((iter_states s ≡ access_error) ↔ (s.access_context ≢ watermark_callback))
  unfolding set_history_size set_initial_state append close_time get_messages get_state
      get_current_messages get_current_state modify_current_state iter_messages iter_states
  access_control s t a i n f = (
    (λ h. ground arith, λ h. ground arith),
    (λ h. ground arith, λ h. ground arith),
    (λ h. ground arith, λ h. ground arith),
    (λ h. ground arith, λ h. ground arith),
    (λ h. ground arith, λ h. ground arith),
    (λ h. ground arith, λ h. ground arith),
    (λ h. ground arith, λ h. ground arith),
    (λ h. ground arith, λ h. ground arith),
    (λ h. ground arith, λ h. ground arith),
    (λ h. ground arith, λ h. ground arith),
    (λ h. ground arith, λ h. ground arith),
  )

  -- Where the current time has an entry in both histories, neither appending, nor reading or
  -- modifying the current messages and state, panics.
  pub IsCurrent-no_panic :
      (s : TimeVersionedState S T) (a : T) (f : S → S)
      → IsCurrent s
      → (append s a ≢ panic)
        × (get_current_messages s ≢ panic)
        × (get_current_state s ≢ panic)
        × (modify_current_state s f ≢ panic)
  unfolding append get_current_messages get_current_state modify_current_state
  IsCurrent-no_panic s a f c =
      let (ms, em) = c.message_entry in
      let (v, ev) = c.state_entry in (ground arith, ground arith, ground arith, ground arith)
