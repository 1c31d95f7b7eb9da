-- ===== src/State/History.antt =====
-- Histories of calls on a `TimeVersionedState`.
use erdos.Prelude.{ℕ, List, [], ◌∷◌}
use erdos.Message.{Timestamp}
use erdos.State.{
  TimeVersionedState, AccessContext, Outcome, ok, access_error, panic, new_with_history_size,
  close_time, set_history_size, set_initial_state, append, modify_current_state, set_access_context,
  set_current_time,
}
use erdos.State.Access.{
  IsValid, Succeeds, new-IsValid, set_initial_state-IsValid, append-IsValid,
  modify_current_state-IsValid, close_time-IsValid, set_history_size-IsValid,
  set_current_time-IsValid,
}

-- What the runtime and the callbacks do with a state.
pub data Call (S T : Type 0) : Type 0 where
  enter : AccessContext → Timestamp → Call S T
  sets_history_size : ℕ → Call S T
  sets_initial_state : S → Call S T
  appends : T → Call S T
  modifies : (S → S) → Call S T
  closes : Timestamp → Call S T

module _ {S T : Type 0} where
  -- A call that is refused, or that panics, leaves the state as it was.
  abbrev pub after :
      TimeVersionedState S T → Outcome (TimeVersionedState S T) → TimeVersionedState S T
  after s (ok s') = s'
  after s access_error = s
  after s panic = s

  -- `default` is `S::default()`.
  pub step : S → TimeVersionedState S T → Call S T → TimeVersionedState S T
  step default s (enter c t) = set_current_time default (set_access_context s c) t
  step default s (sets_history_size n) = after s (set_history_size s n)
  step default s (sets_initial_state i) = after s (set_initial_state s i)
  step default s (appends a) = after s (append s a)
  step default s (modifies f) = after s (modify_current_state s f)
  step default s (closes t) = after s (close_time s t)

  pub run : S → TimeVersionedState S T → List (Call S T) → TimeVersionedState S T
  run default s [] = s
  run default s (c ∷ cs) = run default (step default s c) cs

  after-IsValid :
      (s : TimeVersionedState S T) (o : Outcome (TimeVersionedState S T))
      → IsValid s
      → Succeeds IsValid o
      → IsValid (after s o)
  after-IsValid s (ok s') v h = h
  after-IsValid s access_error v h = v
  after-IsValid s panic v h = v

  step-IsValid :
      (d : S) (s : TimeVersionedState S T) (c : Call S T) → IsValid s → IsValid (step d s c)
  unfolding step
  step-IsValid d s (enter c t) v = set_current_time-IsValid d (set_access_context s c) t (
      unfold set_access_context in
      (record { messages = v.messages; states = v.states; same = v.same }))
  step-IsValid d s (sets_history_size n) v =
      after-IsValid s (set_history_size s n) v (set_history_size-IsValid s n v)
  step-IsValid d s (sets_initial_state i) v =
      after-IsValid s (set_initial_state s i) v (set_initial_state-IsValid s i v)
  step-IsValid d s (appends a) v = after-IsValid s (append s a) v (append-IsValid s a v)
  step-IsValid d s (modifies f) v =
      after-IsValid s (modify_current_state s f) v (modify_current_state-IsValid s f v)
  step-IsValid d s (closes t) v = after-IsValid s (close_time s t) v (close_time-IsValid s t v)

  run_keeps :
      (d : S) (s : TimeVersionedState S T) (cs : List (Call S T)) → IsValid s → IsValid (run d s cs)
  unfolding run
  run_keeps d s [] v = v
  run_keeps d s (c ∷ cs) v = run_keeps d (step d s c) cs (step-IsValid d s c v)

  -- After any history of calls both histories are ordered, with no time twice, and over the same
  -- times.
  pub run-IsValid :
      (d : S) (n : ℕ) (cs : List (Call S T)) → IsValid (run d (new_with_history_size n) cs)
  run-IsValid d n cs = run_keeps d (new_with_history_size n) cs (new-IsValid n)
