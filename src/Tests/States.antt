-- ===== src/Tests/States.antt =====
-- A state with a history of one past entry.
use erdos.Prelude.{ℕ, ◌≡◌, ◌≢◌, refl, ◌↔◌, List, [], ◌∷◌, none, some, suc}
use erdos.Message
use erdos.Message.{Timestamp, lt, le}
use erdos.State.{
  TimeVersionedState, ok, access_error, operator, callback, watermark_callback, set_history_size,
  set_initial_state, get_messages, new_with_history_size, close_time, set_current_time, iter_states,
  iter_messages, get_state, append, get_current_messages, get_current_state, modify_current_state,
  split_option,
}
use erdos.State.BtreeMap.{TimeMap, get, range, split_off}
use erdos.State.Access.{IsValid, access_control}
use erdos.State.History.{Call, run, run-IsValid}
use erdos.State.Gc.{close_time-newest, close_time_unseen}
use erdos.State.Gc.Split.{newest}
use erdos.State.Window.{get_state_one_further}

abbrev at : ℕ → Timestamp
at t = Message.new (t ∷ [])

-- Newest first.
abbrev states : TimeMap ℕ
states = (at 3, 30) ∷ (at 2, 20) ∷ (at 1, 10) ∷ []

abbrev lists : TimeMap (List ℕ)
lists = (at 3, []) ∷ (at 2, 5 ∷ []) ∷ (at 1, []) ∷ []

abbrev state : TimeVersionedState ℕ ℕ
state = record {
  current_time = at 3;
  history_size = 1;
  access_context = watermark_callback;
  message_history = lists;
  state_history = states;
}

state-IsValid : IsValid state
unfolding Message.cmp Message.cmp_time
state-IsValid = record {
  messages = ((refl, (refl, tt)), ((refl, tt), (tt, tt)));
  states = ((refl, (refl, tt)), ((refl, tt), (tt, tt)));
  same = refl;
}

abbrev collected : TimeVersionedState ℕ ℕ
collected = record state {
  state_history = (at 3, 30) ∷ (at 2, 20) ∷ [];
  message_history = (at 3, []) ∷ (at 2, 5 ∷ []) ∷ [];
}

close_time_unseen_example :
    (iter_states (set_current_time 0 collected (at 4))
      ≡ iter_states (set_current_time 0 state (at 4)))
    × (iter_messages (set_current_time 0 collected (at 4))
        ≡ iter_messages (set_current_time 0 state (at 4)))
unfolding close_time split_option split_off range Message.cmp Message.cmp_time
close_time_unseen_example =
    close_time_unseen 0 state collected (at 2) (at 4) state-IsValid refl refl refl

close_time-newest_example :
    close_time state (at 2)
    ≡ ok (record state {
      state_history = newest (at 2) 1 states;
      message_history = newest (at 2) 1 lists;
    })
close_time-newest_example = close_time-newest state (at 2) state-IsValid refl

get_state_one_further_example :
    (get_state state (at 1) ≡ ok (some 10))
    × (get {V = ℕ} (at 1) ((at 3, 30) ∷ (at 2, 20) ∷ []) ≡ none)
unfolding iter_states range get Message.cmp Message.cmp_time
get_state_one_further_example =
    get_state_one_further state (at 1) ((at 3, 30) ∷ (at 2, 20) ∷ []) 30 10 state-IsValid refl refl
      refl refl refl

run-IsValid_example : IsValid {S = ℕ} {T = ℕ} (
    run 0 (new_with_history_size 1) (
      Call.enter callback (at 1)
      ∷ Call.appends 5
      ∷ Call.enter watermark_callback (at 2)
      ∷ Call.closes (at 1)
      ∷ []))
run-IsValid_example = run-IsValid 0 1 (
    Call.enter callback (at 1)
    ∷ Call.appends 5
    ∷ Call.enter watermark_callback (at 2)
    ∷ Call.closes (at 1)
    ∷ [])

access_control_example :
    ((set_history_size state 2 ≡ access_error) ↔ (watermark_callback ≢ operator))
    × ((set_initial_state state 7 ≡ access_error) ↔ (watermark_callback ≢ operator))
    × ((append state 5 ≡ access_error) ↔ (watermark_callback ≢ callback))
    × ((close_time state (at 1) ≡ access_error) ↔ (watermark_callback ≢ watermark_callback))
    × ((get_messages state (at 1) ≡ access_error) ↔ (watermark_callback ≢ watermark_callback))
    × ((get_state state (at 1) ≡ access_error) ↔ (watermark_callback ≢ watermark_callback))
    × ((get_current_messages state ≡ access_error) ↔ (watermark_callback ≢ watermark_callback))
    × ((get_current_state state ≡ access_error) ↔ (watermark_callback ≢ watermark_callback))
    × ((modify_current_state state suc ≡ access_error) ↔ (watermark_callback ≢ watermark_callback))
    × ((iter_messages state ≡ access_error) ↔ (watermark_callback ≢ watermark_callback))
    × ((iter_states state ≡ access_error) ↔ (watermark_callback ≢ watermark_callback))
access_control_example = access_control state (at 1) 5 7 2 suc
