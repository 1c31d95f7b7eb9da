-- ===== src/State.antt =====
-- src/dataflow/state.rs: `TimeVersionedState`.
pub mod BtreeMap
pub mod Sorted
pub mod Access
pub mod History
pub mod Gc
pub mod Window
use erdos.Prelude.{
  ℕ, zero, suc, ◌+◌, ◌-◌, Bool, true, false, List, [], ◌∷◌, ◌++◌, Option, none, some, if◌then◌else◌,
  ◌==◌, take, map, ◌&&◌,
}
use erdos.Message
use erdos.Message.{Timestamp, lt, le}
use BtreeMap.{TimeMap, get, insert, or_default, modify, range, nth_back, first, split_off}

pub data AccessContext : Type 0 where
  operator callback watermark_callback : AccessContext

-- What a method gives: its value, an `AccessError` (whose text is left out), or a panic.
pub data Outcome (A : Type 0) : Type 0 where
  ok : A → Outcome A
  access_error : Outcome A
  panic : Outcome A

-- `unwrap` and `expect`
abbrev pub or_panic : {A : Type 0} → Option A → Outcome A
or_panic none = panic
or_panic (some a) = ok a

pub record TimeVersionedState (S T : Type 0) : Type 0 where
  pub current_time : Timestamp
  pub history_size : ℕ
  pub access_context : AccessContext
  pub message_history : TimeMap (List T)
  pub state_history : TimeMap S

-- Access that only `Operator::new`, only a callback, or only a watermark callback has.
abbrev pub from_operator : {A : Type 0} → AccessContext → Outcome A → Outcome A
from_operator operator a = a
from_operator callback a = access_error
from_operator watermark_callback a = access_error

abbrev pub from_callback : {A : Type 0} → AccessContext → Outcome A → Outcome A
from_callback operator a = access_error
from_callback callback a = a
from_callback watermark_callback a = access_error

abbrev pub from_watermark : {A : Type 0} → AccessContext → Outcome A → Outcome A
from_watermark operator a = access_error
from_watermark callback a = access_error
from_watermark watermark_callback a = a

-- The body that `get_messages` and `get_state` share.
unfoldable pub get_within : {V : Type 0} → ℕ → Timestamp → Timestamp → TimeMap V → Option V
get_within history_size current t m =
    if le t current
    then elim (nth_back history_size (range (λ k. le t k && lt k current) m)) [
      | none ↦ get t m
      | some (oldest_allowed_t, _) ↦ if le oldest_allowed_t t then get t m else none
    ]
    else none

-- The entry at which `close_time` splits the histories.
unfoldable pub split_option : {V : Type 0} → ℕ → Timestamp → TimeMap V → Option (Timestamp × V)
split_option history_size t m =
    if history_size == 0
    then first (range (lt t) m)
    else nth_back (history_size - 1) (range (λ k. le k t) m)

module _ {S T : Type 0} where
  unfoldable pub new_with_history_size : ℕ → TimeVersionedState S T
  new_with_history_size n = record {
    current_time = Message.bottom;
    history_size = n;
    access_context = operator;
    message_history = [];
    state_history = [];
  }

  unfoldable pub close_time : TimeVersionedState S T → Timestamp → Outcome (TimeVersionedState S T)
  close_time s t =
      from_watermark s.access_context (elim (split_option s.history_size t s.state_history) [
        | none ↦ ok s
        | some (split_t, _) ↦ ok (record s {
          state_history = split_off split_t s.state_history;
          message_history = split_off split_t s.message_history;
        })
      ])

  unfoldable pub set_history_size : TimeVersionedState S T → ℕ → Outcome (TimeVersionedState S T)
  set_history_size s n = from_operator s.access_context (ok (record s { history_size = n }))

  unfoldable pub set_initial_state : TimeVersionedState S T → S → Outcome (TimeVersionedState S T)
  set_initial_state s initial_state = from_operator s.access_context (
      ok (record s {
        message_history = insert Message.bottom [] s.message_history;
        state_history = insert Message.bottom initial_state s.state_history;
      }))

  unfoldable pub append : TimeVersionedState S T → T → Outcome (TimeVersionedState S T)
  append s item = from_callback s.access_context (elim (get s.current_time s.message_history) [
    | none ↦ panic
    | some _ ↦ ok (record s {
      message_history = modify s.current_time (λ items. items ++ item ∷ []) s.message_history;
    })
  ])

  unfoldable pub get_messages : TimeVersionedState S T → Timestamp → Outcome (Option (List T))
  unfolding get_within
  get_messages s t =
      from_watermark s.access_context
        (ok (get_within s.history_size s.current_time t s.message_history))

  unfoldable pub get_state : TimeVersionedState S T → Timestamp → Outcome (Option S)
  unfolding get_within
  get_state s t =
      from_watermark s.access_context
        (ok (get_within s.history_size s.current_time t s.state_history))

  unfoldable pub get_current_messages : TimeVersionedState S T → Outcome (List T)
  get_current_messages s =
      from_watermark s.access_context (or_panic (get s.current_time s.message_history))

  unfoldable pub get_current_state : TimeVersionedState S T → Outcome S
  get_current_state s =
      from_watermark s.access_context (or_panic (get s.current_time s.state_history))

  -- A write through the reference that `get_current_state_mut` gives.
  unfoldable pub modify_current_state :
      TimeVersionedState S T → (S → S) → Outcome (TimeVersionedState S T)
  modify_current_state s f =
      from_watermark s.access_context (elim (get s.current_time s.state_history) [
        | none ↦ panic
        | some _ ↦ ok (record s { state_history = modify s.current_time f s.state_history })
      ])

  -- `iter_messages` and `iter_states`: newest first, positions up to `history_size`.
  unfoldable pub iter_messages : TimeVersionedState S T → Outcome (TimeMap (List T))
  iter_messages s =
      from_watermark s.access_context
        (ok (take (suc s.history_size) (range (λ k. le k s.current_time) s.message_history)))

  unfoldable pub iter_states : TimeVersionedState S T → Outcome (TimeMap S)
  iter_states s =
      from_watermark s.access_context
        (ok (take (suc s.history_size) (range (λ k. le k s.current_time) s.state_history)))

  unfoldable pub set_access_context :
      TimeVersionedState S T → AccessContext → TimeVersionedState S T
  set_access_context s c = record s { access_context = c }

  -- `default` is `S::default()`.
  unfoldable pub set_current_time : S → TimeVersionedState S T → Timestamp → TimeVersionedState S T
  set_current_time default s t = record s {
    current_time = t;
    message_history = or_default t [] s.message_history;
    state_history = or_default t default s.state_history;
  }
