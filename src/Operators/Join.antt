-- ===== src/Operators/Join.antt =====
-- src/dataflow/operators/join_operator.rs: `StreamState` and the callbacks of `JoinOperator`.
-- `None` is a panic. The locks are left out: the executor never runs two callbacks on a state at
-- once. A min-heap is the list of its elements in ascending order.
pub mod Keys
pub mod Clean
pub mod Watermark
use erdos.Prelude.{Bool, List, [], ◌∷◌, ◌++◌, Option, none, some, if◌then◌else◌, Ordering}
use erdos.Message
use erdos.Message.{Message, Timestamp, le, lt, new_message}
use erdos.Communication.{ok, err, Mpsc}
use erdos.Communication.Endpoint.{Outgoing}
use erdos.WriteStream.{WriteStream, send}
use erdos.State.BtreeMap.{TimeMap, get, modify}

-- `HashMap::remove`
unfoldable pub remove : {V : Type 0} → Timestamp → TimeMap V → TimeMap V
remove t [] = []
remove t ((k, v) ∷ m) =
    let rest = remove t m in elim (Message.cmp k t) [ Ordering.eq ↦ m | _ ↦ (k, v) ∷ rest ]

-- `BinaryHeap::push` of `Reverse(t)`
unfoldable pub push : Timestamp → List Timestamp → List Timestamp
push t [] = t ∷ []
push t (x ∷ xs) = let rest = push t xs in if lt x t then x ∷ rest else t ∷ x ∷ xs

pub record StreamState (D : Type 0) : Type 0 where
  pub msgs : TimeMap (List D)
  pub timestamps : List Timestamp

module _ {D : Type 0} where
  abbrev pub new : StreamState D
  new = record { msgs = []; timestamps = [] }

  unfoldable pub add_msg : Timestamp → D → StreamState D → StreamState D
  add_msg t msg s = elim (get t s.msgs) [
    | some msg_vec ↦ record s { msgs = modify t (λ v. v ++ (msg ∷ [])) s.msgs }
    | none ↦ record { msgs = s.msgs ++ ((t, msg ∷ []) ∷ []); timestamps = push t s.timestamps }
  ]

  -- The loop of `clean_state` over the heap.
  unfoldable pub clean : Timestamp → List Timestamp → TimeMap (List D) → Option (StreamState D)
  clean t [] msgs = some (record { msgs = msgs; timestamps = [] })
  clean t (x ∷ xs) msgs =
      let rest = clean t xs (remove x msgs) in
      if le x t
      then elim (get x msgs) [ none ↦ none | some v ↦ rest ]
      else some (record { msgs = msgs; timestamps = x ∷ xs })

  abbrev pub clean_state : Timestamp → StreamState D → Option (StreamState D)
  clean_state t s = clean t s.timestamps s.msgs

  abbrev pub get_state : Timestamp → StreamState D → Option (List D)
  get_state t s = get t s.msgs

-- `on_left_data_callback` and `on_right_data_callback` are `add_msg`.
module _ {D1 D2 D3 : Type 0} {local : Mpsc (Message D3)} {remote : Mpsc (Outgoing D3)}
    (join_function : List D1 → List D2 → D3) where
  -- `on_watermark_callback`: both states and the stream after it.
  unfoldable pub on_watermark_callback :
      Timestamp
      → StreamState D1
      → StreamState D2
      → WriteStream local remote
      → Option (StreamState D1 × StreamState D2 × WriteStream local remote)
  on_watermark_callback t left_state right_state write_stream = elim (get_state t left_state) [
    | none ↦ none
    | some left ↦ elim (get_state t right_state) [
      | none ↦ none
      | some right ↦
          let (ws, result) = send write_stream (new_message t (join_function left right)) in
          elim result [
            | err e ↦ none
            | ok u ↦ elim (clean_state t left_state) [
              | none ↦ none
              | some left' ↦ elim (clean_state t right_state) [
                | none ↦ none
                | some right' ↦ some (left', right', ws)
              ]
            ]
          ]
    ]
  ]
