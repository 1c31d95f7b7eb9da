-- ===== src/ReadStream/Callbacks.antt =====
-- src/dataflow/stream/internal_stateful_read_stream.rs and `make_events` of
-- src/dataflow/stream/internal_read_stream.rs: the events that a message makes. `C` is the type
-- of closures, and `on_state` the closure that changes the stream's state, of type `S`. What
-- watermarks do to bundles of streams is in code that the build generates: `receive_watermark`.
use erdos.Prelude.{ℕ, Bool, true, false, List, [], ◌∷◌, ◌++◌, map}
use erdos.Prelude.Int.{ℤ, pos}
use erdos.Message.{Message, Timestamp, timestamped_data, watermark}
use erdos.Event.{OperatorEvent}
use erdos.State.{AccessContext, callback, watermark_callback}

module _ {C : Type 0} where
  -- `OperatorEvent::new`
  abbrev pub new_event : Timestamp → Bool → ℤ → List ℕ → List ℕ → C → OperatorEvent C
  new_event t is_watermark priority read_ids write_ids run = record {
    timestamp = t;
    is_watermark_callback = is_watermark;
    priority = priority;
    callback = run;
    read_ids = read_ids;
    write_ids = write_ids;
  }

  -- The events of a stream with no state.
  unfoldable pub stateless_events :
      {D : Type 0}
      → List (Timestamp → D → C)
      → List (Timestamp → C)
      → Message D
      → List (OperatorEvent C)
  stateless_events callbacks watermark_cbs (timestamped_data d) =
      map (λ cb. new_event d.timestamp false (pos 0) [] [] (cb d.timestamp d.payload)) callbacks
  stateless_events callbacks watermark_cbs (watermark t) =
      map (λ cb. new_event t true (pos 0) [] [] (cb t)) watermark_cbs

-- The children's events, in their order, and the children after it.
unfoldable pub children_events : {A E : Type 0} → (A → List E × A) → List A → List E × List A
children_events make [] = ([], [])
children_events make (a ∷ children) =
    let (events, a') = make a in
    let (rest, children') = children_events make children in (events ++ rest, a' ∷ children')

-- `InternalReadStream::make_events`; `make` is that of its children.
unfoldable pub make_events :
    {D C Child : Type 0}
    → (Message D → Child → List (OperatorEvent C) × Child)
    → List (Timestamp → D → C)
    → List (Timestamp → C)
    → List Child
    → Message D
    → List (OperatorEvent C) × List Child
make_events make callbacks watermark_cbs children msg =
    let (events, children') = children_events (make msg) children in
    (stateless_events callbacks watermark_cbs msg ++ events, children')

-- The closure of an event on a state: the context and the time are set before the callback runs.
abbrev pub run_in :
    {S C : Type 0}
    → ((S → S) → C)
    → (AccessContext → S → S)
    → (Timestamp → S → S)
    → AccessContext
    → Timestamp
    → (S → S)
    → C
run_in on_state set_access_context set_current_time context t cb =
    on_state (λ s. cb (set_current_time t (set_access_context context s)))

pub record InternalStatefulReadStream (D S Child : Type 0) : Type 0 where
  pub id : ℕ
  pub state_id : ℕ
  pub callbacks : List (Timestamp → D → S → S)
  pub watermark_cbs : List ((Timestamp → S → S) × ℤ)
  pub children : List Child

module _ {D S Child : Type 0} where
  abbrev pub new_stateful : ℕ → ℕ → InternalStatefulReadStream D S Child
  new_stateful id state_id = record {
    id = id;
    state_id = state_id;
    callbacks = [];
    watermark_cbs = [];
    children = [];
  }

  abbrev pub add_callback :
      InternalStatefulReadStream D S Child
      → (Timestamp → D → S → S)
      → InternalStatefulReadStream D S Child
  add_callback s cb = record s { callbacks = s.callbacks ++ (cb ∷ []) }

  abbrev pub add_watermark_callback_with_priority :
      InternalStatefulReadStream D S Child
      → (Timestamp → S → S)
      → ℤ
      → InternalStatefulReadStream D S Child
  add_watermark_callback_with_priority s cb priority = record s {
    watermark_cbs = s.watermark_cbs ++ ((cb, priority) ∷ []);
  }

  abbrev pub add_watermark_callback :
      InternalStatefulReadStream D S Child
      → (Timestamp → S → S)
      → InternalStatefulReadStream D S Child
  add_watermark_callback s cb = add_watermark_callback_with_priority s cb (pos 0)

  abbrev pub add_child :
      InternalStatefulReadStream D S Child → Child → InternalStatefulReadStream D S Child
  add_child s child = record s { children = s.children ++ (child ∷ []) }

  module _ {C : Type 0} (on_state : (S → S) → C) (set_access_context : AccessContext → S → S)
      (set_current_time : Timestamp → S → S)
      (receive_watermark : ℕ → Timestamp → Child → List (OperatorEvent C) × Child) where
    unfoldable pub make_stateful_events :
        InternalStatefulReadStream D S Child
        → Message D
        → List (OperatorEvent C) × InternalStatefulReadStream D S Child
    make_stateful_events s (timestamped_data d) = (
      map
          (λ cb. new_event d.timestamp false (pos 0) [] (s.state_id ∷ []) (
            run_in on_state set_access_context set_current_time callback d.timestamp
              (cb d.timestamp d.payload)))
          s.callbacks,
      s,
    )
    make_stateful_events s (watermark t) =
        let own =
          map
            (λ cb.
              new_event t true cb.1 [] (s.state_id ∷ [])
                (run_in on_state set_access_context set_current_time watermark_callback t (cb.0 t)))
            s.watermark_cbs in
        let (events, children') = children_events (receive_watermark s.id t) s.children in
        (own ++ events, record s { children = children' })
