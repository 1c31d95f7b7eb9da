-- ===== src/ReadStream/Events.antt =====
-- src/dataflow/stream/internal_stateful_read_stream.rs and
-- src/dataflow/stream/internal_read_stream.rs: the order of the events that messages make.
use erdos.Prelude.{ℕ, ◌≡◌, false, List, [], ◌∷◌, some, Ordering, All, map, ==_refl, contains}
use erdos.Prelude.Int.{pos, compare_ℤ}
use erdos.Message.{Message, Timestamp, TimestampedData, timestamped_data}
use erdos.Event.{OperatorEvent, event_cmp, resolve_access_conflicts, is_disjoint}
use erdos.State.{AccessContext}
use erdos.ReadStream.Callbacks.{InternalStatefulReadStream, make_stateful_events, new_event}

All-of_map {ℓ κ} :
    {A : Type ℓ} {B : Type κ} (P : B → Type 0) (f : A → B) (xs : List A)
    → ((x : A) → P (f x))
    → All P (map f xs)
All-of_map P f [] h = tt
All-of_map P f (x ∷ xs) h = (h x, All-of_map P f xs h)

-- Both write the state, and neither is said to go first.
abbrev pub Unordered : {C : Type 0} → OperatorEvent C → OperatorEvent C → Type 0
Unordered x y = (is_disjoint x.write_ids y.write_ids ≡ false) × (event_cmp x y ≡ some Ordering.eq)

overlaps_itself : (a : ℕ) → is_disjoint (a ∷ []) (a ∷ []) ≡ false
unfolding is_disjoint contains
overlaps_itself a = simp (==_refl)

same_state-Unordered :
    {C : Type 0} (t u : Timestamp) (a : ℕ) (run rerun : C)
    → Unordered
        (new_event t false (pos 0) [] (a ∷ []) run)
        (new_event u false (pos 0) [] (a ∷ []) rerun)
unfolding event_cmp resolve_access_conflicts compare_ℤ
same_state-Unordered t u a run rerun = (overlaps_itself a, simp (overlaps_itself a))

module _ {D S Child C : Type 0} (on_state : (S → S) → C)
    (set_access_context : AccessContext → S → S) (set_current_time : Timestamp → S → S)
    (receive_watermark : ℕ → Timestamp → Child → List (OperatorEvent C) × Child) where
  abbrev pub events_of : InternalStatefulReadStream D S Child → Message D → List (OperatorEvent C)
  events_of s msg =
      (make_stateful_events on_state set_access_context set_current_time receive_watermark s msg).0

  -- Any two message callbacks on the state of a stream, of the same message or of two messages of
  -- any timestamps, write the same state, and the order of events says that they may run at once.
  pub message_events-Unordered :
      (s : InternalStatefulReadStream D S Child) (d e : TimestampedData D)
      → All
          (λ x. All (λ y. Unordered x y) (events_of s (timestamped_data e)))
          (events_of s (timestamped_data d))
  unfolding make_stateful_events
  message_events-Unordered s d e =
      All-of_map _ _ s.callbacks
        (λ f. All-of_map _ _ s.callbacks (λ g. same_state-Unordered _ _ _ _ _))
