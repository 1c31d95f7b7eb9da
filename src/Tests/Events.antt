-- ===== src/Tests/Events.antt =====
-- Callbacks with and without conflicts.
use erdos.Prelude.{ℕ, ◌≡◌, refl, ◌↔◌, Bool, true, false, List, [], ◌∷◌, some, Ordering}
use erdos.Prelude.Int.{pos}
use erdos.Message
use erdos.Message.{Timestamp, lt, le, top}
use erdos.Event.{OperatorEvent, event_cmp, cmp_watermark_message}
use erdos.Event.Conflicts.{swapped}
use erdos.Event.Order.{message_before_watermark, event_cmp_trans}

abbrev at : ℕ → Timestamp
at t = Message.new (t ∷ [])

abbrev event : Bool → ℕ → List ℕ → List ℕ → OperatorEvent (Unit {0})
event is_watermark t read_ids write_ids = record {
  timestamp = at t;
  is_watermark_callback = is_watermark;
  priority = pos 1;
  callback = tt;
  read_ids = read_ids;
  write_ids = write_ids;
}

message_before_watermark_example :
    ((event_cmp (event false 2 [] []) (event true 2 [] []) ≡ some Ordering.lt)
      ↔ (le (at 2) (at 2) ≡ true))
    × ((event_cmp (event false 2 [] []) (event true 2 [] []) ≡ some Ordering.eq)
        ↔ (lt (at 2) (at 2) ≡ true))
    × (event_cmp (event true 2 [] []) (event false 2 [] [])
        ≡ swapped (event_cmp (event false 2 [] []) (event true 2 [] [])))
message_before_watermark_example =
    message_before_watermark (event false 2 [] []) (event true 2 [] []) refl refl

event_cmp_trans_example : event_cmp (event false 1 [] []) (event true 3 [] []) ≡ some Ordering.lt
unfolding event_cmp cmp_watermark_message Message.cmp Message.cmp_time
event_cmp_trans_example =
    event_cmp_trans (event false 1 [] []) (event true 2 [] []) (event true 3 [] []) refl refl refl
      refl
