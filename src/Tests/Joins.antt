-- ===== src/Tests/Joins.antt =====
-- A join of two streams of numbers.
use erdos.Prelude.{ℕ, ◌≡◌, ◌⊎◌, ◌↔◌, List, [], ◌∷◌, none, some, if◌then◌else◌}
use erdos.Message
use erdos.Message.{Message, Timestamp, le}
use erdos.Communication.{err}
use erdos.WriteStream.{WriteStreamError}
use erdos.Operators.Join.{StreamState, new, add_msg, clean_state, get_state, on_watermark_callback}
use erdos.Operators.Join.Clean.{Reachable, start, added, clean_state-cleans}
use erdos.Operators.Join.Watermark.{sends, on_watermark_callback-panics}
use erdos.Tests.Streams.{stream, open_end}

abbrev at : ℕ → Timestamp
at t = Message.new (t ∷ [])

abbrev left : StreamState ℕ
left = add_msg (at 2) 6 (add_msg (at 1) 5 new)

left-Reachable : Reachable left
left-Reachable = added (at 2) 6 (added (at 1) 5 start)

clean_state-cleans_example :
    (s' : StreamState ℕ) × (clean_state (at 1) left ≡ some s')
    × ((u : Timestamp) → get_state u s' ≡ (if le u (at 1) then none else get_state u left))
clean_state-cleans_example = clean_state-cleans (at 1) left-Reachable

abbrev first : List ℕ → List ℕ → ℕ
first [] b = 0
first (x ∷ a) b = x

-- The watermark 1, when the right stream has sent nothing.
on_watermark_callback-panics_example :
    (on_watermark_callback first (at 1) left (new {D = ℕ}) (stream (open_end ∷ [])) ≡ none) ↔ (
      (get_state (at 1) left ≡ none)
      ⊎ (get_state (at 1) (new {D = ℕ}) ≡ none)
      ⊎ ((a b : List ℕ) × (e : WriteStreamError) × (get_state (at 1) left ≡ some a)
          × (get_state (at 1) (new {D = ℕ}) ≡ some b)
          × ((sends first (at 1) (stream (open_end ∷ [])) a b).1 ≡ err e)))
on_watermark_callback-panics_example =
    on_watermark_callback-panics first (at 1) (stream (open_end ∷ [])) left new left-Reachable start
