-- ===== src/WriteStream/Timed.antt =====
-- Logs of the channels of src/dataflow/stream/write_stream.rs whose watermarks hold.
use erdos.Prelude.{ℕ, zero, suc, ◌≡◌, true, List, [], ◌∷◌, ◌++◌, All}
use erdos.Message.{Message, Timestamp, timestamp, watermark, timestamped_data, le}
use erdos.Message.Order.{le_refl, le_trans}
use erdos.Communication.Endpoint.{delivered}

-- The watermark that holds after a message.
abbrev pub advance : {D : Type 0} → Timestamp → Message D → Timestamp
advance low (watermark t) = t
advance low (timestamped_data td) = low

-- From the watermark `low` on, no message of the log is below a watermark that precedes it, and
-- no watermark of it is above `high`.
abbrev pub Timed : {D : Type 0} → Timestamp → List (Message D) → Timestamp → Type 0
Timed low [] high = le low high ≡ true
Timed low (m ∷ ms) high = (le low (timestamp m) ≡ true) × Timed (advance low m) ms high

module _ {D : Type 0} where
  Timed-le :
      (low high top : Timestamp) (ms : List (Message D))
      → le high top ≡ true
      → Timed low ms high
      → Timed low ms top
  Timed-le low high top [] h t = le_trans low high top t h
  Timed-le low high top (m ∷ ms) h t = (t.0, Timed-le (advance low m) high top ms h t.1)

  le-advance :
      (low : Timestamp) (m : Message D)
      → le low (timestamp m) ≡ true
      → le low (advance low m) ≡ true
  le-advance low (watermark t) h = h
  le-advance low (timestamped_data td) h = le_refl low

  Timed-append :
      (low high : Timestamp) (ms : List (Message D)) (m : Message D)
      → le high (timestamp m) ≡ true
      → Timed low ms high
      → Timed low (ms ++ m ∷ []) (advance high m)
  Timed-append low high [] (watermark t) h l = (le_trans low high t l h, le_refl t)
  Timed-append low high [] (timestamped_data td) h l = (le_trans low high td.timestamp l h, l)
  Timed-append low high (x ∷ ms) m h l = (l.0, Timed-append (advance low x) high ms m h l.1)

  pub Timed-delivered :
      (low high : Timestamp) (n : ℕ) (m : Message D) (ls : List (List (Message D)))
      → le high (timestamp m) ≡ true
      → All (λ l. Timed low l high) ls
      → All (λ l. Timed low l (advance high m)) (delivered n m ls)
  Timed-delivered low high zero m [] h t = tt
  Timed-delivered low high (suc n) m [] h t = tt
  Timed-delivered low high zero m (l ∷ ls) h t = (
    Timed-le low high (advance high m) l (le-advance high m h) t.0,
    Timed-delivered low high zero m ls h t.1,
  )
  Timed-delivered low high (suc n) m (l ∷ ls) h t =
      (Timed-append low high l m h t.0, Timed-delivered low high n m ls h t.1)
