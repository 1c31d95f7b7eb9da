-- ===== src/Message.antt =====
-- src/dataflow/message.rs: timestamps and messages.
pub mod Order
use erdos.Prelude.{ℕ, Bool, true, false, List, [], ◌∷◌, Option, none, some, Ordering, compare}

-- `is_top` closes a stream. `u64` coordinates are only stored and compared.
pub record Timestamp : Type 0 where
  pub time : List ℕ
  pub is_top : Bool

abbrev pub new : List ℕ → Timestamp
new time = record { time = time; is_top = false }

abbrev pub top : Timestamp
top = record { time = []; is_top = true }

abbrev pub bottom : Timestamp
bottom = record { time = []; is_top = false }

-- `Vec::cmp`, lexicographic.
unfoldable pub cmp_time : List ℕ → List ℕ → Ordering
cmp_time [] [] = Ordering.eq
cmp_time [] (y ∷ ys) = Ordering.lt
cmp_time (x ∷ xs) [] = Ordering.gt
cmp_time (x ∷ xs) (y ∷ ys) =
    let rest = cmp_time xs ys in
    elim (compare x y) [
      | Ordering.lt ↦ Ordering.lt
      | Ordering.eq ↦ rest
      | Ordering.gt ↦ Ordering.gt
    ]

cmp_flags : Bool → Bool → List ℕ → List ℕ → Ordering
cmp_flags true true s t = Ordering.eq
cmp_flags true false s t = Ordering.gt
cmp_flags false true s t = Ordering.lt
cmp_flags false false s t = cmp_time s t

-- `Ord::cmp`; `PartialOrd` goes through it.
unfoldable pub cmp : Timestamp → Timestamp → Ordering
unfolding cmp_flags
cmp s t = cmp_flags s.is_top t.is_top s.time t.time

-- `s < t`, `s <= t`
abbrev pub lt : Timestamp → Timestamp → Bool
lt s t = elim (cmp s t) [ Ordering.lt ↦ true | _ ↦ false ]

abbrev pub le : Timestamp → Timestamp → Bool
le s t = elim (cmp s t) [ Ordering.gt ↦ false | _ ↦ true ]

pub record TimestampedData (D : Type 0) : Type 0 where
  pub timestamp : Timestamp
  pub payload : D

pub data Message (D : Type 0) : Type 0 where
  timestamped_data : TimestampedData D → Message D
  watermark : Timestamp → Message D

module _ {D : Type 0} where
  abbrev pub new_message : Timestamp → D → Message D
  new_message t d = timestamped_data (record { timestamp = t; payload = d })

  abbrev pub new_watermark : Timestamp → Message D
  new_watermark t = watermark t

  abbrev pub is_top_watermark : Message D → Bool
  is_top_watermark (watermark t) = t.is_top
  is_top_watermark (timestamped_data d) = false

  abbrev pub payload_of : Message D → Option D
  payload_of (timestamped_data d) = some d.payload
  payload_of (watermark t) = none

  abbrev pub timestamp : Message D → Timestamp
  timestamp (timestamped_data d) = d.timestamp
  timestamp (watermark t) = t
