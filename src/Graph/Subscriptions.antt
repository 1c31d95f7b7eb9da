-- ===== src/Graph/Subscriptions.antt =====
-- src/dataflow/graph/graph.rs: the streams that a vertex reads, and the channels that
-- `add_channels` makes for a new stream.
use erdos.Prelude.{
  ℕ, ◌+◌, ◌≡◌, refl, ap, ◌∙◌, List, [], ◌∷◌, Option, none, some, ◌==◌, if◌then◌else◌, arith, count,
  true, false, All, Bool-cases, inl, inr, ==_iff,
}
use erdos.Prelude.HashMap.{get, IsMap}
use erdos.Graph.{Graph, add_channels_to, add_channels, operator_channels, driver_channels}
use erdos.Graph.Vertices.{Vertex, driver, operator, vertex_eq, OperatorMetadata, DriverMetadata}
use erdos.Graph.Edges.{StreamMetadata}
use erdos.Graph.Channels.{
  channels_to, Labelled, add_times, Same, channels_to-add_times, add_times-Same, add_times-Labelled,
  add_channels_to-add_times,
}

abbrev pub reads_of : {R : Type 0} → Option (OperatorMetadata R) → List ℕ
reads_of none = []
reads_of (some op) = op.read_stream_ids

abbrev pub extracts_of : {H : Type 0} → Option (DriverMetadata H) → List ℕ
extracts_of none = []
extracts_of (some d) = d.extract_stream_ids

abbrev pub subscribed : {R H : Type 0} → Graph R H → Vertex → List ℕ
subscribed g (operator n) = reads_of (get n g.operators)
subscribed g (driver n) = extracts_of (get n g.drivers)

-- Channels are only added, to the same stream and under its label.
abbrev pub Extends : StreamMetadata → StreamMetadata → Type 0
Extends s t = Same s t × (Labelled s → Labelled t)

Extends-trans : (s t u : StreamMetadata) → Extends s t → Extends t u → Extends s u
Extends-trans s t u ((i, so), l) ((j, so'), l') = ((j ∙ i, so' ∙ so), λ h. l' (l h))

add_times-Extends : (n : ℕ) (s : StreamMetadata) (w : Vertex) → Extends s (add_times n s w)
add_times-Extends n s w = (add_times-Same n s w, add_times-Labelled n s w)

add_channels_to-Extends :
    (s : StreamMetadata) (w : Vertex) (ids : List ℕ) → Extends s (add_channels_to s w ids)
add_channels_to-Extends s w ids =
    rw (add_channels_to-add_times s w ids) (add_times-Extends (count s.id ids) s w)

channels_to-add_channels_to :
    (s : StreamMetadata) (w v : Vertex) (ids : List ℕ)
    → channels_to v (add_channels_to s w ids).channels
      ≡ channels_to v s.channels + (if vertex_eq w v then count s.id ids else 0)
channels_to-add_channels_to s w v ids =
    ap (λ t. channels_to v t.channels) (add_channels_to-add_times s w ids)
    ∙ channels_to-add_times (count s.id ids) s w v

module _ {R : Type 0} where
  operator_channels-Extends :
      (m : List (ℕ × OperatorMetadata R)) (s : StreamMetadata) → Extends s (operator_channels m s)
  unfolding operator_channels
  operator_channels-Extends [] s = ((refl, refl), λ h. h)
  operator_channels-Extends ((k, op) ∷ m) s =
      let w = operator op.id in
      let ids = op.read_stream_ids in
      Extends-trans s (add_channels_to s w ids) (operator_channels m (add_channels_to s w ids))
        (add_channels_to-Extends s w ids) (operator_channels-Extends m _)

  channels_to-operator_channels :
      (n : ℕ) (m : List (ℕ × OperatorMetadata R)) (s : StreamMetadata)
      → IsMap m
      → All (λ e. e.1.id ≡ e.0) m
      → channels_to (operator n) (operator_channels m s).channels
        ≡ channels_to (operator n) s.channels + count s.id (reads_of (get n m))
  unfolding operator_channels get vertex_eq
  channels_to-operator_channels n [] s h k = omega arith
  channels_to-operator_channels n ((i, op) ∷ m) s h k =
      let w = operator op.id in
      let ids = op.read_stream_ids in
      let same = (add_channels_to-Extends s w ids).0.0 in
      let rest = channels_to-operator_channels n m (add_channels_to s w ids) h.1 k.1 in
      let first = channels_to-add_channels_to s w (operator n) ids in
      elim (Bool-cases (i == n)) [
        | inl e ↦
            let gone : get n m ≡ none = rw (← (==_iff i n).0 e) h.0 in
            let hit : (op.id == n) ≡ true = rw k.0 e in
            rw e (omega (arith, (rw gone at rest), (rw hit at first)))
        | inr e ↦
            let miss : (op.id == n) ≡ false = rw k.0 e in
            rw e (
              omega (
                arith,
                rest,
                ap (λ (k : ℕ). count k (reads_of (get n m))) same,
                (rw miss at first),
              ))
      ]

  channels_to-operator_channels_driver :
      (n : ℕ) (m : List (ℕ × OperatorMetadata R)) (s : StreamMetadata)
      → channels_to (driver n) (operator_channels m s).channels ≡ channels_to (driver n) s.channels
  unfolding operator_channels vertex_eq
  channels_to-operator_channels_driver n [] s = refl
  channels_to-operator_channels_driver n ((i, op) ∷ m) s =
      let w = operator op.id in
      let ids = op.read_stream_ids in
      let rest = channels_to-operator_channels_driver n m (add_channels_to s w ids) in
      let first = channels_to-add_channels_to s w (driver n) ids in omega (arith, rest, first)

module _ {H : Type 0} where
  driver_channels-Extends :
      (m : List (ℕ × DriverMetadata H)) (s : StreamMetadata) → Extends s (driver_channels m s)
  unfolding driver_channels
  driver_channels-Extends [] s = ((refl, refl), λ h. h)
  driver_channels-Extends ((k, d) ∷ m) s =
      let w = driver d.id in
      let ids = d.extract_stream_ids in
      Extends-trans s (add_channels_to s w ids) (driver_channels m (add_channels_to s w ids))
        (add_channels_to-Extends s w ids) (driver_channels-Extends m _)

  channels_to-driver_channels :
      (n : ℕ) (m : List (ℕ × DriverMetadata H)) (s : StreamMetadata)
      → IsMap m
      → All (λ e. e.1.id ≡ e.0) m
      → channels_to (driver n) (driver_channels m s).channels
        ≡ channels_to (driver n) s.channels + count s.id (extracts_of (get n m))
  unfolding driver_channels get vertex_eq
  channels_to-driver_channels n [] s h k = omega arith
  channels_to-driver_channels n ((i, d) ∷ m) s h k =
      let w = driver d.id in
      let ids = d.extract_stream_ids in
      let same = (add_channels_to-Extends s w ids).0.0 in
      let rest = channels_to-driver_channels n m (add_channels_to s w ids) h.1 k.1 in
      let first = channels_to-add_channels_to s w (driver n) ids in
      elim (Bool-cases (i == n)) [
        | inl e ↦
            let gone : get n m ≡ none = rw (← (==_iff i n).0 e) h.0 in
            let hit : (d.id == n) ≡ true = rw k.0 e in
            rw e (omega (arith, (rw gone at rest), (rw hit at first)))
        | inr e ↦
            let miss : (d.id == n) ≡ false = rw k.0 e in
            rw e (
              omega (
                arith,
                rest,
                ap (λ (k : ℕ). count k (extracts_of (get n m))) same,
                (rw miss at first),
              ))
      ]

  channels_to-driver_channels_operator :
      (n : ℕ) (m : List (ℕ × DriverMetadata H)) (s : StreamMetadata)
      → channels_to (operator n) (driver_channels m s).channels
        ≡ channels_to (operator n) s.channels
  unfolding driver_channels vertex_eq
  channels_to-driver_channels_operator n [] s = refl
  channels_to-driver_channels_operator n ((i, d) ∷ m) s =
      let w = driver d.id in
      let ids = d.extract_stream_ids in
      let rest = channels_to-driver_channels_operator n m (add_channels_to s w ids) in
      let first = channels_to-add_channels_to s w (operator n) ids in omega (arith, rest, first)

module _ {R H : Type 0} (g : Graph R H) where
  pub add_channels-Extends : (s : StreamMetadata) → Extends s (add_channels g s)
  unfolding add_channels
  add_channels-Extends s =
      Extends-trans s (operator_channels g.operators s) (add_channels g s)
        (operator_channels-Extends g.operators s)
        (driver_channels-Extends g.drivers (operator_channels g.operators s))

  -- A vertex gets a channel for each time that it reads the stream.
  pub channels_to-add_channels :
      (v : Vertex) (s : StreamMetadata)
      → IsMap g.operators
      → All (λ e. e.1.id ≡ e.0) g.operators
      → IsMap g.drivers
      → All (λ e. e.1.id ≡ e.0) g.drivers
      → channels_to v (add_channels g s).channels
        ≡ channels_to v s.channels + count s.id (subscribed g v)
  unfolding add_channels
  channels_to-add_channels (operator n) s hm hk dm dk =
      let t = operator_channels g.operators s in
      channels_to-driver_channels_operator n g.drivers t
      ∙ channels_to-operator_channels n g.operators s hm hk
  channels_to-add_channels (driver n) s hm hk dm dk =
      let t = operator_channels g.operators s in
      let same = (operator_channels-Extends g.operators s).0.0 in
      let before = channels_to-operator_channels_driver n g.operators s in
      let all = channels_to-driver_channels n g.drivers t dm dk in
      omega (arith, before, all, ap (λ (k : ℕ). count k (extracts_of (get n g.drivers))) same)
