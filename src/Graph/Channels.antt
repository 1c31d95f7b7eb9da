-- ===== src/Graph/Channels.antt =====
-- src/dataflow/graph: how many channels of a stream lead to a vertex, and what adds to them.
use erdos.Prelude.{
  ℕ, zero, suc, ◌+◌, ◌≡◌, refl, ap, ◌∙◌, List, [], ◌∷◌, ◌++◌, Option, none, some, ◌==◌,
  if◌then◌else◌, arith, count, All, All-append, Bool-cases, inl, inr, ==_comm, ==_iff, Option-cases,
}
use erdos.Prelude.HashMap.{get, get-insert, insert-IsMap, IsMap}
use erdos.Graph.{add_channels_to, add_reads, add_stream_channel, merge_channels}
use erdos.Graph.Vertices.{Vertex, vertex_eq}
use erdos.Graph.Edges.{Channel, StreamMetadata, add_channel, channel_to, metadata_of}

abbrev pub channels_to : Vertex → List Channel → ℕ
channels_to v [] = 0
channels_to v (c ∷ cs) = (if vertex_eq (metadata_of c).sink v then 1 else 0) + channels_to v cs

-- Every channel waits to be scheduled and carries the stream's own id and source.
abbrev pub Labelled : StreamMetadata → Type 0
Labelled s = All (λ c. c ≡ channel_to s (metadata_of c).sink) s.channels

pub channels_to-append :
    (v : Vertex) (front back : List Channel)
    → channels_to v (front ++ back) ≡ channels_to v front + channels_to v back
channels_to-append v [] back = omega arith
channels_to-append v (c ∷ front) back =
    let rest = channels_to-append v front back in omega (arith, rest)

-- The stream with `n` more channels to a vertex.
abbrev pub add_times : ℕ → StreamMetadata → Vertex → StreamMetadata
add_times zero s v = s
add_times (suc n) s v = add_times n (add_channel s (channel_to s v)) v

abbrev pub Same : StreamMetadata → StreamMetadata → Type 0
Same s t = (t.id ≡ s.id) × (t.source ≡ s.source)

pub channels_to-add_times :
    (n : ℕ) (s : StreamMetadata) (w v : Vertex)
    → channels_to v (add_times n s w).channels
      ≡ channels_to v s.channels + (if vertex_eq w v then n else 0)
unfolding add_channel
channels_to-add_times zero s w v = ground arith
channels_to-add_times (suc n) s w v =
    let one = channels_to-append v s.channels (channel_to s w ∷ []) in
    ground (arith, one, channels_to-add_times n (add_channel s (channel_to s w)) w v)

pub add_times-Same : (n : ℕ) (s : StreamMetadata) (w : Vertex) → Same s (add_times n s w)
unfolding add_channel
add_times-Same zero s w = (refl, refl)
add_times-Same (suc n) s w = add_times-Same n (add_channel s (channel_to s w)) w

pub add_times-Labelled :
    (n : ℕ) (s : StreamMetadata) (w : Vertex) → Labelled s → Labelled (add_times n s w)
unfolding add_channel
add_times-Labelled zero s w h = h
add_times-Labelled (suc n) s w h =
    add_times-Labelled n (add_channel s (channel_to s w)) w
      (All-append (λ c. c ≡ channel_to s (metadata_of c).sink) s.channels _ h (refl, tt))

count_step :
    (a x : ℕ) (xs : List ℕ) → count a (x ∷ xs) ≡ (if x == a then suc (count a xs) else count a xs)
count_step a x xs = ground arith

pub add_channels_to-add_times :
    (s : StreamMetadata) (w : Vertex) (ids : List ℕ)
    → add_channels_to s w ids ≡ add_times (count s.id ids) s w
unfolding add_channels_to add_channel
add_channels_to-add_times s w [] = refl
add_channels_to-add_times s w (id ∷ ids) = elim (Bool-cases (s.id == id)) [
  | inl e ↦
      let next = add_channels_to-add_times (add_channel s (channel_to s w)) w ids in
      rw (count_step s.id id ids, e, ==_comm id s.id ∙ e) next
  | inr e ↦ rw (count_step s.id id ids, e, ==_comm id s.id ∙ e) (add_channels_to-add_times s w ids)
]

-- What stands at an id after `k` more channels to a vertex.
abbrev pub grown : ℕ → Vertex → Option StreamMetadata → Option StreamMetadata
grown k w none = none
grown k w (some s) = some (add_times k s w)

grown-grown :
    (k : ℕ) (w : Vertex) (o : Option StreamMetadata) → grown k w (grown 1 w o) ≡ grown (suc k) w o
grown-grown k w none = refl
grown-grown k w (some s) = refl

get-add_stream_channel :
    (w : Vertex) (j id : ℕ) (m : List (ℕ × StreamMetadata))
    → get j (add_stream_channel m w id) ≡ (if id == j then grown 1 w (get j m) else get j m)
unfolding add_stream_channel
get-add_stream_channel w j id m = elim (Option-cases (get id m)) [
  | inl e ↦ elim (Bool-cases (id == j)) [
    | inl same ↦
        let here : get j m ≡ none = rw (← (==_iff id j).0 same) e in
        rw (e, add_stream_channel, same, here, grown) refl
    | inr other ↦ rw (e, add_stream_channel, other) refl
  ]
  | inr (s, e) ↦
      let put = get-insert id j (add_channel s (channel_to s w)) m in
      elim (Bool-cases (id == j)) [
        | inl same ↦
            let here : get j m ≡ some s = rw (← (==_iff id j).0 same) e in
            rw (e, add_stream_channel, same, here) (put ∙ rw same refl)
        | inr other ↦ rw (e, add_stream_channel, other) (put ∙ rw other refl)
      ]
]

-- What `add_reads` leaves at each id.
pub get-add_reads :
    (w : Vertex) (j : ℕ) (ids : List ℕ) (m : List (ℕ × StreamMetadata))
    → get j (add_reads m w ids) ≡ grown (count j ids) w (get j m)
unfolding add_reads
get-add_reads w j [] m = elim (Option-cases (get j m)) [
  | inl e ↦ rw (e, grown) refl
  | inr (s, e) ↦ rw (e, grown) refl
]
get-add_reads w j (id ∷ ids) m =
    let rest = get-add_reads w j ids (add_stream_channel m w id) in
    let step = ap (grown (count j ids) w) (get-add_stream_channel w j id m) in
    elim (Bool-cases (id == j)) [
      | inl same ↦
          rw (count_step j id ids, same)
            (rest ∙ (step ∙ rw same (grown-grown (count j ids) w (get j m))))
      | inr other ↦ rw (count_step j id ids, other) (rest ∙ (step ∙ rw other refl))
    ]

add_stream_channel-IsMap :
    (w : Vertex) (id : ℕ) (m : List (ℕ × StreamMetadata))
    → IsMap m
    → IsMap (add_stream_channel m w id)
unfolding add_stream_channel
add_stream_channel-IsMap w id m h = elim (Option-cases (get id m)) [
  | inl e ↦ rw (e, add_stream_channel) h
  | inr (s, e) ↦ rw (e, add_stream_channel) (insert-IsMap id (add_channel s (channel_to s w)) m h)
]

pub add_reads-IsMap :
    (w : Vertex) (ids : List ℕ) (m : List (ℕ × StreamMetadata))
    → IsMap m
    → IsMap (add_reads m w ids)
unfolding add_reads
add_reads-IsMap w [] m h = h
add_reads-IsMap w (id ∷ ids) m h =
    add_reads-IsMap w ids (add_stream_channel m w id) (add_stream_channel-IsMap w id m h)

pub channels_to-merge_channels :
    (s : StreamMetadata) (cs : List Channel) (v : Vertex)
    → channels_to v (merge_channels s cs).channels ≡ channels_to v s.channels + channels_to v cs
unfolding merge_channels add_channel
channels_to-merge_channels s [] v = omega arith
channels_to-merge_channels s (c ∷ cs) v =
    let next = channel_to s (metadata_of c).sink in
    let one = channels_to-append v s.channels (next ∷ []) in
    ground (arith, one, channels_to-merge_channels (add_channel s next) cs v)

pub merge_channels-Labelled :
    (s : StreamMetadata) (cs : List Channel)
    → Labelled s
    → Labelled (merge_channels s cs) × Same s (merge_channels s cs)
unfolding merge_channels add_channel
merge_channels-Labelled s [] h = (h, (refl, refl))
merge_channels-Labelled s (c ∷ cs) h =
    merge_channels-Labelled (add_channel s (channel_to s (metadata_of c).sink)) cs
      (All-append (λ c. c ≡ channel_to s (metadata_of c).sink) s.channels _ h (refl, tt))
