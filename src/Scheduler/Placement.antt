-- ===== src/Scheduler/Placement.antt =====
-- src/scheduler/mod.rs: what the channels of a scheduled graph are.
use erdos.Prelude.{
  ℕ, ◌≡◌, ◌≢◌, refl, ap, sym, ◌∙◌, List, [], ◌∷◌, some, ◌==◌, arith, All, Bool-cases, Option-cases,
  inl, inr, ==_iff, map,
}
use mathlib.Core.Path.{subst}
use erdos.Prelude.HashMap.{get}
use erdos.Graph.Vertices.{OperatorMetadata}
use erdos.Graph.Edges.{
  Channel, StreamMetadata, ChannelMetadata, inter_thread, inter_node, unscheduled, metadata_of,
  channel_to, set_channels,
}
use erdos.Graph.Channels.{Labelled}
use erdos.Scheduler.{
  node_of, schedule_channel, schedule_channels, schedule_stream, schedule_streams,
}

module _ {R : Type 0} (operators : List (ℕ × OperatorMetadata R)) where
  -- A channel within a node joins vertices of the same node, a channel between nodes joins
  -- vertices of different ones, and no channel is left unscheduled.
  abbrev pub IsPlaced : Channel → Type 0
  IsPlaced (inter_thread cm) =
      (n : ℕ) × (node_of operators cm.source ≡ some n) × (node_of operators cm.sink ≡ some n)
  IsPlaced (inter_node cm) =
      (n : ℕ) × (m : ℕ) × (node_of operators cm.source ≡ some n)
      × (node_of operators cm.sink ≡ some m)
      × (n ≢ m)
  IsPlaced (unscheduled cm) = ⊥

  -- A stream and what is left of it when it is scheduled.
  abbrev pub IsScheduled : StreamMetadata → StreamMetadata → Type 0
  IsScheduled s t =
      (t.id ≡ s.id)
      × (t.source ≡ s.source)
      × (map metadata_of t.channels ≡ map metadata_of s.channels)
      × All IsPlaced t.channels

  schedule_channel-IsPlaced :
      (n : ℕ) (cm : ChannelMetadata) (c' : Channel)
      → node_of operators cm.source ≡ some n
      → schedule_channel operators n (unscheduled cm) ≡ some c'
      → IsPlaced c' × (metadata_of c' ≡ cm)
  unfolding schedule_channel
  schedule_channel-IsPlaced n cm c' src h = elim (Option-cases (node_of operators cm.sink)) [
    | inl e ↦ absurd (cc (rw (e, schedule_channel) at h))
    | inr (m, e) ↦ elim (Bool-cases (n == m)) [
      | inl same ↦
          let is : inter_thread cm ≡ c' = cc (rw (e, schedule_channel, same) at h) in
          subst (λ c. IsPlaced c × (metadata_of c ≡ cm)) is
            ((n, src, e ∙ ap some (sym ((==_iff n m).0 same))), refl)
      | inr other ↦
          let is : inter_node cm ≡ c' = cc (rw (e, schedule_channel, other) at h) in
          let ne : n ≢ m = ground arith in
          subst (λ c. IsPlaced c × (metadata_of c ≡ cm)) is ((n, m, src, e, ne), refl)
    ]
  ]

  schedule_channels-IsPlaced :
      (s : StreamMetadata) (n : ℕ) (cs cs' : List Channel)
      → node_of operators s.source ≡ some n
      → All (λ c. c ≡ channel_to s (metadata_of c).sink) cs
      → schedule_channels operators n cs ≡ some cs'
      → (map metadata_of cs' ≡ map metadata_of cs) × All IsPlaced cs'
  unfolding schedule_channels
  schedule_channels-IsPlaced s n [] cs' src l h =
      let is : [] ≡ cs' = cc in
      subst (λ cs. (map metadata_of cs ≡ []) × All IsPlaced cs) is (refl, tt)
  schedule_channels-IsPlaced s n (c ∷ cs) cs' src l h =
      elim (Option-cases (schedule_channel operators n c)) [
        | inl e ↦ absurd (cc (rw (e, schedule_channels) at h))
        | inr (c1, e) ↦ elim (Option-cases (schedule_channels operators n cs)) [
          | inl e' ↦ absurd (cc (rw (e, e', schedule_channels) at h))
          | inr (cs1, e') ↦
              let is : c1 ∷ cs1 ≡ cs' = cc (rw (e, e', schedule_channels) at h) in
              let known = sym (ap (schedule_channel operators n) l.0) ∙ e in
              let (placed, meta) = schedule_channel-IsPlaced n _ c1 src known in
              let (metas, rest) = schedule_channels-IsPlaced s n cs cs1 src l.1 e' in
              subst (λ xs. (map metadata_of xs ≡ map metadata_of (c ∷ cs)) × All IsPlaced xs) is
                (cc (metas, meta ∙ ap metadata_of (sym l.0)), (placed, rest))
        ]
      ]

  pub schedule_stream-IsScheduled :
      (s t : StreamMetadata) → Labelled s → schedule_stream operators s ≡ some t → IsScheduled s t
  unfolding schedule_stream
  schedule_stream-IsScheduled s t l h = elim (Option-cases (node_of operators s.source)) [
    | inl e ↦ absurd (cc (rw (e, schedule_stream) at h))
    | inr (n, e) ↦ elim (Option-cases (schedule_channels operators n s.channels)) [
      | inl e' ↦ absurd (cc (rw (e, e', schedule_stream) at h))
      | inr (cs, e') ↦
          let is : set_channels s cs ≡ t = cc (rw (e, e', schedule_stream) at h) in
          let (metas, placed) = schedule_channels-IsPlaced s n s.channels cs e l e' in
          subst (IsScheduled s) is (refl, refl, metas, placed)
    ]
  ]

  -- Each stream keeps its place, its id, its source and its channels' ends.
  pub get-schedule_streams :
      (m m' : List (ℕ × StreamMetadata)) (id : ℕ) (t : StreamMetadata)
      → schedule_streams operators m ≡ some m'
      → get id m' ≡ some t
      → (s : StreamMetadata) × (get id m ≡ some s) × (schedule_stream operators s ≡ some t)
  unfolding schedule_streams get
  get-schedule_streams [] m' id t h k =
      absurd (cc (subst (λ x. get id x ≡ some t) (let e : m' ≡ [] = cc in e) k))
  get-schedule_streams ((j, s) ∷ m) m' id t h k =
      elim (Option-cases (schedule_stream operators s)) [
        | inl e ↦ absurd (cc (rw (e, schedule_streams) at h))
        | inr (s1, e) ↦ elim (Option-cases (schedule_streams operators m)) [
          | inl e' ↦ absurd (cc (rw (e, e', schedule_streams) at h))
          | inr (m1, e') ↦
              let is : m' ≡ (j, s1) ∷ m1 = cc (rw (e, e', schedule_streams) at h) in
              let found = subst (λ x. get id x ≡ some t) is k in
              elim (Bool-cases (j == id)) [
                | inl same ↦
                    let st : s1 ≡ t = cc (rw same at found) in rw same (s, refl, e ∙ ap some st)
                | inr other ↦ rw other (get-schedule_streams m m1 id t e' (rw other at found))
              ]
        ]
      ]
