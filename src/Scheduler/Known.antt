-- ===== src/Scheduler/Known.antt =====
-- src/scheduler/mod.rs: when `schedule` panics, for the graphs of src/dataflow/graph/graph.rs.
use erdos.Prelude.{
  ℕ, ◌≡◌, ◌≢◌, ◌↔◌, refl, ap, sym, ◌∙◌, true, List, [], ◌∷◌, none, some, ◌==◌, arith, All,
  Bool-cases, Option-cases, inl, inr, ==_iff,
}
use mathlib.Core.Path.{subst}
use erdos.Prelude.HashMap.{get, IsMap}
use erdos.Graph.{Graph}
use erdos.Graph.Vertices.{Vertex, driver, operator, OperatorMetadata, vertex_eq, vertex_eq_iff}
use erdos.Graph.Edges.{Channel, StreamMetadata, inter_thread, inter_node, unscheduled, metadata_of}
use erdos.Graph.Channels.{channels_to}
use erdos.Graph.Subscriptions.{subscribed}
use erdos.Graph.Wiring.{resolved_count}
use erdos.Graph.Wiring.Reachable.{Reachable, Reachable-IsWired}
use erdos.Scheduler.{
  node_of, schedule_channel, schedule_channels, schedule_stream, schedule_streams, schedule,
}
use erdos.Scheduler.Placement.{IsScheduled, schedule_stream-IsScheduled, get-schedule_streams}

module _ {R : Type 0} (operators : List (ℕ × OperatorMetadata R)) where
  abbrev SinkKnown : Channel → Type 0
  SinkKnown c = node_of operators (metadata_of c).sink ≢ none

  -- No channel leads to an unknown vertex, so each one's sink is known.
  sinks_known :
      (cs : List Channel)
      → ((v : Vertex) → node_of operators v ≡ none → channels_to v cs ≡ 0)
      → All SinkKnown cs
  sinks_known [] h = tt
  sinks_known (c ∷ cs) h = (
    (λ e.
        let v = (metadata_of c).sink in
        let self : vertex_eq v v ≡ true = (vertex_eq_iff v v).1 refl in
        let zero_all = rw self at (h v e) in absurd (omega (arith, zero_all))),
    sinks_known cs (λ v e. let all = h v e in omega (arith, all)),
  )

  schedule_channel-known :
      (n : ℕ) (c : Channel) → SinkKnown c → schedule_channel operators n c ≢ none
  unfolding schedule_channel
  schedule_channel-known n (inter_thread cm) k h = cc
  schedule_channel-known n (inter_node cm) k h = cc
  schedule_channel-known n (unscheduled cm) k h = elim (Option-cases (node_of operators cm.sink)) [
    | inl e ↦ k e
    | inr (m, e) ↦ cc (rw (e, schedule_channel) at h)
  ]

  schedule_channels-known :
      (n : ℕ) (cs : List Channel) → All SinkKnown cs → schedule_channels operators n cs ≢ none
  unfolding schedule_channels
  schedule_channels-known n [] k h = cc
  schedule_channels-known n (c ∷ cs) k h = elim (Option-cases (schedule_channel operators n c)) [
    | inl e ↦ schedule_channel-known n c k.0 e
    | inr (c', e) ↦ elim (Option-cases (schedule_channels operators n cs)) [
      | inl e' ↦ schedule_channels-known n cs k.1 e'
      | inr (cs', e') ↦ cc (rw (e, e', schedule_channels) at h)
    ]
  ]

  -- With known sinks a stream fails only for its source.
  schedule_stream-fails :
      (s : StreamMetadata)
      → All SinkKnown s.channels
      → schedule_stream operators s ≡ none
      → node_of operators s.source ≡ none
  unfolding schedule_stream
  schedule_stream-fails s k h = elim (Option-cases (node_of operators s.source)) [
    | inl e ↦ e
    | inr (n, e) ↦ elim (Option-cases (schedule_channels operators n s.channels)) [
      | inl e' ↦ absurd (schedule_channels-known n s.channels k e')
      | inr (cs, e') ↦ absurd (cc (rw (e, e', schedule_stream) at h))
    ]
  ]

  schedule_streams-fails :
      (m : List (ℕ × StreamMetadata))
      → IsMap m
      → schedule_streams operators m ≡ none
      → (id : ℕ) × (s : StreamMetadata) × (get id m ≡ some s) × (schedule_stream operators s ≡ none)
  unfolding schedule_streams get
  schedule_streams-fails [] u h = absurd (cc)
  schedule_streams-fails ((j, s) ∷ m) u h = elim (Option-cases (schedule_stream operators s)) [
    | inl e ↦ (j, s, ground arith, e)
    | inr (s1, e) ↦ elim (Option-cases (schedule_streams operators m)) [
      | inr (m1, e') ↦ absurd (cc (rw (e, e', schedule_streams) at h))
      | inl e' ↦
          let (id, t, found, fails) = schedule_streams-fails m u.1 e' in
          elim (Bool-cases (j == id)) [
            | inl same ↦ absurd (cc (u.0, found, (==_iff j id).0 same))
            | inr other ↦ (id, t, rw other found, fails)
          ]
    ]
  ]

  schedule_streams-none :
      (m : List (ℕ × StreamMetadata)) (id : ℕ) (s : StreamMetadata)
      → get id m ≡ some s
      → schedule_stream operators s ≡ none
      → schedule_streams operators m ≡ none
  unfolding schedule_streams get
  schedule_streams-none [] id s h f = absurd (cc)
  schedule_streams-none ((j, t) ∷ m) id s h f = elim (Bool-cases (j == id)) [
    | inl same ↦ let is : t ≡ s = cc (rw same at h) in rw (schedule_streams, is, f) refl
    | inr other ↦
        let rest = schedule_streams-none m id s (rw other at h) f in
        elim (Option-cases (schedule_stream operators t)) [
          | inl e ↦ rw (schedule_streams, e) refl
          | inr (t1, e) ↦ rw (schedule_streams, e, rest) refl
        ]
  ]

-- What is not in the graph reads nothing.
subscribed-unknown :
    {R H : Type 0} (g : Graph R H) (v : Vertex) → node_of g.operators v ≡ none → subscribed g v ≡ []
unfolding node_of
subscribed-unknown g (driver n) e = absurd (cc)
subscribed-unknown g (operator n) e = elim (Option-cases (get n g.operators)) [
  | inl none_there ↦ rw (subscribed, none_there) refl
  | inr (op, there) ↦ absurd (cc (rw (there, node_of) at e))
]

module _ {R H : Type 0} (g : Graph R H) where
  -- In a graph of the driver every channel leads to a vertex that is there.
  Reachable-sinks_known :
      (id : ℕ) (s : StreamMetadata)
      → Reachable g
      → get id g.streams ≡ some s
      → All (SinkKnown g.operators) s.channels
  Reachable-sinks_known id s r h =
      let counts = ((Reachable-IsWired r).wired id s h).2 in
      sinks_known g.operators s.channels
        (λ v e. counts v ∙ ap (resolved_count g.stream_aliases id) (subscribed-unknown g v e))

  panics :
      Reachable g
      → schedule g ≡ none
      → (id : ℕ) × (s : StreamMetadata) × (get id g.streams ≡ some s)
        × (node_of g.operators s.source ≡ none)
  unfolding schedule
  panics r h = elim (Option-cases (schedule_streams g.operators g.streams)) [
    | inr (m, e) ↦ absurd (cc (rw (e, schedule) at h))
    | inl e ↦
        let w = Reachable-IsWired r in
        let (id, s, found, fails) = schedule_streams-fails g.operators g.streams w.stream_map e in
        (
          id,
          s,
          found,
          schedule_stream-fails g.operators s (Reachable-sinks_known id s r found) fails,
        )
  ]

  unknown_source :
      (id : ℕ) (s : StreamMetadata)
      → get id g.streams ≡ some s
      → node_of g.operators s.source ≡ none
      → schedule g ≡ none
  unfolding schedule schedule_stream
  unknown_source id s h e =
      let fails : schedule_stream g.operators s ≡ none = rw (schedule_stream, e) refl in
      rw (schedule, schedule_streams-none g.operators g.streams id s h fails) refl

  -- `schedule` panics on a graph that calls of the driver built, of those in
  -- Graph.Wiring.Reachable, if and only if the graph has a
  -- stream whose source is an operator that the graph does not have.
  pub schedule-panics :
      Reachable g
      → (schedule g ≡ none) ↔ (
          (id : ℕ) × (s : StreamMetadata) × (get id g.streams ≡ some s)
          × (node_of g.operators s.source ≡ none))
  schedule-panics r = (panics r, λ (id, s, h, e). unknown_source id s h e)

  -- If the graph is one that calls of the driver built, of those in Graph.Wiring.Reachable, and its
  -- scheduling does not panic: every
  -- stream of the scheduled graph is a stream of the driver's graph with the same id, source and
  -- channels, where each channel is within a node exactly if its ends are on the same node, and
  -- none is left unscheduled; operators, drivers and aliases stay.
  pub schedule-IsScheduled :
      (g' : Graph R H) (id : ℕ) (t : StreamMetadata)
      → Reachable g
      → schedule g ≡ some g'
      → get id g'.streams ≡ some t
      → ((s : StreamMetadata) × (get id g.streams ≡ some s) × IsScheduled g.operators s t)
        × (g'.operators ≡ g.operators)
        × (g'.drivers ≡ g.drivers)
        × (g'.stream_aliases ≡ g.stream_aliases)
  unfolding schedule
  schedule-IsScheduled g' id t r h k =
      elim (Option-cases (schedule_streams g.operators g.streams)) [
        | inl e ↦ absurd (cc (rw (e, schedule) at h))
        | inr (m, e) ↦
            let is : record g { streams = m } ≡ g' = cc (rw (e, schedule) at h) in
            let k' = subst (λ (x : Graph R H). get id x.streams ≡ some t) (sym is) k in
            let (s, found, done) = get-schedule_streams g.operators g.streams m id t e k' in
            let l = ((Reachable-IsWired r).wired id s found).1 in
            (
              (s, found, schedule_stream-IsScheduled g.operators s t l done),
              ap (λ x. x.operators) (sym is),
              ap (λ x. x.drivers) (sym is),
              ap (λ x. x.stream_aliases) (sym is),
            )
      ]
