-- ===== src/Graph/Wiring/Drivers.antt =====
-- src/dataflow/graph/graph.rs: `add_ingest_stream` and `add_extract_stream` wire a driver's
-- streams.
use erdos.Prelude.{
  ℕ, ◌+◌, ◌≡◌, refl, ap, sym, ◌∙◌, List, [], ◌∷◌, none, some, ◌==◌, if◌then◌else◌, arith, count,
  All, Bool-cases, Option-cases, inl, inr, ==_iff,
}
use mathlib.Core.Path.{subst}
use erdos.Prelude.HashMap.{
  get, insert, get-insert, insert-IsMap, insert-each, insert-keys, get-keys,
}
use erdos.Graph.{Graph, add_ingest_stream, add_extract_stream, driver_entry, add_reads}
use erdos.Graph.Vertices.{
  Vertex, driver, operator, vertex_eq, DriverMetadata, add_ingest, add_extract,
}
use erdos.Graph.Edges.{StreamMetadata}
use erdos.Graph.Channels.{add_times, get-add_reads, add_reads-IsMap}
use erdos.Graph.Subscriptions.{subscribed, extracts_of}
use erdos.Graph.Wiring.{
  IsWired, IsWiredStream, IsFresh, resolved_count, resolved_count-append, resolved-none,
  add_times-IsWiredStream, wired-new_stream,
}

IsWiredStream-ext :
    (a : List (ℕ × ℕ)) (before after : Vertex → List ℕ) (j : ℕ) (s : StreamMetadata)
    → ((v : Vertex) → resolved_count a j (after v) ≡ resolved_count a j (before v))
    → IsWiredStream a before j s
    → IsWiredStream a after j s
IsWiredStream-ext a before after j s same (key, labelled, counts) =
    (key, labelled, λ v. counts v ∙ sym (same v))

module _ {R H : Type 0} (g : Graph R H) (id node : ℕ) (hook : H) where
  driver_entry-id : All (λ e. e.1.id ≡ e.0) g.drivers → (driver_entry g node).id ≡ node
  unfolding driver_entry
  driver_entry-id keys = elim (Option-cases (get node g.drivers)) [
    | inl e ↦ rw (e, driver_entry) refl
    | inr (d, e) ↦ rw (e, driver_entry) (get-keys (λ d. d.id) node d g.drivers keys e)
  ]

  extracts-driver_entry :
      (driver_entry g node).extract_stream_ids ≡ extracts_of (get node g.drivers)
  unfolding driver_entry
  extracts-driver_entry = elim (Option-cases (get node g.drivers)) [
    | inl e ↦ rw (e, driver_entry) refl
    | inr (d, e) ↦ rw (e, driver_entry) refl
  ]

  abbrev ingest_driver : DriverMetadata H
  ingest_driver = add_ingest (driver_entry g node) id hook

  abbrev extract_driver : DriverMetadata H
  extract_driver = add_extract (driver_entry g node) id hook

  subscribed-add_ingest_stream :
      (v : Vertex) → subscribed (add_ingest_stream g id node hook) v ≡ subscribed g v
  unfolding add_ingest_stream
  subscribed-add_ingest_stream (operator n) = refl
  subscribed-add_ingest_stream (driver n) = elim (Bool-cases (node == n)) [
    | inl e ↦
        let same : extracts_of (get node g.drivers) ≡ extracts_of (get n g.drivers) =
          ap (λ k. extracts_of (get k g.drivers)) ((==_iff node n).0 e) in
        rw (get-insert node n ingest_driver g.drivers, e) (extracts-driver_entry ∙ same)
    | inr e ↦ rw (get-insert node n ingest_driver g.drivers, e) refl
  ]

  subscribed-add_extract_stream :
      (v : Vertex) (j : ℕ)
      → get id g.stream_aliases ≡ none
      → resolved_count g.stream_aliases j (subscribed (add_extract_stream g id node hook) v)
        ≡ resolved_count g.stream_aliases j (subscribed g v)
          + (if vertex_eq (driver node) v then (if id == j then 1 else 0) else 0)
  unfolding add_extract_stream vertex_eq
  subscribed-add_extract_stream (operator n) j free = omega arith
  subscribed-add_extract_stream (driver n) j free = elim (Bool-cases (node == n)) [
    | inl e ↦
        let old = ap (λ k. extracts_of (get k g.drivers)) ((==_iff node n).0 e) in
        let all =
          resolved_count-append g.stream_aliases j (driver_entry g node).extract_stream_ids
            (id ∷ []) in
        let before = ap (resolved_count g.stream_aliases j) (extracts-driver_entry ∙ old) in
        rw (get-insert node n extract_driver g.drivers, e)
          (omega (arith, (rw (resolved-none g.stream_aliases id free) at all), before))
    | inr e ↦ rw (get-insert node n extract_driver g.drivers, e) (omega arith)
  ]

  pub add_ingest_stream-IsWired :
      IsWired g → IsFresh g.stream_aliases id → IsWired (add_ingest_stream g id node hook)
  unfolding add_ingest_stream
  add_ingest_stream-IsWired w f =
      let g' : Graph R H = record g { drivers = insert node ingest_driver g.drivers } in
      let dm = insert-IsMap node ingest_driver g.drivers w.driver_map in
      let dk =
        insert-keys (λ d. d.id) node ingest_driver g.drivers (driver_entry-id w.driver_keys)
          w.driver_keys in
      record {
        operator_map = w.operator_map;
        operator_keys = w.operator_keys;
        driver_map = dm;
        driver_keys = dk;
        stream_map = insert-IsMap id _ g.streams w.stream_map;
        flat = w.flat;
        wired =
            insert-each (IsWiredStream g.stream_aliases (subscribed g')) id _ g.streams
              (wired-new_stream g' id (driver node) w.operator_map w.operator_keys dm dk f)
              (λ j t e h.
                IsWiredStream-ext g.stream_aliases (subscribed g) _ j t
                  (λ v. ap (resolved_count g.stream_aliases j) (subscribed-add_ingest_stream v))
                  (w.wired j t h));
      }

  -- The streams' entries after `add_extract_stream`.
  extract-wired :
      (w : IsWired g) (j : ℕ) (t : StreamMetadata)
      → get id g.stream_aliases ≡ none
      → get j (add_extract_stream g id node hook).streams ≡ some t
      → IsWiredStream g.stream_aliases (subscribed (add_extract_stream g id node hook)) j t
  unfolding add_extract_stream add_reads
  extract-wired w j t free h =
      let k = count j (id ∷ []) in
      let streams = get-add_reads (driver node) j (id ∷ []) g.streams in
      elim (Option-cases (get j g.streams)) [
        | inl e ↦ absurd (cc (rw e at (sym streams ∙ h)))
        | inr (s, e) ↦
            let same : add_times k s (driver node) ≡ t = cc (rw e at (sym streams ∙ h)) in
            subst (IsWiredStream g.stream_aliases _ j) same (
              add_times-IsWiredStream g.stream_aliases (subscribed g) _ j k s (driver node)
                (w.wired j s e)
                (λ v. let all = subscribed-add_extract_stream v j free in ground (arith, all)))
      ]

  pub add_extract_stream-IsWired :
      IsWired g → get id g.stream_aliases ≡ none → IsWired (add_extract_stream g id node hook)
  unfolding add_extract_stream add_reads
  add_extract_stream-IsWired w free = record {
    operator_map = w.operator_map;
    operator_keys = w.operator_keys;
    driver_map = insert-IsMap node extract_driver g.drivers w.driver_map;
    driver_keys =
        insert-keys (λ d. d.id) node extract_driver g.drivers (driver_entry-id w.driver_keys)
          w.driver_keys;
    stream_map = add_reads-IsMap (driver node) (id ∷ []) g.streams w.stream_map;
    flat = w.flat;
    wired = λ j t h. extract-wired w j t free h;
  }
