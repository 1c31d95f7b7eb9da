-- ===== src/Graph/Wiring.antt =====
-- src/dataflow/graph/graph.rs: what holds of the graphs that a driver builds, and the calls
-- that add operators and streams.
pub mod Operators
pub mod Drivers
pub mod Aliases
pub mod Reachable
use erdos.Prelude.{
  ℕ, ◌+◌, ◌≡◌, ◌≢◌, refl, ap, sym, ◌∙◌, Bool, true, false, List, [], ◌∷◌, ◌++◌, Option, none, some,
  ◌==◌, if◌then◌else◌, arith, count, count-append, All, Bool-cases, Option-cases, inl, inr, ==_iff,
  map,
}
use erdos.Prelude.HashMap.{get, insert, get-insert, insert-IsMap, insert-each, IsMap}
use erdos.Graph.{
  Graph, new, resolve_stream_id, add_operator, add_operator_stream, add_ingest_stream,
  add_extract_stream, driver_entry, add_channels, add_reads,
}
use erdos.Graph.Vertices.{
  Vertex, driver, operator, vertex_eq, OperatorMetadata, DriverMetadata, vertex_eq_iff,
}
use erdos.Graph.Edges.{StreamMetadata, new_stream, channel_to, add_channel}
use erdos.Graph.Channels.{
  channels_to, Labelled, add_times, channels_to-add_times, add_times-Same, add_times-Labelled,
  get-add_reads, add_reads-IsMap,
}
use erdos.Graph.Subscriptions.{
  reads_of, extracts_of, subscribed, add_channels-Extends, channels_to-add_channels,
}

-- `resolve_stream_id` by the aliases alone.
abbrev pub resolved : List (ℕ × ℕ) → ℕ → ℕ
resolved a id = elim (get id a) [ none ↦ id | some fixed_id ↦ fixed_id ]

-- How many ids of a list stand for a stream, directly or by an alias.
abbrev pub resolved_count : List (ℕ × ℕ) → ℕ → List ℕ → ℕ
resolved_count a id [] = 0
resolved_count a id (x ∷ xs) = (if resolved a x == id then 1 else 0) + resolved_count a id xs

-- A stream has a channel to each vertex for each time that the vertex reads it.
abbrev pub IsWiredStream : List (ℕ × ℕ) → (Vertex → List ℕ) → ℕ → StreamMetadata → Type 0
IsWiredStream a reads id s =
    (s.id ≡ id)
    × Labelled s
    × ((v : Vertex) → channels_to v s.channels ≡ resolved_count a id (reads v))

-- No alias leads to another.
abbrev pub IsFlat : List (ℕ × ℕ) → Type 0
IsFlat a = (x y : ℕ) → get x a ≡ some y → get y a ≡ none

-- No alias to the id or from it.
abbrev pub IsFresh : List (ℕ × ℕ) → ℕ → Type 0
IsFresh a id = (get id a ≡ none) × ((x : ℕ) → (get x a ≡ some id) → ⊥)

module _ (a : List (ℕ × ℕ)) where
  pub resolved-none : (x : ℕ) → get x a ≡ none → resolved a x ≡ x
  resolved-none x e = rw (e, resolved) refl

  pub resolved-some : (x y : ℕ) → get x a ≡ some y → resolved a x ≡ y
  resolved-some x y e = rw (e, resolved) refl

  -- A stream's id with no alias stands only for itself.
  pub resolved-fresh : (id x : ℕ) → IsFresh a id → (resolved a x == id) ≡ (x == id)
  resolved-fresh id x (free, untargeted) = elim (Option-cases (get x a)) [
    | inl e ↦ rw (resolved-none x e) refl
    | inr (y, e) ↦
        let no_target : y ≢ id = λ p. untargeted x (e ∙ ap some p) in
        let not_key : x ≢ id = λ p. cc (e, free, p) in rw (resolved-some x y e) (ground arith)
  ]

  pub resolved_count-fresh :
      (id : ℕ) (xs : List ℕ) → IsFresh a id → resolved_count a id xs ≡ count id xs
  resolved_count-fresh id [] f = refl
  resolved_count-fresh id (x ∷ xs) f =
      rw (resolved-fresh id x f) (omega (arith, resolved_count-fresh id xs f))

  resolved_idem : (x : ℕ) → IsFlat a → resolved a (resolved a x) ≡ resolved a x
  resolved_idem x flat = elim (Option-cases (get x a)) [
    | inl e ↦ ap (resolved a) (resolved-none x e)
    | inr (y, e) ↦ rw (resolved-some x y e) (resolved-none y (flat x y e))
  ]

  pub resolved_count-resolved :
      (id : ℕ) (xs : List ℕ)
      → IsFlat a
      → resolved_count a id (map (resolved a) xs) ≡ count id (map (resolved a) xs)
  resolved_count-resolved id [] flat = refl
  resolved_count-resolved id (x ∷ xs) flat =
      rw (resolved_idem x flat) (omega (arith, resolved_count-resolved id xs flat))

  pub resolved_count-append :
      (id : ℕ) (xs ys : List ℕ)
      → resolved_count a id (xs ++ ys) ≡ resolved_count a id xs + resolved_count a id ys
  resolved_count-append id [] ys = omega arith
  resolved_count-append id (x ∷ xs) ys =
      let rest = resolved_count-append id xs ys in omega (arith, rest)

-- A stream that gets `k` channels to a vertex, where the vertex reads it `k` times more.
pub add_times-IsWiredStream :
    (a : List (ℕ × ℕ)) (before after : Vertex → List ℕ) (j k : ℕ) (s : StreamMetadata) (w : Vertex)
    → IsWiredStream a before j s
    → ((v : Vertex)
        → resolved_count a j (after v)
          ≡ resolved_count a j (before v) + (if vertex_eq w v then k else 0))
    → IsWiredStream a after j (add_times k s w)
add_times-IsWiredStream a before after j k s w (key, labelled, counts) more = (
  (add_times-Same k s w).0 ∙ key,
  add_times-Labelled k s w labelled,
  λ v.
      let added = channels_to-add_times k s w v in
      let now = more v in let old = counts v in omega (arith, added, now, old),
)

module _ {R H : Type 0} where
  pub record IsWired (g : Graph R H) : Type 0 where
    pub operator_map : IsMap g.operators
    pub operator_keys : All (λ e. e.1.id ≡ e.0) g.operators
    pub driver_map : IsMap g.drivers
    pub driver_keys : All (λ e. e.1.id ≡ e.0) g.drivers
    pub stream_map : IsMap g.streams
    pub flat : IsFlat g.stream_aliases
    pub wired :
        (id : ℕ) (s : StreamMetadata)
        → get id g.streams ≡ some s
        → IsWiredStream g.stream_aliases (subscribed g) id s

  pub new-IsWired : IsWired new
  unfolding get
  new-IsWired = record {
    operator_map = tt;
    operator_keys = tt;
    driver_map = tt;
    driver_keys = tt;
    stream_map = tt;
    flat = λ x y h. cc;
    wired = λ id s h. cc;
  }

  -- A new stream gets a channel for each subscription that is there.
  pub wired-new_stream :
      (g : Graph R H) (id : ℕ) (source : Vertex)
      → IsMap g.operators
      → All (λ e. e.1.id ≡ e.0) g.operators
      → IsMap g.drivers
      → All (λ e. e.1.id ≡ e.0) g.drivers
      → IsFresh g.stream_aliases id
      → IsWiredStream g.stream_aliases (subscribed g) id (add_channels g (new_stream id source))
  wired-new_stream g id source om ok dm dk f =
      let s = new_stream id source in
      let ((same, _), labelled) = add_channels-Extends g s in
      (
        same,
        labelled tt,
        λ v.
            let all = channels_to-add_channels g v s om ok dm dk in
            let fresh = resolved_count-fresh g.stream_aliases id (subscribed g v) f in
            omega (arith, all, fresh),
      )

  pub add_operator_stream-IsWired :
      (g : Graph R H) (op id : ℕ)
      → IsWired g
      → IsFresh g.stream_aliases id
      → IsWired (add_operator_stream g op id)
  unfolding add_operator_stream
  add_operator_stream-IsWired g op id w f =
      let s = add_channels g (new_stream id (operator op)) in
      record {
        operator_map = w.operator_map;
        operator_keys = w.operator_keys;
        driver_map = w.driver_map;
        driver_keys = w.driver_keys;
        stream_map = insert-IsMap id s g.streams w.stream_map;
        flat = w.flat;
        wired =
            insert-each (IsWiredStream g.stream_aliases (subscribed g)) id s g.streams
              (wired-new_stream g id (operator op) w.operator_map w.operator_keys w.driver_map
                w.driver_keys f)
              (λ j t e h. w.wired j t h);
      }
