-- ===== src/ChannelManager/Taking.antt =====
-- src/scheduler/channel_manager.rs: a manager gives a stream's receiving endpoints away one by
-- one, and its sending endpoints all at once.
use erdos.Prelude.{
  ℕ, zero, suc, ◌≤◌, ◌<◌, ◌≡◌, ◌≢◌, ◌↔◌, ◌⊎◌, refl, ap, ◌∙◌, List, [], ◌∷◌, ◌++◌, Option, none,
  some, arith, Bool-cases, Option-cases, inl, inr, ==_refl, ltb, length, length-append, All,
}
use mathlib.Core.Path.{subst}
use erdos.Prelude.HashMap.{get, insert, get-insert, IsMap}
use erdos.Message.{Message}
use erdos.Communication.{ok, err, Mpsc}
use erdos.Communication.Endpoint.{SendEndpoint, Outgoing}
use erdos.Graph.{Graph, resolve_stream_id, get_vertices_on}
use erdos.Graph.Edges.{StreamMetadata}
use erdos.ChannelManager.{
  StreamEndpoints, ChannelManager, pop, entry_or_new, EndpointError, no_entry, no_more_endpoints,
}
use erdos.ChannelManager
use erdos.ChannelManager.Manager.{new, take_recv_endpoint, get_send_endpoints}
use erdos.ChannelManager.Endpoints.{new-endpoints, new-graph}
use erdos.ChannelManager.Counts.{due_recv, recv_count, recv_at, send_at, entry_or_new-insert}

le_of_not_gt : (n m : ℕ) → ((m < n) → ⊥) → n ≤ m
le_of_not_gt n m h = elim (Bool-cases (ltb m n)) [
  | inl t ↦ absurd (h (ground arith))
  | inr f ↦ ground arith
]

pop-cases :
    {A : Type 0} (xs : List A)
    → ((pop xs ≡ none) × (xs ≡ []))
      ⊎ ((x : A) × (rest : List A) × (pop xs ≡ some (x, rest)) × (xs ≡ rest ++ (x ∷ [])))
unfolding pop
pop-cases [] = inl (refl, refl)
pop-cases (x ∷ xs) = elim (pop-cases xs) [
  | inl (e, nothing) ↦ inr (x, [], rw (pop, e) refl, ap (λ ys. x ∷ ys) nothing)
  | inr (last, rest, e, is) ↦ inr (last, x ∷ rest, rw (pop, e) refl, ap (λ ys. x ∷ ys) is)
]

module _ {D : Type 0} {local : Mpsc (Message D)} {remote : Mpsc (Outgoing D)} {Rx : Type 0} where
  entry-take_some :
      (e : StreamEndpoints local remote Rx) (rx : Rx) (rest : List Rx)
      → pop e.recv_endpoints ≡ some (rx, rest)
      → ChannelManager.take_recv_endpoint e ≡ ok (rx, record e { recv_endpoints = rest })
  unfolding ChannelManager.take_recv_endpoint
  entry-take_some e rx rest h = rw (ChannelManager.take_recv_endpoint, h) refl

  entry-take_none :
      (e : StreamEndpoints local remote Rx)
      → pop e.recv_endpoints ≡ none
      → ChannelManager.take_recv_endpoint e ≡ err no_more_endpoints
  unfolding ChannelManager.take_recv_endpoint
  entry-take_none e h = rw (ChannelManager.take_recv_endpoint, h) refl

module _ {D : Type 0} {local : Mpsc (Message D)} {remote : Mpsc (Outgoing D)}
    {Rx R H : Type 0} where
  -- `n` calls of `take_recv_endpoint`, and the manager after them; `None` if one of them fails.
  unfoldable pub take_many :
      ℕ → ChannelManager local remote Rx R H → ℕ → Option (ChannelManager local remote Rx R H)
  take_many zero cm stream_id = some cm
  take_many (suc n) cm stream_id = elim (take_recv_endpoint cm stream_id) [
    | err e ↦ none
    | ok (rx, cm') ↦ take_many n cm' stream_id
  ]

  take-cases :
      (cm : ChannelManager local remote Rx R H) (stream_id : ℕ)
      → ((rx : Rx) × (cm' : ChannelManager local remote Rx R H) × (take_recv_endpoint cm stream_id
            ≡ ok (rx, cm'))
          × (cm'.graph ≡ cm.graph)
          × (recv_at (resolve_stream_id cm.graph stream_id) cm.stream_entries
              ≡ suc (recv_at (resolve_stream_id cm.graph stream_id) cm'.stream_entries)))
        ⊎ ((e : EndpointError) × (take_recv_endpoint cm stream_id ≡ err e)
            × (recv_at (resolve_stream_id cm.graph stream_id) cm.stream_entries ≡ 0))
  unfolding take_recv_endpoint
  take-cases cm stream_id =
      let id = resolve_stream_id cm.graph stream_id in
      elim (Option-cases (get id cm.stream_entries)) [
        | inl missing ↦
            inr (no_entry, rw (take_recv_endpoint, missing) refl, rw (entry_or_new, missing) refl)
        | inr (entry, found) ↦ elim (pop-cases entry.recv_endpoints) [
          | inl (e, empty) ↦ inr (
            no_more_endpoints,
            rw (take_recv_endpoint, found, entry-take_none entry e) refl,
            rw (entry_or_new, found, empty) refl,
          )
          | inr (rx, rest, e, is) ↦
              let left : StreamEndpoints local remote Rx = record entry { recv_endpoints = rest } in
              let cm' : ChannelManager local remote Rx R H = record cm {
                stream_entries = insert id left cm.stream_entries;
              } in
              let put = rw (==_refl id) at (entry_or_new-insert id id left cm.stream_entries) in
              let before : entry_or_new id cm.stream_entries ≡ entry =
                rw (entry_or_new, found) refl in
              let had = ap recv_count before in
              let now = ap recv_count put in
              let longer = length-append rest (rx ∷ []) in
              inl (
                rx,
                cm',
                rw (take_recv_endpoint, found, entry-take_some entry rx rest e) refl,
                refl,
                omega (arith, had, longer, now, ap length is),
              )
        ]
      ]

  take_many-le :
      (n : ℕ) (cm : ChannelManager local remote Rx R H) (stream_id : ℕ)
      → n ≤ recv_at (resolve_stream_id cm.graph stream_id) cm.stream_entries
      → take_many n cm stream_id ≢ none
  unfolding take_many
  take_many-le zero cm stream_id le h = cc
  take_many-le (suc n) cm stream_id le h = elim (take-cases cm stream_id) [
    | inl (rx, cm', e, same, less) ↦
        let id = ap (λ g. resolve_stream_id g stream_id) same in
        let left : n ≤ recv_at (resolve_stream_id cm'.graph stream_id) cm'.stream_entries =
          rw id (omega (arith, less)) in
        take_many-le n cm' stream_id left (rw (take_many, e) at h)
    | inr (x, e, empty) ↦ absurd (omega (arith, empty))
  ]

  take_many-gt :
      (n : ℕ) (cm : ChannelManager local remote Rx R H) (stream_id : ℕ)
      → recv_at (resolve_stream_id cm.graph stream_id) cm.stream_entries < n
      → take_many n cm stream_id ≡ none
  unfolding take_many
  take_many-gt zero cm stream_id lt = absurd (omega arith)
  take_many-gt (suc n) cm stream_id lt = elim (take-cases cm stream_id) [
    | inl (rx, cm', e, same, less) ↦
        let id = ap (λ g. resolve_stream_id g stream_id) same in
        let left : recv_at (resolve_stream_id cm'.graph stream_id) cm'.stream_entries < n =
          rw id (omega (arith, less)) in
        rw (take_many, e) (take_many-gt n cm' stream_id left)
    | inr (x, e, empty) ↦ rw (take_many, e) refl
  ]

module _ {D : Type 0} {local : Mpsc (Message D)} {remote : Mpsc (Outgoing D)} {Rx R H : Type 0}
    (unbounded_channel : ℕ → Mpsc.Tx local × Rx)
    (updates : Mpsc (ℕ × List (SendEndpoint local remote))) where
  -- From the manager of a node exactly as many receiving endpoints of a stream can be taken, under
  -- its id or an alias of it, as the stream is due there: each further call fails.
  pub take_many-due :
      (graph : Graph R H) (node_id : ℕ) (receivers receivers' : List (Mpsc.Tx updates))
      (senders : List (ℕ × Mpsc.Tx remote)) (cm : ChannelManager local remote Rx R H)
      (stream_id n : ℕ) (s : StreamMetadata)
      → IsMap graph.streams
      → All (λ e. e.1.id ≡ e.0) graph.streams
      → new unbounded_channel updates graph node_id receivers senders ≡ some (cm, receivers')
      → get (resolve_stream_id graph stream_id) graph.streams ≡ some s
      → (take_many n cm stream_id ≢ none) ↔ (n ≤ due_recv (get_vertices_on graph node_id) s)
  take_many-due graph node_id receivers receivers' senders cm stream_id n s u k made found =
      let id = resolve_stream_id graph stream_id in
      let same =
        new-graph unbounded_channel updates graph node_id receivers receivers' senders cm u k
          made in
      let due =
        (new-endpoints unbounded_channel updates graph node_id receivers receivers' senders cm id s
          u k made found).0 in
      let resolves = ap (λ g. resolve_stream_id g stream_id) same in
      let there : recv_at (resolve_stream_id cm.graph stream_id) cm.stream_entries
          ≡ due_recv (get_vertices_on graph node_id) s =
        ap (λ i. recv_at i cm.stream_entries) resolves ∙ due in
      (
        (λ some_left.
            le_of_not_gt n (due_recv (get_vertices_on graph node_id) s)
              (λ lt. some_left (take_many-gt n cm stream_id (omega (arith, there, lt))))),
        (λ le. take_many-le n cm stream_id (omega (arith, there, le))),
      )

  -- `get_send_endpoints` takes the endpoints out: a second call for the same stream gets none.
  pub get_send_endpoints-drains :
      (cm cm' : ChannelManager local remote Rx R H) (stream_id : ℕ)
      (endpoints : List (SendEndpoint local remote))
      → get_send_endpoints cm stream_id ≡ ok (endpoints, cm')
      → (send_at stream_id cm.stream_entries ≡ length endpoints)
        × ((cm'' : ChannelManager local remote Rx R H) × (get_send_endpoints cm' stream_id
              ≡ ok ([], cm'')))
  unfolding get_send_endpoints
  get_send_endpoints-drains cm cm' stream_id endpoints h =
      elim (Option-cases (get stream_id cm.stream_entries)) [
        | inl missing ↦ absurd (cc (rw (get_send_endpoints, missing) at h))
        | inr (entry, found) ↦
            let drained : StreamEndpoints local remote Rx = record entry { send_endpoints = [] } in
            let after : ChannelManager local remote Rx R H = record cm {
              stream_entries = insert stream_id drained cm.stream_entries;
            } in
            let got = rw (get_send_endpoints, found) at h in
            let same : entry.send_endpoints ≡ endpoints = cc got in
            let is : after ≡ cm' = cc got in
            let again =
              rw (==_refl stream_id) at
                (get-insert stream_id stream_id drained cm.stream_entries) in
            (
              rw (entry_or_new, found) (ap length same),
              subst
                  (λ (m : ChannelManager local remote Rx R H).
                    (m' : ChannelManager local remote Rx R H) × (get_send_endpoints m stream_id
                      ≡ ok ([], m')))
                  is
                  (
                    record after { stream_entries = insert stream_id drained after.stream_entries },
                    rw (get_send_endpoints, again) refl,
                  ),
            )
      ]
