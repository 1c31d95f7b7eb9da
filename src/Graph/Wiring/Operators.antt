-- ===== src/Graph/Wiring/Operators.antt =====
-- src/dataflow/graph/graph.rs: `add_operator` wires the operator's read streams.
use erdos.Prelude.{
  ℕ, ◌+◌, ◌≡◌, refl, sym, ◌∙◌, List, none, ◌==◌, if◌then◌else◌, arith, count, Bool-cases,
  Option-cases, inl, inr, ==_iff, map,
}
use mathlib.Core.Path.{subst}
use erdos.Prelude.HashMap.{get, get-insert, insert-IsMap, insert-keys}
use erdos.Graph.{Graph, resolve_stream_id, add_operator}
use erdos.Graph.Vertices.{Vertex, driver, operator, vertex_eq, OperatorMetadata}
use erdos.Graph.Channels.{add_times, get-add_reads, add_reads-IsMap}
use erdos.Graph.Subscriptions.{subscribed}
use erdos.Graph.Wiring.{
  IsWired, IsWiredStream, resolved, resolved_count, resolved_count-resolved, IsFlat,
  add_times-IsWiredStream,
}

module _ {R H : Type 0} (g : Graph R H) (id node : ℕ) (reads writes : List ℕ) (runner : R) where
  abbrev new_op : OperatorMetadata R
  new_op = record {
    id = id;
    node_id = node;
    read_stream_ids = map (resolved g.stream_aliases) reads;
    write_stream_ids = map (resolved g.stream_aliases) writes;
    runner = runner;
  }

  -- What the vertices read once the operator is there.
  subscribed-add_operator :
      (v : Vertex) (j : ℕ)
      → IsFlat g.stream_aliases
      → get id g.operators ≡ none
      → let ids = map (resolved g.stream_aliases) reads in
        resolved_count g.stream_aliases j
          (subscribed (add_operator g id node reads writes runner) v)
        ≡ resolved_count g.stream_aliases j (subscribed g v)
          + (if vertex_eq (operator id) v then count j ids else 0)
  unfolding add_operator resolve_stream_id vertex_eq
  subscribed-add_operator (driver n) j flat new_id = omega arith
  subscribed-add_operator (operator n) j flat new_id = elim (Bool-cases (id == n)) [
    | inl e ↦
        let free : get n g.operators ≡ none = rw (← (==_iff id n).0 e) new_id in
        let all = resolved_count-resolved g.stream_aliases j reads flat in
        rw (get-insert id n new_op g.operators, e, free) (omega (arith, all))
    | inr e ↦ rw (get-insert id n new_op g.operators, e) (omega arith)
  ]

  pub add_operator-IsWired :
      IsWired g → get id g.operators ≡ none → IsWired (add_operator g id node reads writes runner)
  unfolding add_operator resolve_stream_id
  add_operator-IsWired w new_id =
      let ids = map (resolved g.stream_aliases) reads in
      record {
        operator_map = insert-IsMap id _ g.operators w.operator_map;
        operator_keys = insert-keys (λ op. op.id) id new_op g.operators refl w.operator_keys;
        driver_map = w.driver_map;
        driver_keys = w.driver_keys;
        stream_map = add_reads-IsMap (operator id) ids g.streams w.stream_map;
        flat = w.flat;
        wired = λ j s h. elim (Option-cases (get j g.streams)) [
          | inl e ↦ absurd (cc (rw e at (sym (get-add_reads (operator id) j ids g.streams) ∙ h)))
          | inr (t, e) ↦
              let k = count j ids in
              let same : add_times k t (operator id) ≡ s =
                cc (rw e at (sym (get-add_reads (operator id) j ids g.streams) ∙ h)) in
              subst (IsWiredStream g.stream_aliases _ j) same (
                add_times-IsWiredStream g.stream_aliases (subscribed g) _ j k t (operator id)
                  (w.wired j t e) (λ v. subscribed-add_operator v j w.flat new_id))
        ];
      }
