-- ===== src/Graph/Vertices.antt =====
-- src/dataflow/graph/vertex.rs. Runners and setup hooks are closures, which the graph only
-- stores: values of the types `R` and `H`. An operator's name, which only the DOT export and log
-- lines read, is left out.
use erdos.Prelude.{ℕ, ◌≡◌, ◌↔◌, Bool, true, false, List, [], ◌∷◌, ◌++◌, ◌==◌, arith}

pub data Vertex : Type 0 where
  driver : ℕ → Vertex
  operator : ℕ → Vertex

-- `Vertex::eq`
unfoldable pub vertex_eq : Vertex → Vertex → Bool
vertex_eq (driver n) (driver m) = n == m
vertex_eq (operator n) (operator m) = n == m
vertex_eq (driver n) (operator m) = false
vertex_eq (operator n) (driver m) = false

pub vertex_eq_iff : (v w : Vertex) → (vertex_eq v w ≡ true) ↔ (v ≡ w)
unfolding vertex_eq
vertex_eq_iff (driver n) (driver m) = ground arith
vertex_eq_iff (operator n) (operator m) = ground arith
vertex_eq_iff (driver n) (operator m) = ground arith
vertex_eq_iff (operator n) (driver m) = ground arith

pub record DriverMetadata (H : Type 0) : Type 0 where
  pub id : ℕ
  pub ingest_stream_ids : List ℕ
  pub extract_stream_ids : List ℕ
  pub setup_hooks : List H

module _ {H : Type 0} where
  abbrev pub new_driver : ℕ → DriverMetadata H
  new_driver id = record {
    id = id;
    ingest_stream_ids = [];
    extract_stream_ids = [];
    setup_hooks = [];
  }

  abbrev pub add_ingest : DriverMetadata H → ℕ → H → DriverMetadata H
  add_ingest d stream_id hook = record d {
    ingest_stream_ids = d.ingest_stream_ids ++ (stream_id ∷ []);
    setup_hooks = d.setup_hooks ++ (hook ∷ []);
  }

  abbrev pub add_extract : DriverMetadata H → ℕ → H → DriverMetadata H
  add_extract d stream_id hook = record d {
    extract_stream_ids = d.extract_stream_ids ++ (stream_id ∷ []);
    setup_hooks = d.setup_hooks ++ (hook ∷ []);
  }

pub record OperatorMetadata (R : Type 0) : Type 0 where
  pub id : ℕ
  pub node_id : ℕ
  pub read_stream_ids : List ℕ
  pub write_stream_ids : List ℕ
  pub runner : R
