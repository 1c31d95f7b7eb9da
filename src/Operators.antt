-- ===== src/Operators.antt =====
-- src/dataflow/operators: the operators that the library provides.
pub mod Join
pub mod Map
