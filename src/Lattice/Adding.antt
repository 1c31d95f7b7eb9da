-- ===== src/Lattice/Adding.antt =====
-- `add_events` of src/node/lattice.rs on valid lattices.
pub mod Lists
pub mod Scans
pub mod Visits
pub mod Walk
pub mod Graphs
pub mod Insert
pub mod AddEvent
pub mod Result
pub mod Edges
