-- ===== src/Tests.antt =====
-- Runs of the definitions on concrete inputs, one file for each part of the program.
mod Streams
mod Events
mod States
mod Lattices
mod Dependencies
mod Control
mod Graphs
mod Reads
mod Joins
mod Nodes
mod Receivers
mod Zenoh
mod SharedMemory
