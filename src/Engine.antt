-- ===== src/Engine.antt =====
-- engine/engine.cpp: the checks between a received blob and the store. `Config` has the operator's
-- limits and the results, `Checks`,
-- `Resolve` and `Ingest` the pipeline of a write, `Delete` that of a deletion; the proofs are in the other
-- children.
pub mod Config
pub mod Checks
pub mod Resolve
pub mod Ingest
pub mod Delete
pub mod Authentic
pub mod Acked
pub mod Accepted
pub mod Tombstoned
pub mod Squatting
pub mod Binding
pub mod Deleted
pub mod Samples
mod Runs
