-- ===== src/Storage.antt =====
-- storage/storage.cpp: the blob store over eight ordered maps of libmdbx. A write transaction that
-- aborts or throws leaves the maps as they were. `Layout` has the maps, their keys and values,
-- `Cursor` what walks through the sequence map, `Query` the readers, and `Write`, `Erase` and
-- `Owners` the operations that write; the proofs are in the other children.
pub mod Layout
pub mod Cursor
pub mod Query
pub mod Write
pub mod Erase
pub mod Owners
pub mod Values
pub mod Maps
pub mod Stored
pub mod Erased
pub mod Quotas
pub mod Cycle
pub mod Listing
pub mod Expiry
pub mod Progress
pub mod Samples
mod Runs
