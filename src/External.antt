-- ===== src/External.antt =====
-- What the node calls and does not implement, as interfaces that the components take as parameters.
pub mod Mdbx
pub mod Crypto
pub mod Sorted
pub mod Samples
pub mod Transport
pub mod SampleTransport
