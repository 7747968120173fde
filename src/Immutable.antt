-- ===== src/Immutable.antt =====
-- immutable/set.go: sets with a hash that is fixed when they are built, and the hash functions.
pub mod Hash
pub mod Set
