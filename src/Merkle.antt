-- ===== src/Merkle.antt =====
-- src/kvsrv/merkle.go and `findDiffBuckets` of src/kvsrv/anti_entropy.go: what is hashed, the tree of
-- a sector, its summary, and the comparison of two summaries.
pub mod Encode
pub mod Tree
pub mod Diff
