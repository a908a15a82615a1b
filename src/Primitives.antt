-- ===== src/Primitives.antt =====
-- lib/primitives: the transaction, its checks, and partial merkle trees.
pub mod Tx
pub mod Checks
pub mod MerkleBlock
