-- ===== src/Blockchain.antt =====
-- lib/blockchain.
pub mod StateCache
pub mod VersionBits
pub mod Locks
pub mod Retarget
