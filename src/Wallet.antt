-- ===== src/Wallet.antt =====
-- The part of lib/wallet that chooses the coins of a transaction.
pub mod CoinSelector
pub mod BranchAndBound
mod Tests
