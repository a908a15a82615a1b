-- ===== src/Protocol.antt =====
-- lib/protocol: timedata.js, the compact numbers of params/consensus.js, the fees of params/policy.js,
-- the block subsidy of params/consensus.js.
pub mod TimeData
pub mod Compact
pub mod Policy
pub mod Subsidy
