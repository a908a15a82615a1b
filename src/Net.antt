-- ===== src/Net.antt =====
-- lib/net: the framing of messages on a connection. Peers, pools and packets are not here.
pub mod Words
pub mod Parser
pub mod Framer
mod Tests
