-- ===== src/Utils.antt =====
-- lib/utils: binary.js.
pub mod Binary
pub mod BufferMap
