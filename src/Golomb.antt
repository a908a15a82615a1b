-- ===== src/Golomb.antt =====
-- lib/golomb: the bits of the filters, their writer and reader, and the filters.
pub mod Bits
pub mod Writer
pub mod Reader
pub mod Filter
pub mod RoundTrip
mod Tests
