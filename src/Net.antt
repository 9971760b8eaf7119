-- ===== src/Net.antt =====
-- The parts of Go's packages `net`, `net/netip` and `bytes` that the program calls.
pub mod Addr
pub mod Parse
pub mod Print
pub mod Dotted
pub mod RoundTrip
pub mod Bounds
pub mod Masks
