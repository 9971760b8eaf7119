-- ===== src/Network.antt =====
-- internal/network: address ranges, the allocator over them, and what holds of both.
pub mod Parse
pub mod Value
pub mod Increment
pub mod Decrement
pub mod Allocator
pub mod Bounds
pub mod Manager
