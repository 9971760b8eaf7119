-- ===== src/Controller.antt =====
-- internal/controller.
pub mod Types
pub mod Filter
pub mod Manager
pub mod Errors
pub mod Reconciler
pub mod Watch
