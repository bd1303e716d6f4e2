-- ===== src/Store.antt =====
-- The store crate (crates/store/src).
pub mod Location
pub mod Operations
