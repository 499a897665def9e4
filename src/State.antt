-- ===== src/State.antt =====
-- state.rs: the persisted state and its operations.
pub mod Delta
pub mod Policy
pub mod Seed
pub mod Save
