-- ===== src/Store.antt =====
-- The message store: internal/app/store.go.
pub mod State
pub mod Tables
pub mod Post
pub mod Valid
pub mod Pending
pub mod Evict
pub mod Save
pub mod Cleanup
pub mod Read
pub mod Recovery
mod Tests
