-- ===== src/Mime.antt =====
-- Rendering of messages: internal/app/mime.go.
pub mod Html
pub mod Render
pub mod Parts
mod Tests
