-- ===== src/Http.antt =====
-- Parts of the HTTP API: internal/app/http.go.
pub mod Inbox
pub mod Raw
pub mod Recorder
pub mod Mail
pub mod Limits
pub mod Page
mod Tests
