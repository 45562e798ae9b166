-- ===== src/Smtp.antt =====
-- The SMTP server: internal/app/smtp.go. go-smtp, which parses the protocol and calls the session, is
-- not modelled.
pub mod Admission
pub mod Session
pub mod Certificate
mod Tests
