-- ===== src/Proto.antt =====
-- The messages of proto/api.proto that the components exchange, and proto/cert_info.go.
pub mod Bits
pub mod Certs
pub mod Records
