-- ===== src/Server.antt =====
-- internal/testserver/testserver.go
pub mod Types
pub mod Objects
pub mod Consumers
pub mod Tokens
pub mod Audit
pub mod Requests
pub mod Listing
pub mod Invariant
pub mod Http
pub mod Shortcuts
pub mod Steps
