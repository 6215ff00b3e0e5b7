-- ===== src/Client.antt =====
-- internal/client
pub mod Errors
pub mod Sdk
pub mod Op
pub mod Calls
pub mod Seal
pub mod Tokens
pub mod Consumers
pub mod AuditLog
pub mod Reads
pub mod Directory
pub mod TokenCalls
pub mod Remote
