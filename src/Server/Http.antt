-- ===== src/Server/Http.antt =====
-- The HTTP layer of internal/testserver/testserver.go: the handlers and the patterns of `newMux`.
pub mod Defs
pub mod Flow
pub mod Objects
pub mod Consumers
pub mod Tokens
pub mod Mux
pub mod Access
pub mod Reading
pub mod Preserves
pub mod Answers
pub mod Created
