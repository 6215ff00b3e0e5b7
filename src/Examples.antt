-- ===== src/Examples.antt =====
-- Runs of the model at concrete stores and requests, and the theorems applied there.
mod Fixtures
mod Objects
mod Tokens
mod Consumers
mod Http
mod AuditLog
mod Cli
mod Setup
mod Commands
mod Listing
mod Hosting
mod Session
mod Rotation
mod Deletion
