-- ===== src/Cli.antt =====
-- The commands' operations of internal/cli: options, recipients, inject, update, edit, get and the
-- calls passed on.
pub mod Config
pub mod Options
pub mod Write
pub mod Client
pub mod Read
pub mod Flags
pub mod Commands
