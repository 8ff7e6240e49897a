-- ===== src/Mods.antt =====
-- src/mods: mods from Modrinth, their dependencies and the ledger of what is installed.
pub mod Types
pub mod Hits
pub mod Error
pub mod Filter
pub mod DepResolve
pub mod Ledger
pub mod Installer
mod Tests
