-- ===== src/Java.antt =====
-- src/java: which Java runtime an instance is started with.
pub mod Mapping
pub mod Resolve
pub mod Major
pub mod Sources
pub mod Offline
mod Tests
