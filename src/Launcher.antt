-- ===== src/Launcher.antt =====
-- src/launcher: what a version is started with.
pub mod Classpath
mod Tests
