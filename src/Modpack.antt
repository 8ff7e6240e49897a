-- ===== src/Modpack.antt =====
-- src/modpack: the manifest of a pack.
pub mod Parse
mod Tests
