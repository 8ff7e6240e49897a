-- ===== src/Loader.antt =====
-- src/loader: installation of mod loaders; the coordinates of their libraries.
pub mod Error
pub mod Maven
mod Tests
