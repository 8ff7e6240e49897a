-- ===== src/Mojang.antt =====
-- src/mojang: the version metadata of the game and how the launcher reads it.
pub mod Types
pub mod Rules
pub mod Natives
pub mod Args
pub mod Inherits
mod Tests
