-- ===== src/Instance.antt =====
-- src/instance: the directories of instances.
pub mod Slug
mod Tests
