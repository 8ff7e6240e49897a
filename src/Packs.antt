-- ===== src/Packs.antt =====
-- src/packs/kind.rs: resource packs and shader packs.
pub data PackKind : Type 0 where
  resource shader : PackKind
