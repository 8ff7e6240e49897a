-- ===== src/Domain/Instance.antt =====
-- src/domain/instance.rs, the loader record of src/loader/types.rs that an instance carries, and
-- the Java runtimes of src/java/types.rs and src/java/detect.rs that it may pin.
use ichr.Base.{ℕ, Bool, Option, Text}

pub data ModloaderKind : Type 0 where
  vanilla fabric quilt forge neo_forge : ModloaderKind

pub record LoaderInfo : Type 0 where
  pub kind : ModloaderKind
  pub version : Text
  pub version_id : Text

pub record LoaderVersionEntry : Type 0 where
  pub version : Text
  pub stable : Bool
  pub build : Option ℕ

pub data JavaRuntimeId : Type 0 where
  mojang : (variant : Text) → JavaRuntimeId
  adoptium : (major : ℕ) → JavaRuntimeId
  system : (path : Text) (major_version : ℕ) → JavaRuntimeId

pub record SystemJava : Type 0 where
  pub path : Text
  pub major_version : ℕ

pub record InstanceManifest : Type 0 where
  pub schema_version : ℕ
  pub display_name : Text
  pub slug : Text
  pub mc_version_id : Text
  pub created_at : Text
  pub last_played_at : Option Text
  pub notes : Option Text
  pub group : Option Text
  pub java_override : Option JavaRuntimeId
  pub loader : Option LoaderInfo
  pub total_play_time_ms : ℕ
