-- ===== src/Error.antt =====
-- src/error.rs: the cases of `AppError` that the modelled code raises. A path is its text.
use ichr.Base.{ℕ, Text}

pub data AppError : Type 0 where
  inherits_from_cycle : Text → AppError
  inherits_from_depth_exceeded : (current : Text) (max : ℕ) → AppError
  inherits_from_parent_missing : Text → AppError
  inherits_from_missing_required : (field version_id : Text) → AppError
  java_mismatch : (required found : ℕ) (path hint : Text) → AppError
  java_not_found : AppError
  java_override_not_found : (path : Text) → AppError
  io http : (why : Text) → AppError
