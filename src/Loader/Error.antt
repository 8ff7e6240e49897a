-- ===== src/Loader/Error.antt =====
-- src/loader/error.rs: the cases of `LoaderError` that the modelled code raises.
use ichr.Base.{Text}

pub data LoaderError : Type 0 where
  invalid_maven_coord : (coord : Text) → LoaderError
