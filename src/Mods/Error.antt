-- ===== src/Mods/Error.antt =====
-- src/mods/error.rs: `ModrinthError`. An I/O error is its text.
use ichr.Base.{ℕ, List, Text}

pub data ModrinthError : Type 0 where
  http : Text → ModrinthError
  parse : Text → ModrinthError
  sha512_mismatch : (url expected got : Text) → ModrinthError
  dependency_conflict : (conflicting_project_id requested_by : Text) → ModrinthError
  no_compatible_version : (project_id mc : Text) (loaders : List Text) → ModrinthError
  mod_not_found : Text → ModrinthError
  ledger_parse : Text → ModrinthError
  rate_limited : (retry_after_secs : ℕ) → ModrinthError
  file_not_downloadable : (project_slug : Text) → ModrinthError
  cancelled : ModrinthError
  io : Text → ModrinthError
