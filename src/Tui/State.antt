-- ===== src/Tui/State.antt =====
-- `AppState` of src/tui/app.rs, and what an arm of `update` gives back. A cancellation token is
-- the identity of the flag that all its clones share, and the state lists the flags that are set.
-- The configuration and the handles for drawing icons, which no arm reads, are left out.
use ichr.Base.{ℕ, Bool, Option, none, some, List, [], ◌∷◌, Text, text_eq, find}
use ichr.Domain.Platform.{Arch, OsName}
use ichr.Domain.Instance.{InstanceManifest, LoaderInfo}
use ichr.Domain.Account.{Account}
use ichr.Mojang.Types.{VersionEntry}
use ichr.Packs.{PackKind}
use ichr.Tui.View.{VersionFilter, ActiveView}
use ichr.Tui.Effect.{Effect}

abbrev pub Token : Type 0
Token = ℕ

pub record Job : Type 0 where
  pub id : ℕ
  pub pct : ℕ
  pub msg : Text

pub record AppState : Type 0 where
  pub should_quit : Bool
  pub active_view : ActiveView
  pub instances : List InstanceManifest
  pub versions : List VersionEntry
  pub versions_filter : VersionFilter
  pub active_jobs : List Job
  pub arch : Option Arch
  pub os : Option OsName
  pub last_error : Option Text
  pub running_instances : List (Text × Token)
  pub running_loader_installs : List (Text × Token)
  pub running_mod_jobs : List (Text × Token)
  pub accounts : List Account
  pub active_account_id : Option Text
  pub add_account_cancel : Option Token
  pub cf_api_key_present : Bool
  pub running_modpack_imports : List (Text × Token)
  pub running_pack_jobs : List ((Text × PackKind) × Token)
  pub installed_mod_project_ids : List (Text × List Text)
  pub installed_pack_project_ids : List ((Text × PackKind) × List Text)
  pub icon_rendering_enabled : Bool
  pub cancelled : List Token

-- What an arm returns, and an arm that writes nothing but the view.
abbrev pub Step : Type 0
Step = AppState × List Effect

abbrev pub ViewStep : Type 0
ViewStep = ActiveView × List Effect

abbrev pub with_view : AppState → ViewStep → Step
with_view s r = (record s { active_view = r.0 }, r.1)

-- `CancellationToken::cancel`, on the token that a map or a field held, if any.
abbrev pub cancel : Option Token → List Token → List Token
cancel none flags = flags
cancel (some token) flags = token ∷ flags

-- `state.instances.iter().find(|m| m.slug == slug)`
abbrev pub instance_of : AppState → Text → Option InstanceManifest
instance_of s slug = find (λ m. text_eq m.slug slug) s.instances

-- Its version of the game and its loader, with the defaults of an instance that is not listed.
abbrev pub mc_of : Option InstanceManifest → Option Text
mc_of none = none
mc_of (some m) = some m.mc_version_id

abbrev pub loader_of : Option InstanceManifest → Option LoaderInfo
loader_of none = none
loader_of (some m) = m.loader

abbrev pub or_empty : Option Text → Text
or_empty none = []
or_empty (some t) = t
