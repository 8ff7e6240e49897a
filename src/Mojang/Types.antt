-- ===== src/Mojang/Types.antt =====
-- src/mojang/types.rs: the structures of Mojang's version JSON. Maps are association lists.
use ichr.Base.{ℕ, Bool, Option, List, Text}

pub record LatestVersions : Type 0 where
  pub release : Text
  pub snapshot : Text

pub record VersionEntry : Type 0 where
  pub id : Text
  pub version_type : Text
  pub url : Text
  pub time : Text
  pub release_time : Text
  pub sha1 : Text
  pub compliance_level : ℕ

pub record VersionManifest : Type 0 where
  pub latest : LatestVersions
  pub versions : List VersionEntry

-- What the rules read of a JSON value: whether it is an object, and for each of its keys whether
-- the value there is `true`.
pub data Value : Type 0 where
  object : List (Text × Bool) → Value
  no_object : Value

pub record OsRule : Type 0 where
  pub name : Option Text
  pub arch : Option Text
  pub version : Option Text

pub record Rule : Type 0 where
  pub action : Text
  pub os : Option OsRule
  pub features : Option Value

pub data ArgValue : Type 0 where
  single : Text → ArgValue
  multiple : List Text → ArgValue

pub record ConditionalArg : Type 0 where
  pub rules : List Rule
  pub value : ArgValue

pub data ArgumentEntry : Type 0 where
  plain : Text → ArgumentEntry
  conditional : ConditionalArg → ArgumentEntry

pub record Arguments : Type 0 where
  pub game : List ArgumentEntry
  pub jvm : List ArgumentEntry

pub record AssetIndex : Type 0 where
  pub id : Text
  pub sha1 : Text
  pub size : ℕ
  pub total_size : ℕ
  pub url : Text

pub record DownloadArtifact : Type 0 where
  pub sha1 : Text
  pub size : ℕ
  pub url : Text

pub record VersionDownloads : Type 0 where
  pub client : Option DownloadArtifact
  pub client_mappings : Option DownloadArtifact
  pub server : Option DownloadArtifact
  pub server_mappings : Option DownloadArtifact

pub record LibraryArtifact : Type 0 where
  pub path : Text
  pub sha1 : Option Text
  pub size : Option ℕ
  pub url : Text

pub record LibraryDownloads : Type 0 where
  pub artifact : Option LibraryArtifact
  pub classifiers : Option (List (Text × LibraryArtifact))

pub record ExtractConfig : Type 0 where
  pub exclude : List Text

pub record Library : Type 0 where
  pub name : Text
  pub downloads : LibraryDownloads
  pub rules : List Rule
  pub natives : Option (List (Text × Text))
  pub extract : Option ExtractConfig

pub record JavaVersion : Type 0 where
  pub component : Text
  pub major_version : ℕ

pub record LoggingFile : Type 0 where
  pub id : Text
  pub sha1 : Text
  pub size : ℕ
  pub url : Text

pub record LoggingClient : Type 0 where
  pub argument : Text
  pub file : LoggingFile
  pub logging_type : Text

pub record LoggingConfig : Type 0 where
  pub client : Option LoggingClient

pub record VersionJson : Type 0 where
  pub id : Text
  pub version_type : Text
  pub main_class : Text
  pub asset_index : Option AssetIndex
  pub assets : Option Text
  pub downloads : Option VersionDownloads
  pub libraries : List Library
  pub java_version : Option JavaVersion
  pub logging : Option LoggingConfig
  pub compliance_level : Option ℕ
  pub minimum_launcher_version : Option ℕ
  pub release_time : Text
  pub time : Text
  pub arguments : Option Arguments
  pub minecraft_arguments : Option Text
  pub inherits_from : Option Text

pub record ResolvedVersion : Type 0 where
  pub id : Text
  pub root_id : Text
  pub version_type : Text
  pub main_class : Text
  pub asset_index : AssetIndex
  pub assets : Text
  pub downloads : VersionDownloads
  pub libraries : List Library
  pub java_version : Option JavaVersion
  pub logging : Option LoggingConfig
  pub compliance_level : Option ℕ
  pub minimum_launcher_version : Option ℕ
  pub release_time : Text
  pub time : Text
  pub arguments : Option Arguments
  pub minecraft_arguments : Option Text
