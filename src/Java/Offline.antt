-- ===== src/Java/Offline.antt =====
-- When a resolution of src/java/service.rs answers a pinned system Java, without a download.
use ichr.Base.{ℕ, true, none, some, [], Text, ok, ◌≡◌, ◌↔◌, ◌≤◌, arith}
use ichr.Domain.Platform.{Arch, OsName}
use ichr.Domain.Instance.{system, InstanceManifest}
use ichr.Mojang.Types.{ResolvedVersion}
use ichr.Java.Mapping.{validate_java_major}
use ichr.Java.Resolve.{Answers, resolve_override, resolve_jre_for_launch, required_major_of}

module _ (answers : Answers) (runtime_dir : Text) (os : OsName) (arch : Arch)
    (instance_ : InstanceManifest) (version : ResolvedVersion) where
  -- Where ICHR_JAVA is not set and a system Java is pinned, the answer is its path, without a
  -- download, exactly where the path is a file and the major version recorded for it is at least
  -- the required one.
  pub resolve_jre_for_launch-system :
      (path : Text) (major_version : ℕ)
      → answers.ichr_java ≡ none
      → instance_.java_override ≡ some (system path major_version)
      → (resolve_jre_for_launch answers runtime_dir os arch instance_ version ≡ ([], ok path))
        ↔ ((answers.is_file path ≡ true) × (required_major_of version.java_version ≤ major_version))
  unfolding resolve_jre_for_launch resolve_override validate_java_major
  resolve_jre_for_launch-system path major_version h w = (λ e. grind arith, λ e. grind arith)
