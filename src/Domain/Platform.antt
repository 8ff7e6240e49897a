-- ===== src/Domain/Platform.antt =====
-- src/domain/platform.rs: processor and operating system, under Mojang's names.
use ichr.Base.{Text, codes, text_eq, if◌then◌else◌}

pub data Arch : Type 0 where
  x86_64 aarch64 : Arch
  other : Text → Arch

pub data OsName : Type 0 where
  linux windows : OsName

-- `Arch::current`, with `std::env::consts::ARCH` as an argument.
unfoldable pub arch_of : Text → Arch
unfolding text_eq
arch_of a =
    if text_eq a (codes "x86_64")
    then x86_64
    else if text_eq a (codes "aarch64")
    then aarch64
    else other a

unfoldable pub arch_str : Arch → Text
arch_str x86_64 = codes "x86_64"
arch_str aarch64 = codes "arm64"
arch_str (other s) = s

unfoldable pub os_str : OsName → Text
os_str linux = codes "linux"
os_str windows = codes "windows"
