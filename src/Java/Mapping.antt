-- ===== src/Java/Mapping.antt =====
-- src/java/mapping.rs: the names of a platform, the major version in the output of `java -version`
-- and the test of a found version against the required one.
use ichr.Base.{
  ℕ, ◌+◌, ◌-◌, ◌*◌, ◌^◌, Bool, Option, none, some, List, [], ◌∷◌, ◌++◌, Text, codes, text_eq,
  is_digit, ◌==◌, ltb, if◌then◌else◌, split, Result, err, ok,
}
use ichr.Domain.Platform.{Arch, x86_64, aarch64, other, OsName, linux, windows}
use ichr.Error.{AppError, java_mismatch}
use ichr.Instance.Slug.{decimal}

abbrev pub key_if : Bool → Text → Option Text
key_if b key = if b then some key else none

unfoldable pub mojang_platform_key : OsName → Arch → Option Text
mojang_platform_key linux x86_64 = some (codes "linux")
mojang_platform_key linux aarch64 = none
mojang_platform_key linux (other a) = key_if (text_eq a (codes "x86")) (codes "linux-i386")
mojang_platform_key windows x86_64 = some (codes "windows-x64")
mojang_platform_key windows aarch64 = some (codes "windows-arm64")
mojang_platform_key windows (other a) = key_if (text_eq a (codes "x86")) (codes "windows-x86")

unfoldable pub adoptium_arch_str : Arch → Text
adoptium_arch_str x86_64 = codes "x64"
adoptium_arch_str aarch64 = codes "aarch64"
adoptium_arch_str (other a) = if text_eq a (codes "x86") then codes "x86" else codes "x64"

unfoldable pub adoptium_os_str : OsName → Text
adoptium_os_str linux = codes "linux"
adoptium_os_str windows = codes "windows"

abbrev pub digit_value : ℕ → Option ℕ
digit_value c = if is_digit c then some (c - b'0') else none

abbrev pub checked : ℕ → Option ℕ
checked n = if ltb n (2 ^ 32) then some n else none

-- One digit more, and `none` where the number leaves 32 bits.
abbrev pub with_digit : ℕ → Option ℕ → Option ℕ
with_digit acc none = none
with_digit acc (some d) = checked (acc * 10 + d)

unfoldable pub digits_from : Option ℕ → Text → Option ℕ
digits_from none s = none
digits_from (some acc) [] = some acc
digits_from (some acc) (c ∷ s) = digits_from (with_digit acc (digit_value c)) s

-- `str::parse::<u32>`, which takes a leading plus sign.
unfoldable pub parse_u32 : Text → Option ℕ
unfolding digits_from
parse_u32 [] = none
parse_u32 (c ∷ []) = digits_from (some 0) (c ∷ [])
parse_u32 (c ∷ d ∷ s) =
    let signed = digits_from (some 0) (d ∷ s) in
    let plain = digits_from (some 0) (c ∷ d ∷ s) in if c == b'+' then signed else plain

-- `lines().next()`; a carriage return at its end stands behind what is read of it.
unfoldable pub first_line : Text → Text
first_line [] = []
first_line (c ∷ s) = let rest = first_line s in if c == b'\n' then [] else c ∷ rest

-- `&s[s.find(stop)? + 1..]` and `&s[..s.find(stop)?]`
unfoldable pub after : ℕ → Text → Option Text
after stop [] = none
after stop (c ∷ s) = let rest = after stop s in if c == stop then some s else rest

abbrev pub prefixed : ℕ → Option Text → Option Text
prefixed c none = none
prefixed c (some s) = some (c ∷ s)

unfoldable pub before : ℕ → Text → Option Text
before stop [] = none
before stop (c ∷ s) = let rest = before stop s in if c == stop then some [] else prefixed c rest

abbrev pub bind_text : Option Text → (Text → Option ℕ) → Option ℕ
bind_text none next = none
bind_text (some s) next = next s

abbrev pub second_part : List Text → Option ℕ
second_part [] = none
second_part (p ∷ rest) = parse_u32 p

abbrev pub major_of : List Text → Option ℕ
major_of [] = none
major_of (first ∷ rest) = if text_eq first (codes "1") then second_part rest else parse_u32 first

unfoldable pub parse_java_major : Text → Option ℕ
unfolding first_line after before split parse_u32 text_eq
parse_java_major stderr =
    bind_text (after b'"' (first_line stderr))
      (λ rest. bind_text (before b'"' rest) (λ ver. major_of (split b'.' ver)))

abbrev pub hint : ℕ → Text
hint required =
    codes "Install Java "
    ++ (decimal required
        ++ (codes " or set ICHR_JAVA to a Java " ++ (decimal required ++ codes "+ executable")))

unfoldable pub validate_java_major : ℕ → ℕ → Text → Result AppError Unit
validate_java_major found required java_path =
    if ltb found required
    then err (java_mismatch required found java_path (hint required))
    else ok tt
