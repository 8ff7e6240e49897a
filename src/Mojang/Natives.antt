-- ===== src/Mojang/Natives.antt =====
-- src/mojang/natives.rs: the libraries that carry native code, and the key of a library.
pub mod Keys
use ichr.Base.{
  ℕ, ◌+◌, Bool, ◌&&◌, Option, none, some, List, [], ◌∷◌, ◌++◌, Text, lookup, is_some, ◌==◌,
  if◌then◌else◌,
}
use ichr.Domain.Platform.{OsName, os_str}
use ichr.Mojang.Types.{Library, LibraryArtifact}

unfoldable pub needs_native_extraction : Library → Bool
needs_native_extraction lib = is_some lib.natives && is_some lib.downloads.classifiers

infixl 5 ◌>>=◌
abbrev ◌>>=◌ : {A B : Type 0} → Option A → (A → Option B) → Option B
none >>= k = none
some a >>= k = k a

unfoldable pub native_classifier_artifact : Library → OsName → Option LibraryArtifact
native_classifier_artifact lib os = do
  natives ← lib.natives
  classifier_key ← lookup (os_str os) natives
  classifiers ← lib.downloads.classifiers
  lookup classifier_key classifiers

-- The loop over the characters: `taken` is what stands before the current one, `count` the colons
-- in it. `none` is the end of the loop without a return.
unfoldable pub second_colon : (taken : Text) (count : ℕ) → Text → Option Text
second_colon taken count [] = none
second_colon taken count (c ∷ s) =
    let rest_colon = second_colon (taken ++ c ∷ []) (count + 1) s in
    let rest = second_colon (taken ++ c ∷ []) count s in
    if c == b':' then (if count + 1 == 2 then some taken else rest_colon) else rest

abbrev or_name : Option Text → Text → Text
or_name (some key) name = key
or_name none name = name

unfoldable pub maven_group_artifact : Text → Text
unfolding second_colon
maven_group_artifact name = or_name (second_colon [] 0 name) name
