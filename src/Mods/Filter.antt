-- ===== src/Mods/Filter.antt =====
-- src/mods/filter.rs: choices among files and versions, and the tests on file names.
pub mod Latest
pub mod Names
pub mod Cleaned
use ichr.Base.{
  ℕ, Bool, true, false, not, ◌&&◌, ◌||◌, Option, none, some, List, [], ◌∷◌, ◌++◌, Text, codes, ◌==◌,
  ltb, find, or_else, is_alphanumeric, is_upper, all, has, has_text, starts_with, ends_with, ◌+◌,
  map, if◌then◌else◌, take, length, ◌-◌, text_eq, zero, suc, keep_unless, trim_start,
}
use ichr.Mods.Types.{ModrinthFile, ModrinthVersion}

abbrev first : List ModrinthFile → Option ModrinthFile
first [] = none
first (f ∷ fs) = some f

unfoldable pub pick_primary_file : List ModrinthFile → Option ModrinthFile
pick_primary_file files = or_else (find (λ f. f.primary) files) (first files)

-- `str::cmp` is less than or equal: texts in lexicographic order.
unfoldable pub text_leb : Text → Text → Bool
text_leb [] t = true
text_leb (a ∷ s) [] = false
text_leb (a ∷ s) (b ∷ t) = if ltb a b then true else (a == b && text_leb s t)

-- `max_by`: of equal maxima the last one.
unfoldable pub latest_from : ModrinthVersion → List ModrinthVersion → ModrinthVersion
latest_from best [] = best
latest_from best (v ∷ vs) =
    latest_from (if text_leb best.date_published v.date_published then v else best) vs

unfoldable pub pick_latest_by_date : List ModrinthVersion → Option ModrinthVersion
unfolding latest_from
pick_latest_by_date [] = none
pick_latest_by_date (v ∷ vs) = some (latest_from v vs)

unfoldable pub is_safe_modrinth_slug : Text → Bool
is_safe_modrinth_slug [] = false
is_safe_modrinth_slug (c ∷ s) = all (λ b. is_alphanumeric b || (b == b'_' || b == b'-')) (c ∷ s)

unfoldable pub is_filename_byte : ℕ → Bool
is_filename_byte b = is_alphanumeric b || (b == b'.' || (b == b'_' || (b == b'+' || b == b'-')))

-- A separator, or "..".
unfoldable pub is_traversal : Text → Bool
is_traversal s = has b'/' s || (has 92 s || has_text s (codes ".."))

unfoldable pub is_safe_mod_filename : Text → Bool
is_safe_mod_filename s =
    if not (ends_with s (codes ".jar"))
    then false
    else if starts_with s (codes ".")
    then false
    else if is_traversal s
    then false
    else all is_filename_byte s

abbrev pub to_ascii_lowercase : Text → Text
to_ascii_lowercase = map (λ c. if is_upper c then c + 32 else c)

unfoldable pub is_pack_byte : ℕ → Bool
unfolding is_filename_byte
is_pack_byte b = is_filename_byte b || b == b' '

unfoldable pub is_safe_pack_filename : Text → Bool
is_safe_pack_filename s =
    if not (ends_with (to_ascii_lowercase s) (codes ".zip"))
    then false
    else if starts_with s (codes ".")
    then false
    else if is_traversal s
    then false
    else all is_pack_byte s

abbrev pub disabled_suffix : Text
disabled_suffix = codes ".disabled"

unfoldable pub disabled_filename : Text → Text
disabled_filename file_name = file_name ++ disabled_suffix

-- `str::strip_suffix`
unfoldable pub strip_suffix : Text → Text → Option Text
strip_suffix suffix [] = if text_eq [] suffix then some [] else none
strip_suffix suffix (c ∷ s) =
    let rest : Option Text = elim (strip_suffix suffix s) [ none ↦ none | some t ↦ some (c ∷ t) ] in
    if text_eq (c ∷ s) suffix then some [] else rest

unfoldable pub enabled_filename : Text → Option Text
unfolding strip_suffix
enabled_filename disabled_name = strip_suffix disabled_suffix disabled_name

-- The code points behind the first ones, all but the last four.
abbrev stem_of : Text → Text
stem_of s = take (length s - 4) s

-- The loop that drops a section sign and the character behind it.
unfoldable pub strip_codes : Text → Text
strip_codes [] = []
strip_codes (c ∷ []) = if c == 167 then [] else c ∷ []
strip_codes (c ∷ d ∷ s) =
    let behind = strip_codes s in
    let here = strip_codes (d ∷ s) in if c == 167 then behind else c ∷ here

-- The bytes of a character that is not allowed: each becomes an underscore.
unfoldable pub underscores : ℕ → Text
underscores c =
    if ltb c 128
    then codes "_"
    else if ltb c 2048
    then codes "__"
    else if ltb c 65536
    then codes "___"
    else codes "____"

unfoldable pub allowed_or_underscore : Text → Text
unfolding is_pack_byte underscores
allowed_or_underscore [] = []
allowed_or_underscore (c ∷ s) =
    let rest = allowed_or_underscore s in if is_pack_byte c then c ∷ rest else underscores c ++ rest

-- `replace("__", "_")`, from the left.
unfoldable pub replace_pairs : Text → Text
replace_pairs [] = []
replace_pairs (c ∷ []) = c ∷ []
replace_pairs (c ∷ d ∷ s) =
    let behind = replace_pairs s in
    let here = replace_pairs (d ∷ s) in
    if c == b'_' then (if d == b'_' then b'_' ∷ behind else c ∷ here) else c ∷ here

-- `while out.contains("__")`, on fuel.
unfoldable pub single_underscores : ℕ → Text → Text
unfolding replace_pairs
single_underscores zero s = s
single_underscores (suc fuel) s =
    let rest = single_underscores fuel (replace_pairs s) in
    if has_text s (codes "__") then rest else s

abbrev is_edge : ℕ → Bool
is_edge c = c == b'_' || c == b' '

unfoldable pub trim_front : Text → Text
trim_front [] = []
trim_front (c ∷ s) = let rest = trim_front s in if is_edge c then rest else c ∷ s

unfoldable pub trim_back : Text → Text
trim_back [] = []
trim_back (c ∷ s) = keep_unless c (is_edge c) (trim_back s)

abbrev or_pack : Text → Text
or_pack [] = codes "pack"
or_pack (c ∷ s) = c ∷ s

unfoldable pub sanitize_pack_filename : Text → Option Text
unfolding strip_codes allowed_or_underscore single_underscores trim_front trim_back
sanitize_pack_filename s =
    if not (ends_with (to_ascii_lowercase s) (codes ".zip"))
    then none
    else if is_traversal s
    then none
    else let dotted = allowed_or_underscore (strip_codes (stem_of s)) in
      let out = trim_start b'.' dotted in
      let single = single_underscores (length out) out in
      some (or_pack (trim_back (trim_front single)) ++ codes ".zip")
