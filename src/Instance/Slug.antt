-- ===== src/Instance/Slug.antt =====
-- src/instance/slug.rs: the name of an instance's directory. The Unicode tables behind
-- `str::to_lowercase` and `char::is_whitespace`, and the directory, are parameters.
pub mod Shape
pub mod Unique
pub mod Fixed
use ichr.Base.{
  ℕ, zero, suc, ◌+◌, ◌/◌, ◌%◌, Bool, true, false, ◌||◌, List, [], ◌∷◌, ◌++◌, map, Text, codes,
  filter, take, trim_end, trim_start, is_alphanumeric, ◌==◌, ltb, if◌then◌else◌,
}

pub record Unicode : Type 0 where
  pub to_lowercase : Text → Text
  pub is_whitespace : ℕ → Bool

abbrev pub max_slug_len : ℕ
max_slug_len = 40

unfoldable pub is_kept : ℕ → Bool
is_kept c = is_alphanumeric c || c == b'-'

-- The loop over the characters; `prev_dash` is its variable.
unfoldable pub collapse : Bool → Text → Text
collapse prev_dash [] = []
collapse prev_dash (c ∷ s) =
    let behind_dash = collapse true s in
    let behind_other = collapse false s in
    if c == b'-' then (if prev_dash then behind_dash else c ∷ behind_dash) else c ∷ behind_other

-- `trim_matches('-')`
unfoldable pub trim_dashes : Text → Text
trim_dashes s = trim_end b'-' (trim_start b'-' s)

abbrev or_instance : Text → Text
or_instance [] = codes "instance"
or_instance (c ∷ s) = c ∷ s

unfoldable pub slugify : Unicode → Text → Text
unfolding is_kept collapse trim_dashes
slugify u display_name =
    let lower = u.to_lowercase display_name in
    let whitespace_replaced = map (λ c. if u.is_whitespace c then b'-' else c) lower in
    let stripped = filter is_kept whitespace_replaced in
    let trimmed = trim_dashes (collapse false stripped) in or_instance (take max_slug_len trimmed)

-- A number in decimal digits, on fuel: `n` is at least its count of digits.
unfoldable pub decimal_from : ℕ → ℕ → Text
decimal_from zero n = []
decimal_from (suc fuel) n =
    let high = decimal_from fuel (n / 10) in
    if ltb n 10 then (b'0' + n) ∷ [] else high ++ (b'0' + n % 10) ∷ []

abbrev pub decimal : ℕ → Text
decimal n = decimal_from (suc n) n

abbrev pub candidate : Text → ℕ → Text
candidate base n = base ++ b'-' ∷ decimal n

-- `exists` is the directory: `try_exists(instances_dir.join(name)).unwrap_or(false)`.
-- The loop from `n`, on fuel.
unfoldable pub unique_from : (Text → Bool) → Text → ℕ → ℕ → Text
unique_from exists base zero n = candidate base n
unique_from exists base (suc fuel) n =
    let rest = unique_from exists base fuel (n + 1) in
    if exists (candidate base n)
    then (if ltb 9999 (n + 1) then candidate base (n + 1) else rest)
    else candidate base n

unfoldable pub unique_slug : (Text → Bool) → Text → Text
unfolding unique_from
unique_slug exists base = if exists base then unique_from exists base 9998 2 else base
