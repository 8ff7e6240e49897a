-- ===== src/Instance/Tests.antt =====
-- Slugs of small names, with the ASCII part of the Unicode tables.
use ichr.Base.{
  ◌+◌, Bool, true, false, ◌⊎◌, [], ◌∷◌, map, ◌≡◌, refl, Text, codes, text_eq, contains, is_upper,
  has_text, starts_with, take, trim_end, trim_start, ◌==◌, ◌||◌, leb, ◌&&◌, if◌then◌else◌, arith,
}
use ichr.Instance.Slug.{Unicode, is_kept, collapse, slugify, unique_from, unique_slug, decimal_from}
use ichr.Instance.Slug.Shape.{IsSlug, slugify-IsSlug}
use ichr.Instance.Slug.Unique.{First, unique_slug-First}

abbrev ascii : Unicode
ascii = record {
  to_lowercase = map (λ c. if is_upper c then c + 32 else c);
  is_whitespace = λ c. c == b' ' || (leb 9 c && leb c 13);
}

abbrev name : Text
name = codes " --My  Modded_World! "

slug_name : slugify ascii name ≡ codes "my-moddedworld"
unfolding slugify collapse trim_end trim_start is_kept take
slug_name = refl

slug_symbols : slugify ascii (codes "!?") ≡ codes "instance"
unfolding slugify collapse trim_end trim_start is_kept take
slug_symbols = refl

-- Cut to forty characters, a slug may end in a dash.
slug_cut :
    slugify ascii (codes "aaaaaaaaaaaaaaaaaaaaaaaaaaaaaaaaaaaaaaa b")
    ≡ codes "aaaaaaaaaaaaaaaaaaaaaaaaaaaaaaaaaaaaaaa-"
unfolding slugify collapse trim_end trim_start is_kept take
slug_cut = refl

slugify-IsSlug_example : IsSlug (slugify ascii name)
slugify-IsSlug_example = slugify-IsSlug ascii name refl

world-IsSlug : IsSlug (codes "my-world")
unfolding has_text starts_with
world-IsSlug = record {
  chars = refl;
  good_dashes = refl;
  some_char = omega arith;
  short = omega arith;
}

abbrev taken : Text → Bool
taken = contains (codes "world" ∷ codes "world-2" ∷ [])

unique_world : unique_slug taken (codes "world") ≡ codes "world-3"
unfolding unique_slug unique_from contains text_eq decimal_from
unique_world = refl

unique_slug-First_example :
    (taken (codes "world") ≡ false) × (unique_slug taken (codes "world") ≡ codes "world")
    ⊎ (taken (codes "world") ≡ true)
      × First taken (codes "world") 2 (unique_slug taken (codes "world"))
unique_slug-First_example = unique_slug-First taken (codes "world")
