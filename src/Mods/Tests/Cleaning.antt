-- ===== src/Mods/Tests/Cleaning.antt =====
-- File names and dates of versions on small inputs.
use ichr.Base.{
  some, ◌≡◌, refl, false, codes, has_text, starts_with, ends_with, text_eq, has, take, trim_start,
}
use ichr.Mods.Filter.{is_traversal, is_safe_pack_filename, sanitize_pack_filename}
use ichr.Mods.Filter.Cleaned.{IsCleaned, sanitize_pack_filename-IsCleaned}

clean_brackets : sanitize_pack_filename (codes "[Border]  x.zip") ≡ some (codes "Border_  x.zip")
unfolding sanitize_pack_filename ends_with text_eq is_traversal has has_text trim_start take
clean_brackets = refl

-- The dot that the cleaning brings to the front is not stripped again.
clean_hidden : sanitize_pack_filename (codes "[.a.zip") ≡ some (codes ".a.zip")
unfolding sanitize_pack_filename ends_with text_eq is_traversal has has_text trim_start take
clean_hidden = refl

hidden_is_unsafe : is_safe_pack_filename (codes ".a.zip") ≡ false
unfolding is_safe_pack_filename ends_with text_eq starts_with
hidden_is_unsafe = refl

sanitize_pack_filename-IsCleaned_example : IsCleaned (codes ".a.zip")
sanitize_pack_filename-IsCleaned_example =
    sanitize_pack_filename-IsCleaned (codes "[.a.zip") (codes ".a.zip") clean_hidden
