-- ===== src/Loader/Maven/Paths.antt =====
-- Where the path of a coordinate leads.
use ichr.Base.{
  true, false, Option, none, some, [], ◌∷◌, ◌++◌, map, ◌≡◌, refl, sym, ap, ap₂, ◌∙◌, ◌≢◌, subst,
  Text, codes, text_eq, text_eq_refl, ◌==◌, has, has-append, starts_with, all, All, All-map,
  All-append, split, split-append, split-none, split-All, trim_end, trim_end-append, Result, ok,
  arith, >>=-eq-ok,
}
use ichr.Loader.Error.{LoaderError}
use ichr.Loader.Maven.{
  is_maven_byte, is_safe_maven_segment, is_safe_option, MavenCoord, parse_maven_coord,
  slash_for_dot, dashed, extension_or_jar, basename, coord_path, maven_coord_to_path,
  maven_download_url,
}
use ichr.Loader.Maven.Coords.{IsSafe, parse_maven_coord_iff}

-- A safe segment has no slash, is not empty and is not "..".
has-slash-all : (s : Text) → all is_maven_byte s ≡ true → has b'/' s ≡ false
unfolding has is_maven_byte
has-slash-all [] h = refl
has-slash-all (c ∷ s) h = ground (arith, has-slash-all s)

has-slash : (s : Text) → is_safe_maven_segment s ≡ true → has b'/' s ≡ false
unfolding is_safe_maven_segment
has-slash s h = ground (arith, has-slash-all s)

ne-dots : (s : Text) → is_safe_maven_segment s ≡ true → s ≢ codes ".."
unfolding is_safe_maven_segment
ne-dots s h = λ e.
    ground (arith, subst (λ x. text_eq x (codes "..") ≡ true) (sym e) (text_eq_refl (codes "..")))

-- The group's dots have become slashes.
map-slash_for_dot-All : (g : Text) → All (λ c. (c == b'.') ≡ false) (map slash_for_dot g)
map-slash_for_dot-All [] = tt
map-slash_for_dot-All (c ∷ g) = (ground arith, map-slash_for_dot-All g)

ne-dots_of_All : (p : Text) → All (λ c. (c == b'.') ≡ false) p → p ≢ codes ".."
ne-dots_of_All [] h = λ e. cc
ne-dots_of_All (c ∷ p) h = λ e. ground arith

group-parts : (g : Text) → All (λ p. p ≢ codes "..") (split b'/' (map slash_for_dot g))
group-parts g =
    All-map (λ p h. ne-dots_of_All p h.0) (split b'/' (map slash_for_dot g))
      (split-All b'/' (λ c. (c == b'.') ≡ false) (map slash_for_dot g) (map-slash_for_dot-All g))

has-dashed : (o : Option Text) → is_safe_option o ≡ true → has b'/' (dashed o) ≡ false
unfolding has
has-dashed none h = refl
has-dashed (some s) h = has-slash s h

has-extension_or_jar :
    (o : Option Text) → is_safe_option o ≡ true → has b'/' (extension_or_jar o) ≡ false
unfolding has
has-extension_or_jar none h = refl
has-extension_or_jar (some s) h = has-slash s h

has-basename : (mc : MavenCoord) → IsSafe mc → has b'/' (basename mc) ≡ false
unfolding basename has
has-basename mc h =
    let file = b'.' ∷ extension_or_jar mc.extension in
    ground (
      arith,
      has-append b'/' mc.artifact (b'-' ∷ (mc.version ++ (dashed mc.classifier ++ file))),
      has-append b'/' mc.version (dashed mc.classifier ++ file),
      has-append b'/' (dashed mc.classifier) file,
      has-slash mc.artifact h.artifact,
      has-slash mc.version h.version,
      has-dashed mc.classifier h.classifier,
      has-extension_or_jar mc.extension h.extension,
    )

-- The dash in the file name tells it from "..".
ne-dots-basename : (mc : MavenCoord) → basename mc ≢ codes ".."
unfolding basename has
ne-dots-basename mc e = ground (
  arith,
  ap (has b'-') e,
  has-append b'-' mc.artifact
      (b'-' ∷ (mc.version ++ (dashed mc.classifier ++ (b'.' ∷ extension_or_jar mc.extension)))),
)

coord_path-parts :
    (mc : MavenCoord)
    → IsSafe mc
    → split b'/' (coord_path mc)
      ≡ split b'/' (map slash_for_dot mc.group) ++ mc.artifact ∷ mc.version ∷ basename mc ∷ []
unfolding coord_path
coord_path-parts mc h =
    split-append b'/' (map slash_for_dot mc.group)
      (mc.artifact ++ (b'/' ∷ (mc.version ++ (b'/' ∷ basename mc))))
    ∙ ap (λ x. split b'/' (map slash_for_dot mc.group) ++ x)
        (split-append b'/' mc.artifact (mc.version ++ (b'/' ∷ basename mc))
          ∙ ap₂ ◌++◌ (split-none b'/' mc.artifact (has-slash mc.artifact h.artifact)) (
              split-append b'/' mc.version (basename mc)
              ∙ ap₂ ◌++◌ (split-none b'/' mc.version (has-slash mc.version h.version))
                  (split-none b'/' (basename mc) (has-basename mc h))))

coord_path-All :
    (mc : MavenCoord) → IsSafe mc → All (λ p. p ≢ codes "..") (split b'/' (coord_path mc))
coord_path-All mc h = rw (coord_path-parts mc h) (
    All-append (λ p. p ≢ codes "..") (split b'/' (map slash_for_dot mc.group))
      (mc.artifact ∷ mc.version ∷ basename mc ∷ []) (group-parts mc.group)
      (ne-dots mc.artifact h.artifact, (ne-dots mc.version h.version, (ne-dots-basename mc, tt))))

starts_with-map :
    (g s : Text)
    → is_safe_maven_segment g ≡ true
    → starts_with (map slash_for_dot g ++ s) (codes "/") ≡ starts_with g (codes ".")
unfolding starts_with is_safe_maven_segment is_maven_byte
starts_with-map [] s h = cc
starts_with-map (c ∷ g) s h = ground arith

-- A coordinate that has a path parses, no component of the path is "..", and the path is absolute,
-- and so leaves the directory it is joined to, exactly where the group begins with a dot, which the
-- test of the segments lets through.
pub maven_coord_to_path-All :
    (coord path : Text)
    → maven_coord_to_path coord ≡ ok path
    → (mc : MavenCoord) × (parse_maven_coord coord ≡ ok mc)
      × All (λ p. p ≢ codes "..") (split b'/' path)
      × (starts_with path (codes "/") ≡ starts_with mc.group (codes "."))
unfolding maven_coord_to_path coord_path
maven_coord_to_path-All coord path h =
    let (mc, parsed, done) = >>=-eq-ok (parse_maven_coord coord) (λ mc. ok (coord_path mc)) h in
    let (same, safe) = (parse_maven_coord_iff coord mc).0 parsed in
    let e = path-eq done in
    (
      mc,
      parsed,
      subst (λ e. All (λ p. p ≢ codes "..") (split b'/' e)) e (coord_path-All mc safe),
      ap (λ p. starts_with p (codes "/")) (sym e) ∙ starts_with-map mc.group _ safe.group,
    )
  where
    path-eq : {a b : Text} → ◌≡◌ {A = Result LoaderError Text} (ok a) (ok b) → a ≡ b
    path-eq e = cc

-- A slash at the end of the repository's base changes nothing, and the path follows the base
-- without its trailing slashes.
pub maven_download_url-trim :
    (repo_base coord path : Text)
    → maven_coord_to_path coord ≡ ok path
    → (maven_download_url (repo_base ++ codes "/") coord ≡ maven_download_url repo_base coord)
      × (maven_download_url repo_base coord ≡ ok (trim_end b'/' repo_base ++ (b'/' ∷ path)))
unfolding maven_download_url
maven_download_url-trim repo_base coord path h = ground (arith, trim_end-append b'/' repo_base)
