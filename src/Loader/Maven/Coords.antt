-- ===== src/Loader/Maven/Coords.antt =====
-- Parsing a coordinate, against its printed form.
use ichr.Base.{
  Bool, true, false, Option, none, some, List, [], ◌∷◌, ◌≡◌, refl, ap, subst, ◌≢◌, ◌≤◌, ◌∙◌, ◌↔◌,
  Text, has, join, all, All, length, splitn, splitn-join, join-splitn, ok, arith, inl, inr,
  Option-cases,
}
use ichr.Loader.Maven.{
  is_maven_byte, is_safe_maven_segment, is_safe_option, MavenCoord, coord_of_parts, check_segments,
  parse_maven_coord,
}

-- The segments of a coordinate, in order.
abbrev optional : Option Text → List Text → List Text
optional none rest = rest
optional (some s) rest = s ∷ rest

unfoldable pub segments : MavenCoord → List Text
segments mc =
    mc.group ∷ mc.artifact ∷ mc.version ∷ optional mc.classifier (optional mc.extension [])

unfoldable pub render : MavenCoord → Text
unfolding segments
render mc = join (b':' ∷ []) (segments mc)

-- An extension comes only behind a classifier.
abbrev pub behind : Option Text → Option Text → Bool
behind none (some e) = false
behind _ _ = true

pub record IsSafe (mc : MavenCoord) : Type 0 where
  pub group : is_safe_maven_segment mc.group ≡ true
  pub artifact : is_safe_maven_segment mc.artifact ≡ true
  pub version : is_safe_maven_segment mc.version ≡ true
  pub classifier : is_safe_option mc.classifier ≡ true
  pub extension : is_safe_option mc.extension ≡ true
  pub shape : behind mc.classifier mc.extension ≡ true

coord_of_parts-segments :
    (parts : List Text) (mc : MavenCoord)
    → coord_of_parts parts ≡ some mc
    → (segments mc ≡ parts) × (behind mc.classifier mc.extension ≡ true)
unfolding coord_of_parts segments
coord_of_parts-segments (g ∷ a ∷ v ∷ []) mc h = ground arith
coord_of_parts-segments (g ∷ a ∷ v ∷ c ∷ []) mc h = ground arith
coord_of_parts-segments (g ∷ a ∷ v ∷ c ∷ e ∷ []) mc h = ground arith
coord_of_parts-segments _ mc h = cc

segments-coord_of_parts :
    (mc : MavenCoord)
    → behind mc.classifier mc.extension ≡ true
    → coord_of_parts (segments mc) ≡ some mc
unfolding coord_of_parts segments
segments-coord_of_parts mc h = ground arith

check_segments-eq-ok :
    (coord : Text) (mc m : MavenCoord)
    → check_segments coord mc ≡ ok m
    → (m ≡ mc)
      × (is_safe_maven_segment mc.group ≡ true)
      × (is_safe_maven_segment mc.artifact ≡ true)
      × (is_safe_maven_segment mc.version ≡ true)
      × (is_safe_option mc.classifier ≡ true)
      × (is_safe_option mc.extension ≡ true)
unfolding check_segments
check_segments-eq-ok coord mc m h = ground arith

check_segments-IsSafe :
    (coord : Text) (mc : MavenCoord) → IsSafe mc → check_segments coord mc ≡ ok mc
unfolding check_segments
check_segments-IsSafe coord mc h = ground arith

-- A safe segment has no colon.
has-all : (s : Text) → all is_maven_byte s ≡ true → has b':' s ≡ false
unfolding has is_maven_byte
has-all [] h = refl
has-all (c ∷ s) h = ground (arith, has-all s)

has-is_safe_maven_segment : (s : Text) → is_safe_maven_segment s ≡ true → has b':' s ≡ false
unfolding is_safe_maven_segment
has-is_safe_maven_segment s h = ground (arith, has-all s)

segments-ne : (mc : MavenCoord) → segments mc ≢ []
unfolding segments
segments-ne mc = λ e. cc

length-segments : (mc : MavenCoord) → length (segments mc) ≤ 5
unfolding segments
length-segments mc = ground arith

optional-All :
    (o : Option Text) (rest : List Text)
    → is_safe_option o ≡ true
    → All (λ p. has b':' p ≡ false) rest
    → All (λ p. has b':' p ≡ false) (optional o rest)
optional-All none rest h a = a
optional-All (some s) rest h a = (has-is_safe_maven_segment s h, a)

segments-All : (mc : MavenCoord) → IsSafe mc → All (λ p. has b':' p ≡ false) (segments mc)
unfolding segments
segments-All mc h =
    let last =
      optional-All mc.classifier (optional mc.extension []) h.classifier
        (optional-All mc.extension [] h.extension tt) in
    (
      has-is_safe_maven_segment mc.group h.group,
      (
        has-is_safe_maven_segment mc.artifact h.artifact,
        (has-is_safe_maven_segment mc.version h.version, last),
      ),
    )

parse_sound :
    (coord : Text) (mc : MavenCoord)
    → parse_maven_coord coord ≡ ok mc
    → (render mc ≡ coord) × IsSafe mc
unfolding parse_maven_coord render
parse_sound coord mc h = elim (Option-cases (coord_of_parts (splitn b':' 4 coord))) [
  | inl e ↦ absurd (ground arith)
  | inr (m, e) ↦
      let c : check_segments coord m ≡ ok mc = ground arith in
      let (same, g, a, v, cl, ex) = check_segments-eq-ok coord m mc c in
      let (parts, shape) = coord_of_parts-segments (splitn b':' 4 coord) m e in
      (
        ap (λ x. join (b':' ∷ []) (segments x)) same
            ∙ ap (join (b':' ∷ [])) parts
            ∙ join-splitn b':' 4 coord,
        rw same (record {
          group = g;
          artifact = a;
          version = v;
          classifier = cl;
          extension = ex;
          shape = shape;
        }),
      )
]

parse_complete : (mc : MavenCoord) → IsSafe mc → parse_maven_coord (render mc) ≡ ok mc
unfolding parse_maven_coord render
parse_complete mc h =
    let parts =
      splitn-join b':' 4 (segments mc) (segments-All mc h) (segments-ne mc) (length-segments mc) in
    let coord : coord_of_parts (splitn b':' 4 (join (b':' ∷ []) (segments mc))) ≡ some mc =
      ap coord_of_parts parts ∙ segments-coord_of_parts mc h.shape in
    rw (coord, parse_maven_coord) (check_segments-IsSafe _ mc h)

-- A coordinate parses as `mc` exactly when it is the printed form of `mc`, every segment of which
-- is safe and whose extension, if any, stands behind a classifier.
pub parse_maven_coord_iff :
    (coord : Text) (mc : MavenCoord)
    → (parse_maven_coord coord ≡ ok mc) ↔ ((render mc ≡ coord) × IsSafe mc)
parse_maven_coord_iff coord mc = (
  parse_sound coord mc,
  λ (e, h). subst (λ c. parse_maven_coord c ≡ ok mc) e (parse_complete mc h),
)
