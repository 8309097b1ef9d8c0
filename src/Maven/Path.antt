-- ===== src/Maven/Path.antt =====
-- internal/format/maven/handler.go: the paths of a Maven 2 repository.
pub mod Ends
pub mod Parts
use mathlib.Core.List.{reverse}
use packrune.Prelude.{
  ℕ, ◌≡◌, refl, Bool, true, false, ◌||◌, ◌&&◌, ◌≢◌, ◌⊎◌, inl, inr, Option, none, some, List, [],
  ◌∷◌, ◌++◌, append_assoc, arith, Bytes, codes, ◌==◌, nat_eq, has_suffix, cut_last, split,
  split-append, split_last, join, All, if◌then◌else◌,
}

-- What a path says of an artifact.
pub record Coordinates : Type 0 where
  pub group_path : Bytes
  pub artifact_id : Bytes
  pub version : Bytes

abbrev no_coordinates : Coordinates
no_coordinates = record { group_path = []; artifact_id = []; version = [] }

-- The parts of a path from the last one on.
abbrev pub coordinates : List Bytes → Coordinates
coordinates [] = no_coordinates
coordinates (file ∷ []) = no_coordinates
coordinates (file ∷ version ∷ []) = no_coordinates
coordinates (file ∷ version ∷ artifact ∷ []) = no_coordinates
coordinates (file ∷ version ∷ artifact ∷ g ∷ gs) = record {
  group_path = join (reverse (g ∷ gs)) b'/';
  artifact_id = artifact;
  version = version;
}

-- splitArtifactPath
unfoldable pub split_artifact_path : Bytes → Coordinates
split_artifact_path p = coordinates (reverse (split p b'/'))

-- The slashes at the end go, from the last byte on.
abbrev keep_unless_slash : ℕ → Bytes → Bytes
keep_unless_slash c [] = if nat_eq c b'/' then [] else c ∷ []
keep_unless_slash c (d ∷ s) = c ∷ d ∷ s

unfoldable pub trim_slashes : Bytes → Bytes
trim_slashes [] = []
trim_slashes (c ∷ s) = keep_unless_slash c (trim_slashes s)

abbrev after_last_slash : Bytes → Option (Bytes × Bytes) → Bytes
after_last_slash s none = s
after_last_slash s (some (dir, file)) = file

abbrev or_slash : Bytes → Bytes
or_slash [] = codes "/"
or_slash (c ∷ s) = after_last_slash (c ∷ s) (cut_last (c ∷ s) (codes "/"))

-- path.Base
unfoldable pub base : Bytes → Bytes
base [] = codes "."
base (c ∷ s) = or_slash (trim_slashes (c ∷ s))

-- isPrimaryArtifact
unfoldable pub is_primary_artifact : Bytes → Bool
is_primary_artifact p =
    has_suffix (base p) (codes ".jar")
    || has_suffix (base p) (codes ".pom")
    || has_suffix (base p) (codes ".war")
    || has_suffix (base p) (codes ".aar")
    || has_suffix (base p) (codes ".module")

-- contentTypeFor
unfoldable pub content_type_for : Bytes → Bytes
content_type_for p =
    if has_suffix p (codes ".xml")
    then codes "application/xml"
    else if has_suffix p (codes ".pom")
    then codes "application/xml"
    else if has_suffix p (codes ".sha1")
        || has_suffix p (codes ".sha256")
        || has_suffix p (codes ".md5")
    then codes "text/plain"
    else if has_suffix p (codes ".jar")
        || has_suffix p (codes ".war")
        || has_suffix p (codes ".aar")
    then codes "application/java-archive"
    else codes "application/octet-stream"
