-- ===== src/Maven/Metadata.antt =====
-- internal/format/maven/handler.go: the document maven-metadata.xml of an artifact.
pub mod Versions
use packrune.Prelude.{
  ℕ, Bool, Option, none, some, List, [], ◌∷◌, ◌++◌, Bytes, codes, nat_eq, trim_prefix, cut,
  sort_strings, if◌then◌else◌, is_seen,
}
use packrune.Repo.Tables.{Artifact}
use packrune.Maven.Path.{Coordinates}

-- metadata, with the fields of metadataVersioning
pub record Metadata : Type 0 where
  pub group_id : Bytes
  pub artifact_id : Bytes
  pub latest : Bytes
  pub release : Bytes
  pub versions : List Bytes
  pub last_updated : Bytes

-- verSet[rest[:i]] = true where i > 0: a set is a list that names nothing twice.
abbrev add_version : Option (Bytes × Bytes) → List Bytes → List Bytes
add_version none vs = vs
add_version (some ([], file)) vs = vs
add_version (some (c ∷ v, file)) vs = if is_seen (c ∷ v) vs then vs else (c ∷ v) ∷ vs

unfoldable pub version_set : Bytes → List Artifact → List Bytes
version_set prefix [] = []
version_set prefix (a ∷ arts) =
    add_version (cut (trim_prefix a.path prefix) (codes "/")) (version_set prefix arts)

-- versions[len(versions)-1] of versions that are there
unfoldable pub last_version : Bytes → List Bytes → Bytes
last_version v [] = v
last_version v (x ∷ vs) = last_version x vs

-- strings.ReplaceAll(groupPath, "/", ".")
unfoldable pub dotted : Bytes → Bytes
dotted [] = []
dotted (c ∷ s) = (if nat_eq c b'/' then b'.' else c) ∷ dotted s

abbrev metadata_of : Coordinates → Bytes → List Bytes → Option Metadata
metadata_of c now [] = none
metadata_of c now (v ∷ vs) = some (record {
  group_id = dotted c.group_path;
  artifact_id = c.artifact_id;
  latest = last_version v vs;
  release = last_version v vs;
  versions = v ∷ vs;
  last_updated = now;
})

-- The document for the artifacts under a prefix, if they name a version.
unfoldable pub metadata_for : Coordinates → Bytes → Bytes → List Artifact → Option Metadata
metadata_for c now prefix arts = metadata_of c now (sort_strings (version_set prefix arts))
