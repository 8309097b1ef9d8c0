-- ===== src/Examples/Sweeps.antt =====
-- The theorem on garbage collection at a concrete input.
use packrune.Prelude.{◌≡◌, refl, false, none, some, [], ◌∷◌, Bytes, codes, ◌==◌}
use packrune.Storage.Disk.{Disk}
use packrune.Storage.Fs.Objects.{object, IsKey, key_path, no_faults}
use packrune.Storage.Cas.{key_for, digest_of}
use packrune.Storage.Cas.Keys.{IsDigest, digest_of-IsDigest}
use packrune.Repo.Tables.{Artifact, Db}
use packrune.Repo.Store.{find_artifact}
use packrune.Gc.{run_gc}
use packrune.Gc.Safety.{run_gc-blob}
use packrune.Gc.Files.{IsClean, fs-IsListing}
use packrune.Examples.Instances.{sha256, sha256-IsHash, temp_name, root, fs, fs_laws, digest_key}

abbrev kept : Bytes
kept = digest_of sha256 (codes "kept")

abbrev orphan : Bytes
orphan = digest_of sha256 (codes "orphaned")

-- The first removal fails.
abbrev disk : Disk
disk = record {
  files =
      (key_path root (key_for kept), codes "kept")
      ∷ (key_path root (key_for orphan), codes "orphaned")
      ∷ [];
  faults = none ∷ none ∷ none ∷ some 0 ∷ [];
}

abbrev row : Artifact
row = record {
  id = codes "1";
  repo_id = codes "h";
  path = codes "refs/a";
  digest = kept;
  size = 4;
  media_type = [];
  metadata = codes "{}";
  created_at = 1;
}

abbrev db : Db
db = record { repositories = []; artifacts = row ∷ []; faults = [] }

row_found : find_artifact (codes "h") (codes "refs/a") db.artifacts ≡ some row
unfolding find_artifact ◌==◌
row_found = refl

kept-IsDigest : IsDigest kept
kept-IsDigest = digest_of-IsDigest sha256-IsHash (codes "kept")

disk-IsClean : IsClean root disk
disk-IsClean = (
  record { key = key_for kept; spelled = refl; named = digest_key kept kept-IsDigest },
  (
    record {
      key = key_for orphan;
      spelled = refl;
      named = digest_key orphan (digest_of-IsDigest sha256-IsHash (codes "orphaned"));
    },
    tt,
  ),
)

run_gc-blob_example :
    object root (run_gc fs false 5 db disk).1 (key_for kept) ≡ object root disk (key_for kept)
run_gc-blob_example =
    run_gc-blob fs (object root) (IsKey root) no_faults fs_laws digest_key (IsClean root)
      (fs-IsListing temp_name root) false 5 (codes "h") (codes "refs/a") row db disk row_found
      kept-IsDigest disk-IsClean
