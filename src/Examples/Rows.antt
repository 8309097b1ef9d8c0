-- ===== src/Examples/Rows.antt =====
-- The theorems on repositories and their rows at concrete inputs.
use packrune.Prelude.{◌≡◌, refl, true, List, [], ◌∷◌, Bytes, codes, ◌==◌}
use packrune.Action.{ok}
use packrune.Repo.Tables.{Repository, Artifact, Db, Engine, kind_hosted, kind_group}
use packrune.Repo.Store.{row, matching}
use packrune.Repo.Resolve.{resolve_artifact, resolve_artifact-visible, visible}
use packrune.Repo.Listing.{resolve_artifacts_by_prefix, find_path, IsDistinct}
use packrune.Repo.Listing.Shadowing.{rows_of, all_rows, resolve_artifacts_by_prefix_lem}

abbrev repository : Bytes → Bytes → Bytes → Repository
repository id name kind = record {
  id = id;
  name = name;
  format = codes "docker";
  kind = kind;
  config = [];
  created_at = 1;
  updated_at = 1;
}

abbrev artifact : Bytes → Bytes → Bytes → Artifact
artifact repo path digest = record {
  id = codes "1";
  repo_id = repo;
  path = path;
  digest = digest;
  size = 3;
  media_type = codes "text/plain";
  metadata = codes "{}";
  created_at = 1;
}

abbrev tables : Db
tables = record {
  repositories =
      repository (codes "g") (codes "all") kind_group
      ∷ repository (codes "h") (codes "local") kind_hosted
      ∷ [];
  artifacts =
      artifact (codes "g") (codes "refs/a") (codes "d1")
      ∷ artifact (codes "h") (codes "refs/a") (codes "d2")
      ∷ artifact (codes "h") (codes "refs/b") (codes "d3")
      ∷ [];
  faults = [];
}

abbrev members : Bytes → List Bytes
members config = codes "missing" ∷ codes "local" ∷ []

abbrev every : Engine
every = record { like = λ pattern s. true; order_by_path = λ rows. rows; order_by_name = λ rs. rs }

resolve_artifact-visible_example :
    resolve_artifact members (codes "g") (codes "refs/b") tables
    ≡ (row (visible members tables (codes "g") (codes "refs/b")), tables)
resolve_artifact-visible_example =
    resolve_artifact-visible members (codes "g") (codes "refs/b") tables refl

own_IsDistinct : IsDistinct (rows_of every (codes "refs/") tables (codes "g"))
unfolding rows_of matching ◌==◌ find_path
own_IsDistinct = (refl, tt)

resolve_artifacts_by_prefix_example :
    (rows : List Artifact) × (resolve_artifacts_by_prefix every
        (codes "refs/")
        members
        (codes "g")
        tables
      ≡ (ok rows, tables))
    × IsDistinct rows
    × ((p : Bytes)
        → find_path p rows
          ≡ find_path p (all_rows every (codes "refs/") members tables (codes "g")))
resolve_artifacts_by_prefix_example =
    resolve_artifacts_by_prefix_lem every (codes "refs/") members (codes "g") tables refl
      own_IsDistinct
