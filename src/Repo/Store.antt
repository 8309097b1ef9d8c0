-- ===== src/Repo/Store.antt =====
-- internal/repo/store.go: the operations of `Store`, each SQL statement as a function of the tables.
use packrune.Prelude.{
  ℕ, Bool, true, false, not, ◌&&◌, ◌||◌, Option, none, some, List, [], ◌∷◌, ◌++◌, Bytes, codes,
  ◌==◌, if◌then◌else◌,
}
use packrune.Action.{not_found, bad_name, bad_kind, io, Result, ok, err, Action, ◌>>=◌, attempt}
use packrune.Repo.Tables.{
  Repository, Artifact, Db, Engine, valid_kind, validate_name, fault, after_call, query,
}

unfoldable pub find_repository : (Repository → Bool) → List Repository → Option Repository
find_repository p [] = none
find_repository p (r ∷ rs) = if p r then some r else find_repository p rs

unfoldable pub find_artifact : Bytes → Bytes → List Artifact → Option Artifact
find_artifact repo path [] = none
find_artifact repo path (a ∷ rows) =
    if a.repo_id == repo && a.path == path then some a else find_artifact repo path rows

abbrev pub row {ℓ} : {A : Type ℓ} → Option A → Result A
row none = err not_found
row (some a) = ok a

abbrev pub has_name : Bytes → Bytes → Repository → Bool
has_name name format r = r.name == name && r.format == format

-- Get
unfoldable pub get : Bytes → Bytes → Action Db Repository
get name format = query (λ db. row (find_repository (has_name name format) db.repositories))

-- GetByID
unfoldable pub get_by_id : Bytes → Action Db Repository
get_by_id id = query (λ db. row (find_repository (λ r. r.id == id) db.repositories))

abbrev is_some : {A : Type 0} → Option A → Bool
is_some none = false
is_some (some a) = true

abbrev pub default_config : Bytes → Bytes
default_config [] = codes "{}"
default_config (c ∷ config) = c ∷ config

-- INSERT INTO repositories, with the table's primary key and its UNIQUE (name, format).
unfoldable pub insert_repository : Repository → Action Db Repository
insert_repository r db =
    if fault db
    then (err io, after_call db)
    else if is_some
        (find_repository (λ q. q.id == r.id || has_name r.name r.format q) db.repositories)
    then (err io, after_call db)
    else (ok r, record (after_call db) { repositories = r ∷ db.repositories })

-- Create; `id` is what uuid.NewString and `now` what time.Now deliver.
unfoldable pub create : Bytes → ℕ → Bytes → Bytes → Bytes → Bytes → Action Db Repository
create id now name format kind config db =
    if not (validate_name name)
    then (err bad_name, db)
    else if not (valid_kind kind)
    then (err bad_kind, db)
    else insert_repository
        (record {
          id = id;
          name = name;
          format = format;
          kind = kind;
          config = default_config config;
          created_at = now;
          updated_at = now;
        })
        db

abbrev or_create : Action Db Repository → Result Repository → Action Db Repository
or_create make (ok r) db = (ok r, db)
or_create make (err e) db = elim e [ not_found ↦ make db | f ↦ (err f, db) ]

-- Ensure
unfoldable pub ensure : Bytes → ℕ → Bytes → Bytes → Bytes → Bytes → Action Db Repository
ensure id now name format kind config = do
  found ← attempt (get name format)
  or_create (create id now name format kind config) found

-- List
unfoldable pub list : Engine → Action Db (List Repository)
list engine = query (λ db. ok (engine.order_by_name db.repositories))

-- What ON CONFLICT (repo_id, path) DO UPDATE keeps of the old row.
abbrev updated : Artifact → Artifact → Artifact
updated old new = record old {
  digest = new.digest;
  size = new.size;
  media_type = new.media_type;
  metadata = new.metadata;
}

unfoldable pub upsert : Artifact → List Artifact → List Artifact
upsert a [] = a ∷ []
upsert a (r ∷ rows) =
    let rest = upsert a rows in
    if r.repo_id == a.repo_id && r.path == a.path then updated r a ∷ rows else r ∷ rest

abbrev pub default_metadata : Bytes → Bytes
default_metadata [] = codes "{}"
default_metadata (c ∷ m) = c ∷ m

abbrev pub new_row : Bytes → ℕ → Bytes → Bytes → Bytes → ℕ → Bytes → Bytes → Artifact
new_row i now repo p d n m meta = record {
  id = i;
  repo_id = repo;
  path = p;
  digest = d;
  size = n;
  media_type = m;
  metadata = default_metadata meta;
  created_at = now;
}

-- UpsertArtifact
unfoldable pub upsert_artifact :
    Bytes → ℕ → Bytes → Bytes → Bytes → ℕ → Bytes → Bytes → Action Db (Unit {0})
upsert_artifact id now repo path digest size media_type metadata db =
    if fault db then (err io, after_call db) else (
      ok tt,
      record (after_call db) {
        artifacts = upsert (new_row id now repo path digest size media_type metadata) db.artifacts;
      },
    )

-- GetArtifact
unfoldable pub get_artifact : Bytes → Bytes → Action Db Artifact
get_artifact repo path = query (λ db. row (find_artifact repo path db.artifacts))

unfoldable pub without : Bytes → Bytes → List Artifact → List Artifact
without repo path [] = []
without repo path (a ∷ rows) =
    let rest = without repo path rows in
    if a.repo_id == repo && a.path == path then rest else a ∷ rest

-- DeleteArtifact
unfoldable pub delete_artifact : Bytes → Bytes → Action Db (Unit {0})
delete_artifact repo path db =
    if fault db
    then (err io, after_call db)
    else (ok tt, record (after_call db) { artifacts = without repo path db.artifacts })

unfoldable pub matching : Engine → Bytes → Bytes → List Artifact → List Artifact
matching engine repo pattern [] = []
matching engine repo pattern (a ∷ rows) =
    let rest = matching engine repo pattern rows in
    if a.repo_id == repo && engine.like pattern a.path then a ∷ rest else rest

-- ListArtifactsByPrefix
unfoldable pub list_artifacts_by_prefix : Engine → Bytes → Bytes → Action Db (List Artifact)
list_artifacts_by_prefix engine repo prefix =
    query
      (λ db. ok (engine.order_by_path (matching engine repo (prefix ++ codes "%") db.artifacts)))
