-- ===== src/Repo/Rows.antt =====
-- The artifact rows: what the statements of `Store` do to them, at one (repo_id, path).
use packrune.Prelude.{
  ℕ, ◌≡◌, Bool, ◌&&◌, Option, none, some, List, [], ◌∷◌, arith, Bytes, ◌==◌, eq_iff, if◌then◌else◌,
}
use packrune.Action.{is_ok}
use packrune.Repo.Tables.{Artifact, Db}
use packrune.Repo.Store.{
  find_artifact, upsert, upsert_artifact, without, delete_artifact, default_metadata, new_row,
}

-- A row that is found is the row that was asked for.
pub find_artifact_sound :
    (repo path : Bytes) (rows : List Artifact) (a : Artifact)
    → find_artifact repo path rows ≡ some a
    → (a.repo_id ≡ repo) × (a.path ≡ path)
unfolding find_artifact
find_artifact_sound repo path [] a h = cc
find_artifact_sound repo path (r ∷ rows) a h =
    ground (arith, find_artifact_sound repo path rows a, eq_iff r.repo_id repo, eq_iff r.path path)

abbrev pub find_in : Db → Bytes → Bytes → Option Artifact
find_in db repo path = find_artifact repo path db.artifacts

-- What the client sees of a row: all but its id and its date.
pub record Content : Type 0 where
  pub digest : Bytes
  pub size : ℕ
  pub media_type : Bytes
  pub metadata : Bytes

abbrev content : Option Artifact → Option Content
content none = none
content (some a) =
    some (record {
      digest = a.digest;
      size = a.size;
      media_type = a.media_type;
      metadata = a.metadata;
    })

abbrev pub content_at : Db → Bytes → Bytes → Option Content
content_at db repo path = content (find_in db repo path)

abbrev pub same_row : Bytes → Bytes → Bytes → Bytes → Bool
same_row repo path repo' path' = repo == repo' && path == path'

find_artifact-upsert :
    (a : Artifact) (repo path : Bytes) (rows : List Artifact)
    → content (find_artifact repo path (upsert a rows)) ≡ (
        if same_row a.repo_id a.path repo path
        then content (some a)
        else content (find_artifact repo path rows))
unfolding find_artifact upsert
find_artifact-upsert a repo path [] = ground arith
find_artifact-upsert a repo path (r ∷ rows) = ground (
  arith,
  find_artifact-upsert a repo path rows,
  eq_iff r.repo_id a.repo_id,
  eq_iff r.path a.path,
  eq_iff r.repo_id repo,
  eq_iff r.path path,
  eq_iff a.repo_id repo,
  eq_iff a.path path,
)

find_artifact-without :
    (r p repo path : Bytes) (rows : List Artifact)
    → find_artifact repo path (without r p rows)
      ≡ (if same_row r p repo path then none else find_artifact repo path rows)
unfolding find_artifact without
find_artifact-without r p repo path [] = ground arith
find_artifact-without r p repo path (a ∷ rows) = ground (
  arith,
  find_artifact-without r p repo path rows,
  eq_iff a.repo_id r,
  eq_iff a.path p,
  eq_iff a.repo_id repo,
  eq_iff a.path path,
  eq_iff r repo,
  eq_iff p path,
)

-- UpsertArtifact binds its path to what it was given and leaves every other path of every
-- repository alone; when it fails it changes nothing.
pub upsert_artifact-content :
    (id : Bytes) (now : ℕ) (repo path digest : Bytes) (size : ℕ) (media_type metadata : Bytes)
    (repo' path' : Bytes) (db : Db)
    → let done = upsert_artifact id now repo path digest size media_type metadata db in
      content_at done.1 repo' path' ≡ (
        if is_ok done.0 && same_row repo path repo' path'
        then some (record {
          digest = digest;
          size = size;
          media_type = media_type;
          metadata = default_metadata metadata;
        })
        else content_at db repo' path')
unfolding upsert_artifact
upsert_artifact-content id now repo path digest size media_type metadata repo' path' db = ground (
  arith,
  find_artifact-upsert (new_row id now repo path digest size media_type metadata) repo' path'
      db.artifacts,
)

-- DeleteArtifact removes its path and no other one.
pub delete_artifact-row :
    (repo path repo' path' : Bytes) (db : Db)
    → find_in (delete_artifact repo path db).1 repo' path' ≡ (
        if is_ok (delete_artifact repo path db).0 && same_row repo path repo' path'
        then none
        else find_in db repo' path')
unfolding delete_artifact
delete_artifact-row repo path repo' path' db =
    ground (arith, find_artifact-without repo path repo' path' db.artifacts)
