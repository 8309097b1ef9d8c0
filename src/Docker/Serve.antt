-- ===== src/Docker/Serve.antt =====
-- internal/format/docker/handler.go and the listings of manifest.go: what ServeHTTP answers.
use packrune.Prelude.{
  not, Option, none, some, List, [], ◌∷◌, ◌++◌, Bytes, codes, ◌==◌, if◌then◌else◌, has_prefix,
  trim_prefix, cut_last, Split, is_seen,
}
use packrune.Action.{Action}
use packrune.Storage.{Backend}
use packrune.Repo.Tables.{Artifact}
use packrune.Repo.Listing.{resolve_artifacts_by_prefix}
use packrune.Docker.Route.{
  validate_name, ParsedRoute, unknown, version, catalog, tags_list, manifest, blob, upload_start,
  upload_session, parse_path,
}
use packrune.Docker.World.{
  World, on_db, name_invalid, unsupported, text, Body, version_object, tags, repositories, Response,
  write_error, Request, Env, checked,
}
use packrune.Docker.Upload.{reply, fail, handle_upload_start, handle_upload_session}
use packrune.Docker.Proxy.{Handler}
use packrune.Docker.Handler.{handle_blob, handle_manifest}

abbrev json_answer : Body → Response
json_answer body = record {
  status = 200;
  headers = (codes "Content-Type", text (codes "application/json")) ∷ [];
  body = body;
}

-- The rows that bind a digest are left out.
unfoldable pub tag_names : Bytes → List Artifact → List Bytes
tag_names prefix [] = []
tag_names prefix (a ∷ rows) =
    let rest = tag_names prefix rows in
    let reference = trim_prefix a.path prefix in
    if has_prefix reference (codes "sha256:") then rest else reference ∷ rest

abbrev before : Option Split → Option Split → Bytes → Bytes
before (some (x, y)) b s = x
before none (some (x, y)) s = x
before none none s = s

-- refs/<name>/(manifests|blobs)/<ref>
unfoldable pub image_name : Bytes → Bytes
image_name path =
    let s = trim_prefix path (codes "refs/") in
    before (cut_last s (codes "/manifests/")) (cut_last s (codes "/blobs/")) s

unfoldable pub image_names : List Bytes → List Artifact → List Bytes
image_names seen [] = []
image_names seen (a ∷ rows) =
    let s = image_name a.path in
    let without = image_names seen rows in
    let rest = image_names (s ∷ seen) rows in
    if not (s == []) then (if is_seen s seen then without else s ∷ rest) else without

module _ {S : Type 0} (sha256 : Bytes → Bytes) (b : Backend S) (h : Handler) (env : Env) where
  -- handleTagsList
  unfoldable pub handle_tags_list : Request → Bytes → Action (World S) Response
  handle_tags_list req name w =
      let prefix = codes "refs/" ++ (name ++ codes "/manifests/") in
      if not (req.method == codes "GET")
      then reply (write_error 405 unsupported) w
      else if not (validate_name name)
      then reply (write_error 400 name_invalid) w
      else checked (on_db (resolve_artifacts_by_prefix h.engine prefix h.members h.repo_id))
          (fail 500 unsupported) (λ rows. reply (json_answer (tags name (tag_names prefix rows)))) w

  -- handleCatalog
  unfoldable pub handle_catalog : Request → Action (World S) Response
  handle_catalog req w =
      if not (req.method == codes "GET")
      then reply (write_error 405 unsupported) w
      else checked
          (on_db (resolve_artifacts_by_prefix h.engine (codes "refs/") h.members h.repo_id))
          (fail 500 unsupported) (λ rows. reply (json_answer (repositories (image_names [] rows))))
          w

  abbrev api_version : Response → Response
  api_version r = record r {
    headers = (codes "Docker-Distribution-API-Version", text (codes "registry/2.0")) ∷ r.headers;
  }

  abbrev dispatch : Request → ParsedRoute → Action (World S) Response
  dispatch req p w = elim p.kind [
    | version ↦ reply (json_answer version_object) w
    | catalog ↦ handle_catalog req w
    | tags_list ↦ handle_tags_list req p.name w
    | manifest ↦ handle_manifest sha256 b h env req p.name p.reference w
    | blob ↦ handle_blob sha256 b h env req p.name p.reference w
    | upload_start ↦ handle_upload_start sha256 b h.repo_id env h.upload_root req p.name w
    | upload_session ↦ handle_upload_session sha256 b h.repo_id env req p.name p.reference w
    | unknown ↦ reply (write_error 404 unsupported) w
  ]

  -- ServeHTTP
  unfoldable pub serve : Request → Action (World S) Response
  serve req =
      checked (dispatch req (parse_path req.path)) (fail 500 unsupported)
        (λ r. reply (api_version r))
