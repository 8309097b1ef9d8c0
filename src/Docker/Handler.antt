-- ===== src/Docker/Handler.antt =====
-- internal/format/docker/blob.go and manifest.go: the request handlers.
pub mod Push
use packrune.Prelude.{
  ℕ, ◌+◌, ◌*◌, ◌^◌, Bool, true, false, not, [], ◌∷◌, ◌++◌, Bytes, codes, length, ◌==◌,
  if◌then◌else◌,
}
use packrune.Action.{◌>>=◌, ◌>>◌, Error, not_found, Result, ok, err, Action, attempt}
use packrune.Storage.{Backend}
use packrune.Storage.Disk.{take}
use packrune.Storage.Cas
use packrune.Storage.Cas.{digest_of}
use packrune.Repo.Tables.{Artifact}
use packrune.Repo.Store.{get_artifact, delete_artifact}
use packrune.Repo.Resolve.{resolve_artifact}
use packrune.Docker.Route.{validate_name, looks_like_digest}
use packrune.Docker.World.{
  World, on_storage, on_db, ErrorCode, name_invalid, digest_invalid, blob_unknown, manifest_unknown,
  manifest_invalid, unsupported, text, number, Body, empty, content, Response, write_error, Request,
  Env, checked,
}
use packrune.Docker.Upload.{reply, fail, octet_stream}
use packrune.Docker.Proxy.{
  Handler, manifest_path, blob_path, or_default, manifest_type, bind_row, bind_tag, is_proxy,
  proxy_fetch_blob, proxy_fetch_manifest,
}

abbrev pub answer : ℕ → Bytes → Bytes → ℕ → Body → Response
answer status media_type digest size body = record {
  status = status;
  headers =
      (codes "Content-Length", number size)
      ∷ (codes "Content-Type", text media_type)
      ∷ (codes "Docker-Content-Digest", text digest)
      ∷ [];
  body = body;
}

-- The cap on a manifest's size, 4 MiB.
abbrev pub manifest_limit : ℕ
manifest_limit = 4 * 2 ^ 20

abbrev pub manifest_created : Bytes → Bytes → Response
manifest_created name digest = record {
  status = 201;
  headers =
      (codes "Docker-Content-Digest", text digest)
      ∷ (codes "Location", text (codes "/v2/" ++ (name ++ (codes "/manifests/" ++ digest))))
      ∷ [];
  body = empty;
}

module _ {S : Type 0} (sha256 : Bytes → Bytes) (b : Backend S) (h : Handler) (env : Env) where
  abbrev missing : ℕ → ErrorCode → Error → Action (World S) Response
  missing status code e w = elim e [
    | not_found ↦ reply (write_error status code) w
    | f ↦ reply (write_error 500 unsupported) w
  ]

  abbrev head_fetched : Bytes → Result (ℕ × Bytes) → Action (World S) Response
  head_fetched digest (ok r) w = reply (answer 200 r.1 digest r.0 empty) w
  head_fetched digest (err e) w = reply (write_error 404 blob_unknown) w

  abbrev head_missing : Bytes → Bytes → Error → Action (World S) Response
  head_missing name digest e w = elim e [
    | not_found ↦
        if is_proxy sha256 b h env
        then (do r ← attempt (proxy_fetch_blob sha256 b h env name digest); head_fetched digest r) w
        else reply (write_error 404 blob_unknown) w
    | f ↦ reply (write_error 500 unsupported) w
  ]

  abbrev head_blob : Bytes → Bytes → Action (World S) Response
  head_blob name digest =
      checked (on_storage (Cas.stat b digest)) (head_missing name digest)
        λ size. reply (answer 200 octet_stream digest size empty)

  abbrev retried : Bytes → Result (ℕ × Bytes) → Action (World S) Bytes
  retried digest (ok r) w = on_storage (Cas.get b digest) w
  retried digest (err e) w = (err not_found, w)

  abbrev or_upstream : Bytes → Bytes → Result Bytes → Action (World S) Bytes
  or_upstream name digest (ok c) w = (ok c, w)
  or_upstream name digest (err e) w = elim e [
    | not_found ↦
        if is_proxy sha256 b h env
        then (do r ← attempt (proxy_fetch_blob sha256 b h env name digest); retried digest r) w
        else (err not_found, w)
    | f ↦ (err f, w)
  ]

  abbrev fetch_blob : Bytes → Bytes → Action (World S) Bytes
  fetch_blob name digest = do r ← attempt (on_storage (Cas.get b digest)); or_upstream name digest r

  abbrev get_blob : Bytes → Bytes → Action (World S) Response
  get_blob name digest =
      checked (fetch_blob name digest) (missing 404 blob_unknown)
        λ c. reply (answer 200 octet_stream digest (length c) (content c))

  abbrev accepted : Response
  accepted = record { status = 202; headers = []; body = empty }

  abbrev delete_blob : Bytes → Bytes → Action (World S) Response
  delete_blob name digest = do
    _ ← attempt (on_db (delete_artifact h.repo_id (blob_path name digest)))
    reply accepted

  -- handleBlob
  unfoldable pub handle_blob : Request → Bytes → Bytes → Action (World S) Response
  handle_blob req name digest w =
      if not (validate_name name)
      then reply (write_error 400 name_invalid) w
      else if not (looks_like_digest digest)
      then reply (write_error 400 digest_invalid) w
      else if req.method == codes "HEAD"
      then head_blob name digest w
      else if req.method == codes "GET"
      then get_blob name digest w
      else if req.method == codes "DELETE"
      then delete_blob name digest w
      else reply (write_error 405 unsupported) w

  abbrev relookup : Bytes → Result Bytes → Action (World S) Artifact
  relookup path (ok d) w = on_db (get_artifact h.repo_id path) w
  relookup path (err e) w = (err not_found, w)

  abbrev or_fetched : Bytes → Bytes → Result Artifact → Action (World S) Artifact
  or_fetched name reference (ok a) w = (ok a, w)
  or_fetched name reference (err e) w = elim e [
    | not_found ↦
        if is_proxy sha256 b h env
        then (do
          r ← attempt (proxy_fetch_manifest sha256 b h env name reference)
          relookup (manifest_path name reference) r)
            w
        else (err not_found, w)
    | f ↦ (err f, w)
  ]

  abbrev find_manifest : Bytes → Bytes → Action (World S) Artifact
  find_manifest name reference = do
    r ← attempt (on_db (resolve_artifact h.members h.repo_id (manifest_path name reference)))
    or_fetched name reference r

  abbrev body_unless : Bool → Bytes → Body
  body_unless true c = empty
  body_unless false c = content c

  -- serveManifest
  unfoldable pub serve_manifest : Bytes → Bytes → Bool → Action (World S) Response
  serve_manifest name reference head_only =
      checked (find_manifest name reference) (missing 404 manifest_unknown) λ art.
        checked (on_storage (Cas.get b art.digest)) (missing 404 manifest_unknown) λ c. reply (
          answer 200 (or_default art.media_type manifest_type) art.digest (length c)
            (body_unless head_only c))

  unfoldable pub store_manifest : Bytes → Bytes → Bytes → Bytes → Action (World S) Response
  store_manifest name reference content_type body =
      let digest = digest_of sha256 body in
      let media_type = or_default content_type manifest_type in
      checked (on_storage (Cas.put sha256 b env.nonce body)) (fail 500 unsupported) λ stored.
        checked (bind_tag sha256 b h env name reference digest (length body) media_type)
          (fail 500 unsupported)
          λ u.
            checked
              (bind_row sha256 b h env env.second_row_id (manifest_path name digest) digest
                (length body) media_type)
              (fail 500 unsupported) λ v. reply (manifest_created name digest)

  -- uploadManifest
  unfoldable pub upload_manifest : Request → Bytes → Bytes → Action (World S) Response
  upload_manifest req name reference w =
      if req.body_fails
      then reply (write_error 400 manifest_invalid) w
      else if not (h.json_valid (take manifest_limit req.body))
      then reply (write_error 400 manifest_invalid) w
      else store_manifest name reference req.content_type (take manifest_limit req.body) w

  -- deleteManifest
  unfoldable pub delete_manifest : Bytes → Bytes → Action (World S) Response
  delete_manifest name reference =
      checked (on_db (delete_artifact h.repo_id (manifest_path name reference)))
        (fail 500 unsupported) λ u. reply accepted

  -- handleManifest
  unfoldable pub handle_manifest : Request → Bytes → Bytes → Action (World S) Response
  handle_manifest req name reference w =
      if not (validate_name name)
      then reply (write_error 400 name_invalid) w
      else if req.method == codes "HEAD"
      then serve_manifest name reference true w
      else if req.method == codes "GET"
      then serve_manifest name reference false w
      else if req.method == codes "PUT"
      then upload_manifest req name reference w
      else if req.method == codes "DELETE"
      then delete_manifest name reference w
      else reply (write_error 405 unsupported) w
