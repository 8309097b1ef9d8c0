-- ===== src/Docker/Proxy.antt =====
-- internal/format/docker/proxy.go: what a proxy repository fetches from its upstream, with the
-- configuration of handler.go.
pub mod Mismatch
use packrune.Prelude.{
  ℕ, ◌+◌, Bool, List, [], ◌∷◌, ◌++◌, Bytes, codes, length, ◌==◌, leb, if◌then◌else◌, has_prefix,
}
use packrune.Action.{
  ◌>>=◌, ◌>>◌, digest_mismatch, io, Result, ok, err, Action, pure, raise, attempt,
}
use packrune.Storage.{Backend}
use packrune.Storage.Cas
use packrune.Repo.Tables.{Engine, kind_proxy}
use packrune.Repo.Store.{upsert_artifact}
use packrune.Docker.Route.{manifest}
use packrune.Docker.World.{World, on_storage, on_db, Env}
use packrune.Docker.Upload.{octet_stream}

-- What an upstream answers: a response of net/http.
pub record Upstream : Type 0 where
  pub status : ℕ
  pub body : Bytes
  pub body_fails : Bool
  pub content_type : Bytes
  pub content_digest : Bytes

-- What a handler is configured with. `fetch` is the HTTP client at the configured upstream,
-- `members` and `json_valid` are of encoding/json.
pub record Handler : Type 0 where
  pub repo_id : Bytes
  pub repo_kind : Bytes
  pub upload_root : Bytes
  pub upstream : Bytes
  pub fetch : Bytes → Result Upstream
  pub members : Bytes → List Bytes
  pub json_valid : Bytes → Bool
  pub engine : Engine

unfoldable pub manifest_path : Bytes → Bytes → Bytes
manifest_path name reference = codes "refs/" ++ (name ++ (codes "/manifests/" ++ reference))

unfoldable pub blob_path : Bytes → Bytes → Bytes
blob_path name digest = codes "refs/" ++ (name ++ (codes "/blobs/" ++ digest))

abbrev pub or_default : Bytes → Bytes → Bytes
or_default [] d = d
or_default (c ∷ s) d = c ∷ s

abbrev pub manifest_type : Bytes
manifest_type = codes "application/vnd.oci.image.manifest.v1+json"

abbrev ok_status : Upstream → Result Upstream
ok_status u = if leb 400 u.status then err io else ok u

abbrev read_body : Upstream → Result Bytes
read_body u = if u.body_fails then err io else ok u.body

module _ {S : Type 0} (sha256 : Bytes → Bytes) (b : Backend S) (h : Handler) (env : Env) where
  abbrev pub lift : {A : Type 0} → Result A → Action (World S) A
  lift r w = (r, w)

  abbrev fetched : Result Upstream → Result Upstream
  fetched (ok u) = ok_status u
  fetched (err e) = err e

  -- proxyFetch
  unfoldable pub proxy_fetch : Bytes → Action (World S) Upstream
  proxy_fetch url_path w = if h.upstream == [] then (err io, w) else (fetched (h.fetch url_path), w)

  abbrev pub bind_row : Bytes → Bytes → Bytes → ℕ → Bytes → Action (World S) (Unit {0})
  bind_row row path digest size media_type =
      on_db (upsert_artifact row env.now h.repo_id path digest size media_type [])

  -- The content is kept if it has the digest that was asked for, and dropped from storage if not.
  abbrev keep_or_drop : Bytes → Bytes → Upstream → Bytes × ℕ → Action (World S) (ℕ × Bytes)
  keep_or_drop name digest u stored w =
      if stored.0 == digest
      then (do
        _ ← attempt (
            bind_row env.row_id (blob_path name digest) digest stored.1
              (or_default u.content_type octet_stream))
        pure (stored.1, or_default u.content_type octet_stream))
          w
      else (do _ ← attempt (on_storage (Cas.delete b stored.0)); raise digest_mismatch) w

  -- proxyFetchBlob
  unfoldable pub proxy_fetch_blob : Bytes → Bytes → Action (World S) (ℕ × Bytes)
  proxy_fetch_blob name digest = do
    u ← proxy_fetch (codes "/v2/" ++ (name ++ (codes "/blobs/" ++ digest)))
    body ← lift (read_body u)
    stored ← on_storage (Cas.put sha256 b env.nonce body)
    keep_or_drop name digest u stored

  abbrev pub bind_tag : Bytes → Bytes → Bytes → ℕ → Bytes → Action (World S) (Unit {0})
  bind_tag name reference digest size media_type w =
      if has_prefix reference (codes "sha256:")
      then (ok tt, w)
      else bind_row env.row_id (manifest_path name reference) digest size media_type w

  -- proxyFetchManifest
  unfoldable pub proxy_fetch_manifest : Bytes → Bytes → Action (World S) Bytes
  proxy_fetch_manifest name reference = do
    u ← proxy_fetch (codes "/v2/" ++ (name ++ (codes "/manifests/" ++ reference)))
    body ← lift (read_body u)
    let media_type = or_default u.content_type manifest_type
    stored ← on_storage (Cas.put sha256 b env.nonce body)
    let digest = or_default u.content_digest stored.0
    _ ← attempt (bind_tag name reference digest (length body) media_type)
    _ ←
        attempt
          (bind_row env.second_row_id (manifest_path name digest) digest (length body) media_type)
    pure digest

  abbrev pub is_proxy : Bool
  is_proxy = h.repo_kind == kind_proxy
