-- ===== src/Npm/Handler.antt =====
-- internal/format/npm/handler.go and proxy.go: the requests of the registry.
pub mod Publish
use packrune.Prelude.{
  ℕ, zero, suc, ◌+◌, ◌*◌, ◌^◌, Bool, true, false, not, ◌&&◌, ◌||◌, Option, none, some, List, [],
  ◌∷◌, ◌++◌, Bytes, codes, length, ◌==◌, if◌then◌else◌,
}
use packrune.Action.{Error, not_found, io, Result, ok, err, Action}
use packrune.Storage.{Backend}
use packrune.Storage.Disk.{take}
use packrune.Storage.Cas
use packrune.Repo.Tables.{Db, Artifact, kind_proxy}
use packrune.Repo.Store.{get_artifact}
use packrune.Repo.Resolve.{resolve_artifact}
use packrune.Format.{World, Upstream, Request, Env, is_read, on_storage, on_db, store_at, fetch_at}
use packrune.Npm.Route.{
  RouteKind, unknown, root, ping, whoami, search, packument, version, tarball, ParsedRoute,
  parse_path,
}
use packrune.Npm.Packument.{
  Map, lookup, Attachment, Packument, named, Unmarshal, parse_packument, merge_into, marshal,
}

-- What a handler is configured with. `fetch` is the HTTP client at the configured upstream; `members`,
-- `unmarshal` and `print` are of encoding/json, `decode` of encoding/base64.
pub record Handler : Type 0 where
  pub repo_id : Bytes
  pub repo_kind : Bytes
  pub upstream : Bytes
  pub fetch : Bytes → Result Upstream
  pub members : Bytes → List Bytes
  pub unmarshal : Unmarshal
  pub print : Packument → Option Bytes
  pub decode : Bytes → Option Bytes

-- An answer: `sent` has the status 200, a type, the length and the entity tag if they are stated, and a
-- body; net/http drops the body of an answer to HEAD.
pub data Response : Type 0 where
  failed : ℕ → Response
  sent : Bytes → Option ℕ → Option Bytes → Option Bytes → Response
  created : Bytes → Response

abbrev pub json : Bytes
json = codes "application/json"

abbrev pub octet_stream : Bytes
octet_stream = codes "application/octet-stream"

unfoldable pub packument_path : Bytes → Bytes
packument_path pkg = codes "packuments/" ++ pkg

unfoldable pub tarball_path : Bytes → Bytes → Bytes
tarball_path pkg file = codes "tarballs/" ++ (pkg ++ (codes "/" ++ file))

abbrev body_for : Bytes → Bytes → Option Bytes
body_for method c = if method == codes "HEAD" then none else some c

abbrev pub document : Bytes → Bytes → Response
document method c = sent json (some (length c)) none (body_for method c)

-- The cap on a publish, 100 MiB.
abbrev pub max_publish : ℕ
max_publish = 100 * 2 ^ 20

-- handleRoot, handlePing, handleWhoami and handleSearch
abbrev fixed : Bytes → Response
fixed text = sent json none none (some text)

module _ {S : Type 0} (sha256 : Bytes → Bytes) (b : Backend S) (h : Handler) (envs : ℕ → Env) where
  -- proxyFetchPackument
  unfoldable pub proxy_fetch_packument : Bytes → Action (World S) Bytes
  proxy_fetch_packument pkg =
      fetch_at sha256 b (envs 0) h.upstream (h.fetch (codes "/" ++ pkg)) h.repo_id
        (packument_path pkg) json

  -- proxyFetchTarball
  unfoldable pub proxy_fetch_tarball : Bytes → Bytes → Action (World S) Bytes
  proxy_fetch_tarball pkg file =
      fetch_at sha256 b (envs 0) h.upstream (h.fetch (codes "/" ++ (pkg ++ (codes "/-/" ++ file))))
        h.repo_id (tarball_path pkg file) octet_stream

  abbrev send_document : Bytes → Result Bytes × World S → Response × World S
  send_document method (ok c, w) = (document method c, w)
  send_document method (err e, w) = elim e [ not_found ↦ (failed 404, w) | f ↦ (failed 500, w) ]

  abbrev document_or_missing : Bytes → Result Bytes × World S → Response × World S
  document_or_missing method (ok c, w) = (document method c, w)
  document_or_missing method (err e, w) = (failed 404, w)

  abbrev found_packument : Bytes → Bytes → Result Artifact × World S → Response × World S
  found_packument method pkg (ok a, w) = send_document method (on_storage (Cas.get b a.digest) w)
  found_packument method pkg (err e, w) = elim e [
    | not_found ↦
        if h.repo_kind == kind_proxy
        then document_or_missing method (proxy_fetch_packument pkg w)
        else (failed 404, w)
    | f ↦ (failed 500, w)
  ]

  -- servePackument
  unfoldable pub serve_packument : Bytes → Bytes → World S → Response × World S
  serve_packument method pkg w =
      found_packument method pkg
        (on_db (resolve_artifact h.members h.repo_id (packument_path pkg)) w)

  abbrev or_tag : Bytes → Option Bytes → Bytes
  or_tag v none = v
  or_tag v (some w) = w

  abbrev send_meta : Option Bytes → Response
  send_meta none = failed 404
  send_meta (some raw) = fixed raw

  -- The version object of a document, behind the shortcut of the tags.
  unfoldable pub version_of : Bytes → Packument × Bool → Response
  version_of v (p, good) =
      if good then send_meta (lookup (or_tag v (lookup v p.dist_tags)) p.versions) else failed 500

  abbrev send_version : Bytes → Result Bytes × World S → Response × World S
  send_version v (ok c, w) = (version_of v (h.unmarshal c (named [])), w)
  send_version v (err e, w) = (failed 500, w)

  abbrev found_version : Bytes → Result Artifact × World S → Response × World S
  found_version v (ok a, w) = send_version v (on_storage (Cas.get b a.digest) w)
  found_version v (err e, w) = (failed 404, w)

  -- handleVersion
  unfoldable pub handle_version : Bytes → Bytes → Bytes → World S → Response × World S
  handle_version method pkg v w =
      if not (method == codes "GET")
      then (failed 405, w)
      else found_version v (on_db (resolve_artifact h.members h.repo_id (packument_path pkg)) w)

  abbrev send_tarball : Bytes → Bytes → Result Bytes × World S → Response × World S
  send_tarball method digest (ok c, w) = (
    sent octet_stream (some (length c)) (some (codes "\"" ++ (digest ++ codes "\"")))
        (body_for method c),
    w,
  )
  send_tarball method digest (err e, w) = (failed 500, w)

  abbrev fetched_tarball : Bytes → Result Bytes × World S → Response × World S
  fetched_tarball method (ok c, w) =
      (sent octet_stream (some (length c)) none (body_for method c), w)
  fetched_tarball method (err e, w) = (failed 404, w)

  abbrev found_tarball : Bytes → Bytes → Bytes → Result Artifact × World S → Response × World S
  found_tarball method pkg file (ok a, w) =
      send_tarball method a.digest (on_storage (Cas.get b a.digest) w)
  found_tarball method pkg file (err e, w) = elim e [
    | not_found ↦
        if h.repo_kind == kind_proxy
        then fetched_tarball method (proxy_fetch_tarball pkg file w)
        else (failed 404, w)
    | f ↦ (failed 404, w)
  ]

  -- handleTarball
  unfoldable pub handle_tarball : Bytes → Bytes → Bytes → World S → Response × World S
  handle_tarball method pkg file w =
      if not (is_read method)
      then (failed 405, w)
      else found_tarball method pkg file
          (on_db (resolve_artifact h.members h.repo_id (tarball_path pkg file)) w)

  abbrev read_stored : Bytes → Result Bytes → Packument
  read_stored pkg (ok c) = (h.unmarshal c (named pkg)).0
  read_stored pkg (err e) = named pkg

  abbrev stored_blob : Bytes → Result Artifact × World S → Packument × World S
  stored_blob pkg (ok a, w) =
      let (c, w') = on_storage (Cas.get b a.digest) w in (read_stored pkg c, w')
  stored_blob pkg (err e, w) = (named pkg, w)

  -- The document that is there, or a new one: every error on the way is dropped.
  unfoldable pub load_stored : Bytes → World S → Packument × World S
  load_stored pkg w = stored_blob pkg (on_db (get_artifact h.repo_id (packument_path pkg)) w)

  abbrev pub status_or : ℕ → Result (Unit {0}) × World S → Option ℕ × World S
  status_or status (ok u, w) = (none, w)
  status_or status (err e, w) = (some status, w)

  abbrev store_tarball : ℕ → Bytes → Bytes → Option Bytes → World S → Option ℕ × World S
  store_tarball n pkg file none w = (some 400, w)
  store_tarball n pkg file (some raw) w =
      status_or 500
        (store_at sha256 b (envs n) h.repo_id (tarball_path pkg file) octet_stream raw w)

  -- The loop over the attachments, and the status of the one that fails.
  unfoldable pub store_attachments : ℕ → Bytes → Map Attachment → World S → Option ℕ × World S
  store_attachments n pkg [] w = (none, w)
  store_attachments n pkg ((file, a) ∷ as_) w =
      let (status, w') = store_tarball n pkg file (h.decode a.data_) w in
      elim status [ none ↦ store_attachments (n + 1) pkg as_ w' | some s ↦ (some s, w') ]

  abbrev created_or : Bytes → Option ℕ × World S → Response × World S
  created_or pkg (none, w) = (created pkg, w)
  created_or pkg (some status, w) = (failed status, w)

  abbrev store_document : Bytes → Option Bytes → World S → Response × World S
  store_document pkg none w = (failed 500, w)
  store_document pkg (some out) w =
      created_or pkg
        (status_or 500 (store_at sha256 b (envs 0) h.repo_id (packument_path pkg) json out w))

  abbrev store_merged : Bytes → Option Packument → World S → Response × World S
  store_merged pkg none w = (failed 409, w)
  store_merged pkg (some p) w = store_document pkg (marshal h.print p) w

  abbrev merge_stored : Bytes → Packument → Packument → Option ℕ × World S → Response × World S
  merge_stored pkg incoming stored (some status, w) = (failed status, w)
  merge_stored pkg incoming stored (none, w) = store_merged pkg (merge_into incoming stored) w

  -- What follows once the document of the request was read.
  unfoldable pub publish : Bytes → Packument → World S → Response × World S
  publish pkg incoming w =
      let (stored, w1) = load_stored pkg w in
      merge_stored pkg incoming stored (store_attachments 1 pkg incoming.attachments w1)

  abbrev publish_parsed : Bytes → Result Packument → World S → Response × World S
  publish_parsed pkg (err e) w = (failed 400, w)
  publish_parsed pkg (ok incoming) w =
      if not (incoming.name == pkg) then (failed 400, w) else publish pkg incoming w

  -- publishPackument
  unfoldable pub publish_packument : Request → Bytes → World S → Response × World S
  publish_packument req pkg w =
      if req.body_fails
      then (failed 400, w)
      else publish_parsed pkg (parse_packument h.unmarshal (take max_publish req.body)) w

  -- handlePackument
  unfoldable pub handle_packument : Request → Bytes → World S → Response × World S
  handle_packument req pkg w =
      if is_read req.method
      then serve_packument req.method pkg w
      else if req.method == codes "PUT"
      then publish_packument req pkg w
      else (failed 405, w)

  abbrev dispatch : Request → ParsedRoute → World S → Response × World S
  dispatch req p w = elim p.kind [
    | root ↦ (fixed (codes "{\"db_name\":\"registry\",\"engine\":\"packrune\"}"), w)
    | ping ↦ (fixed (codes "{}"), w)
    | whoami ↦ (fixed (codes "{\"username\":\"anonymous\"}"), w)
    | search ↦ (fixed (codes "{\"objects\":[],\"total\":0,\"time\":\"now\"}"), w)
    | packument ↦ handle_packument req p.pkg w
    | version ↦ handle_version req.method p.pkg p.ref w
    | tarball ↦ handle_tarball req.method p.pkg p.ref w
    | unknown ↦ (failed 404, w)
  ]

  -- ServeHTTP
  unfoldable pub serve : Request → World S → Response × World S
  serve req w = dispatch req (parse_path req.path) w
