-- ===== src/Maven/Handler.antt =====
-- internal/format/maven/handler.go and proxy.go: the requests of the repository.
pub mod Spares
pub mod Written
pub mod Upload
pub mod Checksums
use packrune.Prelude.{
  ℕ, ◌+◌, ◌*◌, ◌^◌, Bool, true, false, not, ◌&&◌, ◌||◌, Option, none, some, List, [], ◌∷◌, ◌++◌,
  Bytes, codes, length, ◌==◌, has_suffix, trim_prefix, if◌then◌else◌,
}
use packrune.Action.{
  Error, not_found, io, Result, ok, err, is_ok, Action, ◌>>=◌, ◌>>◌, pure, attempt,
}
use packrune.Storage.{Backend}
use packrune.Storage.Disk.{take}
use packrune.Storage.Cas
use packrune.Storage.Cas.Hash.{encode_hex}
use packrune.Repo.Tables.{Db, Artifact, Engine, kind_proxy}
use packrune.Repo.Store.{get_artifact, list_artifacts_by_prefix}
use packrune.Repo.Resolve.{resolve_artifact}
use packrune.Format.{
  World, Upstream, Request, Env, is_read, on_storage, on_db, lift, good_status, store_at, fetch_at,
}
use packrune.Maven.Path.{Coordinates, split_artifact_path, is_primary_artifact, content_type_for}
use packrune.Maven.Metadata.{Metadata, metadata_for}

-- The checksums that are written beside an artifact.
pub data Checksum : Type 0 where
  sha1_sum sha256_sum md5_sum : Checksum

-- What a handler is configured with. `fetch` is the HTTP client at the configured upstream; `members` is
-- of encoding/json, `print` xml.MarshalIndent, `date` time.Format, and `checks` the order in which the
-- map of the checksums is ranged over.
pub record Handler : Type 0 where
  pub repo_id : Bytes
  pub repo_kind : Bytes
  pub upstream : Bytes
  pub fetch : Bytes → Result Upstream
  pub members : Bytes → List Bytes
  pub print : Metadata → Option Bytes
  pub date : ℕ → Bytes
  pub sha1 : Bytes → Bytes
  pub md5 : Bytes → Bytes
  pub checks : List Checksum

-- An answer: `sent` has the status 200, a type, the length if it is stated, and a body; net/http drops
-- the body of an answer to HEAD.
pub data Response : Type 0 where
  failed : ℕ → Response
  sent : Bytes → Option ℕ → Option Bytes → Response
  created : Response

unfoldable pub file_path : Bytes → Bytes
file_path p = codes "files/" ++ p

abbrev pub file_sent : Bytes → Bytes → Bytes → Response
file_sent method p c =
    sent (content_type_for p) (some (length c)) (if method == codes "HEAD" then none else some c)

abbrev pub extension : Checksum → Bytes
extension sha1_sum = codes ".sha1"
extension sha256_sum = codes ".sha256"
extension md5_sum = codes ".md5"

unfoldable pub artifact_prefix : Coordinates → Bytes
artifact_prefix c = codes "files/" ++ (c.group_path ++ (codes "/" ++ (c.artifact_id ++ codes "/")))

unfoldable pub metadata_path : Coordinates → Bytes
metadata_path c =
    codes "files/"
    ++ (c.group_path ++ (codes "/" ++ (c.artifact_id ++ codes "/maven-metadata.xml")))

-- xml.Header
abbrev pub xml_header : Bytes
xml_header = codes "<?xml version=\"1.0\" encoding=\"UTF-8\"?>\n"

-- The cap on an upload, 256 MiB.
abbrev pub max_bytes : ℕ
max_bytes = 256 * 2 ^ 20

module _ {S : Type 0} (sha256 : Bytes → Bytes) (b : Backend S) (engine : Engine) (h : Handler)
    (envs : ℕ → Env) where
  -- The hex text of a checksum.
  unfoldable pub checksum : Checksum → Bytes → Bytes
  checksum sha1_sum body = encode_hex (h.sha1 body)
  checksum sha256_sum body = encode_hex (sha256 body)
  checksum md5_sum body = encode_hex (h.md5 body)

  -- proxyFetchFile
  unfoldable pub proxy_fetch_file : Bytes → Action (World S) Bytes
  proxy_fetch_file p w =
      if h.upstream == []
      then (err io, w)
      else if has_suffix p (codes "/maven-metadata.xml")
      then (good_status (h.fetch (codes "/" ++ p)), w)
      else fetch_at sha256 b (envs 0) h.upstream (h.fetch (codes "/" ++ p)) h.repo_id (file_path p)
          (content_type_for p) w

  abbrev fetched_file : Bytes → Bytes → Result Bytes × World S → Response × World S
  fetched_file method p (ok c, w) = (file_sent method p c, w)
  fetched_file method p (err e, w) = (failed 404, w)

  abbrev send_file : Bytes → Bytes → Result Bytes × World S → Response × World S
  send_file method p (ok c, w) = (file_sent method p c, w)
  send_file method p (err e, w) = elim e [ not_found ↦ (failed 404, w) | f ↦ (failed 500, w) ]

  abbrev found_file : Bytes → Bytes → Result Artifact × World S → Response × World S
  found_file method p (ok a, w) = send_file method p (on_storage (Cas.get b a.digest) w)
  found_file method p (err e, w) = elim e [
    | not_found ↦
        if h.repo_kind == kind_proxy
        then fetched_file method p (proxy_fetch_file p w)
        else (failed 404, w)
    | f ↦ (failed 500, w)
  ]

  -- serveFile
  unfoldable pub serve_file : Bytes → Bytes → World S → Response × World S
  serve_file method p w =
      found_file method p (on_db (resolve_artifact h.members h.repo_id (file_path p)) w)

  abbrev unless_there : ℕ → Bytes → Bytes → Checksum → Result Artifact → Action (World S) (Unit {0})
  unless_there n p body k (ok a) w = (ok tt, w)
  unless_there n p body k (err e) w =
      store_at sha256 b (envs n) h.repo_id (file_path (p ++ extension k)) (codes "text/plain")
        (checksum k body) w

  -- A checksum is written unless its file is there.
  unfoldable pub write_checksum : ℕ → Bytes → Bytes → Checksum → Action (World S) (Unit {0})
  write_checksum n p body k = do
    there ← attempt (on_db (get_artifact h.repo_id (file_path (p ++ extension k))))
    unless_there n p body k there

  -- ensureChecksums, which stops at the first error
  unfoldable pub ensure_checksums : ℕ → Bytes → Bytes → List Checksum → Action (World S) (Unit {0})
  ensure_checksums n p body [] = pure tt
  ensure_checksums n p body (k ∷ ks) =
      write_checksum n p body k >> ensure_checksums (n + 1) p body ks

  abbrev store_metadata : ℕ → Coordinates → Option Bytes → Action (World S) (Unit {0})
  store_metadata n c none w = (err io, w)
  store_metadata n c (some out) w =
      store_at sha256 b (envs n) h.repo_id (metadata_path c) (codes "application/xml")
        (xml_header ++ out) w

  abbrev write_metadata : ℕ → Coordinates → Option Metadata → Action (World S) (Unit {0})
  write_metadata n c none w = (ok tt, w)
  write_metadata n c (some m) w = store_metadata n c (h.print m) w

  -- regenerateMetadata
  unfoldable pub regenerate_metadata : ℕ → Bytes → Action (World S) (Unit {0})
  regenerate_metadata n p w =
      let c = split_artifact_path p in
      if c.group_path == [] || c.artifact_id == []
      then (ok tt, w)
      else (do
        arts ← on_db (list_artifacts_by_prefix engine h.repo_id (artifact_prefix c))
        write_metadata n c (metadata_for c (h.date (envs n).now) (artifact_prefix c) arts))
          w

  -- What follows the upload of a primary artifact; errors go to the log.
  unfoldable pub after_upload : Bytes → Bytes → World S → World S
  after_upload p body w =
      if is_primary_artifact p
      then (regenerate_metadata 4 p (ensure_checksums 1 p body h.checks w).1).1
      else w

  abbrev stored_file : Bytes → Bytes → Result (Unit {0}) × World S → Response × World S
  stored_file p body (ok u, w) = (created, after_upload p body w)
  stored_file p body (err e, w) = (failed 500, w)

  -- uploadFile
  unfoldable pub upload_file : Request → Bytes → World S → Response × World S
  upload_file req p w =
      if req.body_fails
      then (failed 400, w)
      else stored_file p (take max_bytes req.body) (
          store_at sha256 b (envs 0) h.repo_id (file_path p) (content_type_for p)
            (take max_bytes req.body) w)

  -- ServeHTTP
  unfoldable pub serve : Request → World S → Response × World S
  serve req w =
      let p = trim_prefix req.path (codes "/") in
      if p == []
      then (
        sent (codes "text/plain; charset=utf-8") none (some (codes "Maven repository root\n")),
        w,
      )
      else if is_read req.method
      then serve_file req.method p w
      else if req.method == codes "PUT"
      then upload_file req p w
      else (failed 405, w)
