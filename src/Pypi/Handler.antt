-- ===== src/Pypi/Handler.antt =====
-- internal/format/pypi/handler.go and proxy.go: the requests of the index.
pub mod Upload
use packrune.Prelude.{
  ℕ, ◌+◌, ◌*◌, ◌^◌, Bool, true, false, not, ◌&&◌, ◌||◌, Option, none, some, List, [], ◌∷◌, ◌++◌,
  Bytes, codes, length, ◌==◌, nat_eq, contains, cut, has_prefix, trim_prefix, trim_suffix,
  sort_strings, if◌then◌else◌,
}
use packrune.Action.{Error, not_found, io, Result, ok, err, Action, ◌>>=◌, ◌>>◌, pure}
use packrune.Storage.{Backend}
use packrune.Storage.Disk.{take}
use packrune.Storage.Cas
use packrune.Repo.Tables.{Db, Artifact, Engine, kind_proxy}
use packrune.Repo.Store.{get_artifact, upsert_artifact, list_artifacts_by_prefix}
use packrune.Repo.Listing.{resolve_artifacts_by_prefix}
use packrune.Format.{World, Upstream, Env, on_storage, on_db, lift, good_status, store_with}
use packrune.Pypi.Name.{normalize}
use packrune.Pypi.Page.{
  Link, fragment_of, stated_digest, index_page, package_page, proxy_page, package_names,
}

-- The file of a form, and a form that was parsed.
pub record FormFile : Type 0 where
  pub filename : Bytes
  pub content : Bytes
  pub content_fails : Bool

pub record Form : Type 0 where
  pub name : Bytes
  pub version : Bytes
  pub file : Option FormFile

-- A request; `form` is what ParseMultipartForm and the readers of fields deliver.
pub record Request : Type 0 where
  pub method : Bytes
  pub path : Bytes
  pub accept : Bytes
  pub form : Option Form

-- What a handler is configured with. `fetch_page` is the HTTP client at a path of the configured upstream
-- and `fetch_file` at a URL; `members`, `upload_meta`, `link_meta`, `upstream_url` and the printers of the
-- listings are of encoding/json, `links` is the regular expression of proxy.go, and `lower` what
-- strings.ToLower does to a text that is not all ASCII.
pub record Handler : Type 0 where
  pub repo_id : Bytes
  pub repo_kind : Bytes
  pub upstream : Bytes
  pub fetch_page : Bytes → Result Upstream
  pub fetch_file : Bytes → Result Upstream
  pub members : Bytes → List Bytes
  pub upload_meta : Bytes → Bytes → Bytes
  pub link_meta : Bytes → Bytes
  pub upstream_url : Bytes → Bytes
  pub print_index : List Bytes → Bytes
  pub print_package : Bytes → List Artifact → Bytes
  pub links : Bytes → List Link
  pub lower : Bytes → Bytes

-- An answer: `sent` has the status 200, a type, the length if it is stated, and a body; net/http drops
-- the body of an answer to HEAD.
pub data Response : Type 0 where
  failed : ℕ → Response
  sent : Bytes → Option ℕ → Option Bytes → Response
  uploaded : Response

abbrev html : Bytes
html = codes "text/html; charset=utf-8"

abbrev simple_json : Bytes
simple_json = codes "application/vnd.pypi.simple.v1+json"

abbrev pub octet_stream : Bytes
octet_stream = codes "application/octet-stream"

unfoldable pub package_prefix : Bytes → Bytes
package_prefix pkg = codes "packages/" ++ (pkg ++ codes "/")

unfoldable pub package_path : Bytes → Bytes → Bytes
package_path pkg file = codes "packages/" ++ (pkg ++ (codes "/" ++ file))

-- wantJSON
abbrev want_json : Request → Bool
want_json req = contains req.accept simple_json || contains req.accept (codes "application/json")

-- The cap on an upload, 200 MiB.
abbrev pub max_bytes : ℕ
max_bytes = 200 * 2 ^ 20

abbrev pub file_sent : Bytes → Bytes → Response
file_sent method c =
    sent octet_stream (some (length c)) (if method == codes "HEAD" then none else some c)

module _ {S : Type 0} (sha256 : Bytes → Bytes) (b : Backend S) (engine : Engine) (h : Handler)
    (envs : ℕ → Env) where
  -- The links of a page, each recorded by a row without content; what the database says is dropped.
  unfoldable pub record_links : ℕ → Bytes → List Link → World S → World S
  record_links n norm [] w = w
  record_links n norm ((href, file) ∷ links) w =
      let (done, w1) =
        on_db
          (upsert_artifact (envs n).row_id (envs n).now h.repo_id (package_path norm file)
            (stated_digest (fragment_of href)) 0 octet_stream (h.link_meta href))
          w in
      record_links (n + 1) norm links w1

  abbrev page_of : Bytes → Result Bytes → World S → Result Bytes × World S
  page_of norm (err e) w = (err e, w)
  page_of norm (ok body) w =
      (ok (proxy_page norm (h.links body)), record_links 0 norm (h.links body) w)

  -- proxyFetchSimple
  unfoldable pub proxy_fetch_simple : Bytes → Action (World S) Bytes
  proxy_fetch_simple norm w =
      if h.upstream == []
      then (err io, w)
      else page_of norm (good_status (h.fetch_page (codes "/simple/" ++ (norm ++ codes "/")))) w

  abbrev fetch_stored : Bytes → Bytes → Artifact → Action (World S) Bytes
  fetch_stored pkg file a w =
      if h.upstream_url a.metadata == []
      then (err io, w)
      else (do
        body ← lift (good_status (h.fetch_file (h.upstream_url a.metadata)))
        store_with sha256 b (envs 0) h.repo_id (package_path pkg file) octet_stream a.metadata body
        pure body)
          w

  -- proxyFetchFile
  unfoldable pub proxy_fetch_file : Bytes → Bytes → Action (World S) Bytes
  proxy_fetch_file pkg file = do
    a ← on_db (get_artifact h.repo_id (package_path pkg file))
    fetch_stored pkg file a

  abbrev list_names : Request → Result (List Artifact) × World S → Response × World S
  list_names req (err e, w) = (failed 500, w)
  list_names req (ok arts, w) =
      let names = sort_strings (package_names [] arts) in
      (
        if want_json req
            then sent simple_json none (some (h.print_index names))
            else sent html none (some (index_page names)),
        w,
      )

  -- handleIndex, with allPackageNames
  unfoldable pub handle_index : Request → World S → Response × World S
  handle_index req w =
      list_names req (on_db (list_artifacts_by_prefix engine h.repo_id (codes "packages/")) w)

  abbrev fetched_page : Result Bytes × World S → Response × World S
  fetched_page (ok page, w) = (sent html none (some page), w)
  fetched_page (err e, w) = (failed 404, w)

  abbrev list_package : Request → Bytes → Result (List Artifact) × World S → Response × World S
  list_package req norm (err e, w) = (failed 500, w)
  list_package req norm (ok [], w) =
      if h.repo_kind == kind_proxy
      then fetched_page (proxy_fetch_simple norm w)
      else (failed 404, w)
  list_package req norm (ok (a ∷ arts), w) = (
    if want_json req
        then sent simple_json none (some (h.print_package norm (a ∷ arts)))
        else sent html none (some (package_page norm (a ∷ arts))),
    w,
  )

  -- handlePackage
  unfoldable pub handle_package : Request → Bytes → World S → Response × World S
  handle_package req name w =
      let norm = normalize h.lower name in
      list_package req norm
        (on_db (resolve_artifacts_by_prefix engine (package_prefix norm) h.members h.repo_id) w)

  abbrev send_stored : Bytes → Result Bytes × World S → Response × World S
  send_stored method (ok c, w) = (file_sent method c, w)
  send_stored method (err e, w) = elim e [ not_found ↦ (failed 404, w) | f ↦ (failed 500, w) ]

  abbrev or_stored : Bytes → Bytes → Result Bytes × World S → Response × World S
  or_stored method digest (ok c, w) = (file_sent method c, w)
  or_stored method digest (err e, w) = send_stored method (on_storage (Cas.get b digest) w)

  abbrev found_file : Bytes → Bytes → Bytes → Result Artifact × World S → Response × World S
  found_file method pkg file (err e, w) = elim e [
    | not_found ↦ (failed 404, w)
    | f ↦ (failed 500, w)
  ]
  found_file method pkg file (ok a, w) =
      if h.repo_kind == kind_proxy && nat_eq a.size 0
      then or_stored method a.digest (proxy_fetch_file pkg file w)
      else send_stored method (on_storage (Cas.get b a.digest) w)

  -- handleDownload
  unfoldable pub handle_download : Bytes → Bytes → Bytes → World S → Response × World S
  handle_download method pkg file w =
      found_file method pkg file (on_db (get_artifact h.repo_id (package_path pkg file)) w)

  abbrev uploaded_or : Result (Unit {0}) × World S → Response × World S
  uploaded_or (ok u, w) = (uploaded, w)
  uploaded_or (err e, w) = (failed 500, w)

  abbrev upload_content : Form → Option FormFile → World S → Response × World S
  upload_content form none w = (failed 400, w)
  upload_content form (some f) w =
      if f.content_fails
      then (failed 400, w)
      else uploaded_or (
          store_with sha256 b (envs 0) h.repo_id
            (package_path (normalize h.lower form.name) f.filename) octet_stream
            (h.upload_meta form.name form.version) (take max_bytes f.content) w)

  abbrev upload_form : Option Form → World S → Response × World S
  upload_form none w = (failed 400, w)
  upload_form (some form) w =
      if form.name == [] then (failed 400, w) else upload_content form form.file w

  -- handleUpload
  unfoldable pub handle_upload : Request → World S → Response × World S
  handle_upload req w = upload_form req.form w

  abbrev download_rest : Bytes → Option (Bytes × Bytes) → World S → Response × World S
  download_rest method none w = (failed 404, w)
  download_rest method (some (pkg, file)) w = handle_download method pkg file w

  -- ServeHTTP
  unfoldable pub serve : Request → World S → Response × World S
  serve req w =
      let p = trim_prefix req.path (codes "/") in
      let rest = trim_suffix (trim_prefix p (codes "simple/")) (codes "/") in
      if p == [] && req.method == codes "POST"
      then handle_upload req w
      else if p == [] || p == codes "simple/" || p == codes "simple"
      then handle_index req w
      else if has_prefix p (codes "simple/")
      then (if rest == [] then handle_index req w else handle_package req rest w)
      else if has_prefix p (codes "packages/")
      then download_rest req.method (cut (trim_prefix p (codes "packages/")) (codes "/")) w
      else (failed 404, w)
