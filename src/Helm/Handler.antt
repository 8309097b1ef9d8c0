-- ===== src/Helm/Handler.antt =====
-- internal/format/helm/handler.go and proxy.go: the requests of the repository.
pub mod Download
use packrune.Prelude.{
  ℕ, ◌*◌, ◌^◌, Bool, true, false, not, ◌&&◌, ◌||◌, Option, none, some, List, [], ◌∷◌, ◌++◌, Bytes,
  codes, length, ◌==◌, has_suffix, trim_prefix, if◌then◌else◌,
}
use packrune.Action.{Error, not_found, io, Result, ok, err, Action, ◌>>=◌, ◌>>◌, pure}
use packrune.Storage.{Backend}
use packrune.Storage.Disk.{take}
use packrune.Storage.Cas
use packrune.Repo.Tables.{Db, Artifact, Engine, kind_proxy}
use packrune.Repo.Listing.{resolve_artifacts_by_prefix}
use packrune.Format.{World, Upstream, Env, on_storage, on_db, lift, good_status, store_with}
use packrune.Helm.Chart.{Chart, TarEntry, Index, parse_chart, build_index, append_to, file_name}

-- A request; `form` is what ParseMultipartForm and the field "chart" deliver, and what reading it does.
pub record Request : Type 0 where
  pub method : Bytes
  pub path : Bytes
  pub form : Option (Option (Result Bytes))

-- What a handler is configured with. `fetch` is the HTTP client at the configured upstream; `members`,
-- `chart_json` and `read_json` are of encoding/json, `yaml` and `print_index` of yaml.v3, `untar` of
-- compress/gzip and archive/tar, and `date` is time.Format.
pub record Handler (R : Type 0) : Type 0 where
  pub repo_id : Bytes
  pub repo_kind : Bytes
  pub upstream : Bytes
  pub context_path : Bytes
  pub fetch : Bytes → Result Upstream
  pub members : Bytes → List Bytes
  pub untar : Bytes → Result (List (Result TarEntry))
  pub yaml : Bytes → Option (Chart R)
  pub chart_json : Chart R → Bytes
  pub read_json : Bytes → Option (Chart R)
  pub print_index : Index R → Option Bytes
  pub date : ℕ → Bytes

-- An answer: `sent` has the status 200, a type, the length and a body; net/http drops the body of an
-- answer to HEAD.
pub data Response (R : Type 0) : Type 0 where
  failed : ℕ → Response R
  sent : Bytes → ℕ → Bytes → Response R
  healthy created : Response R
  charts : List (Bytes × List (Chart R)) → Response R

abbrev pub octet_stream : Bytes
octet_stream = codes "application/octet-stream"

-- The cap on a chart, 64 MiB.
abbrev pub max_chart : ℕ
max_chart = 64 * 2 ^ 20

unfoldable pub chart_path : {R : Type 0} → Chart R → Bytes
chart_path c = codes "charts/" ++ (c.name ++ (codes "/" ++ file_name c))

-- The first row whose path ends in the file's name.
unfoldable pub find_file : Bytes → List Artifact → Option Artifact
find_file file [] = none
find_file file (a ∷ arts) =
    let rest = find_file file arts in if has_suffix a.path (codes "/" ++ file) then some a else rest

module _ {R S : Type 0} (sha256 : Bytes → Bytes) (b : Backend S) (engine : Engine) (h : Handler R)
    (env : Env) where
  -- resolveArtifactsByPrefix of all charts
  unfoldable pub all_charts : Action (World S) (List Artifact)
  all_charts = on_db (resolve_artifacts_by_prefix engine (codes "charts/") h.members h.repo_id)

  -- A chart that was read is stored at its path.
  abbrev pub store_chart : Bytes → Chart R → Action (World S) (Unit {0})
  store_chart body c =
      store_with sha256 b env h.repo_id (chart_path c) octet_stream (h.chart_json c) body

  abbrev fetched_chart : Bytes → Action (World S) Bytes
  fetched_chart body = do c ← lift (parse_chart h.yaml h.untar body); store_chart body c; pure body

  -- proxyFetchChart
  unfoldable pub proxy_fetch_chart : Bytes → Action (World S) Bytes
  proxy_fetch_chart file w =
      if h.upstream == []
      then (err io, w)
      else (lift (good_status (h.fetch (codes "/" ++ file))) >>= fetched_chart) w

  abbrev send_index : Option Bytes → Response R
  send_index none = failed 500
  send_index (some body) = sent (codes "application/x-yaml; charset=utf-8") (length body) body

  abbrev index_of : Result (List Artifact) × World S → Response R × World S
  index_of (err e, w) = (failed 500, w)
  index_of (ok arts, w) =
      (send_index (h.print_index (build_index h.read_json h.date arts h.context_path env.now)), w)

  -- handleIndex
  unfoldable pub handle_index : World S → Response R × World S
  handle_index w = index_of (all_charts w)

  abbrev pub send_chart : Result Bytes × World S → Response R × World S
  send_chart (ok c, w) = (sent octet_stream (length c) c, w)
  send_chart (err e, w) = elim e [ not_found ↦ (failed 404, w) | f ↦ (failed 500, w) ]

  abbrev send_fetched : Result Bytes × World S → Response R × World S
  send_fetched (ok c, w) = (sent octet_stream (length c) c, w)
  send_fetched (err e, w) = (failed 404, w)

  abbrev pub send_match : Bytes → Option Artifact → World S → Response R × World S
  send_match file (some a) w = send_chart (on_storage (Cas.get b a.digest) w)
  send_match file none w =
      if h.repo_kind == kind_proxy then send_fetched (proxy_fetch_chart file w) else (failed 404, w)

  abbrev pub found_charts : Bytes → Result (List Artifact) × World S → Response R × World S
  found_charts file (err e, w) = (failed 500, w)
  found_charts file (ok arts, w) = send_match file (find_file file arts) w

  -- handleDownload
  unfoldable pub handle_download : Bytes → World S → Response R × World S
  handle_download file w = found_charts file (all_charts w)

  abbrev pub created_or : Result (Unit {0}) × World S → Response R × World S
  created_or (ok u, w) = (created, w)
  created_or (err e, w) = (failed 500, w)

  abbrev upload_parsed : Bytes → Result (Chart R) → World S → Response R × World S
  upload_parsed body (err e) w = (failed 400, w)
  upload_parsed body (ok c) w = created_or (store_chart body c w)

  abbrev upload_read : Result Bytes → World S → Response R × World S
  upload_read (err e) w = (failed 400, w)
  upload_read (ok content) w =
      let body = take max_chart content in upload_parsed body (parse_chart h.yaml h.untar body) w

  abbrev upload_field : Option (Result Bytes) → World S → Response R × World S
  upload_field none w = (failed 400, w)
  upload_field (some file) w = upload_read file w

  -- handleUpload
  unfoldable pub handle_upload : Request → World S → Response R × World S
  handle_upload req w = elim req.form [ none ↦ (failed 400, w) | some field ↦ upload_field field w ]

  abbrev add_chart :
      Option (Chart R) → List (Bytes × List (Chart R)) → List (Bytes × List (Chart R))
  add_chart none cs = cs
  add_chart (some c) cs = append_to c.name c cs

  unfoldable pub group_charts :
      List Artifact → List (Bytes × List (Chart R)) → List (Bytes × List (Chart R))
  group_charts [] cs = cs
  group_charts (a ∷ arts) cs =
      group_charts arts (add_chart (if a.metadata == [] then none else h.read_json a.metadata) cs)

  abbrev list_of : Result (List Artifact) × World S → Response R × World S
  list_of (err e, w) = (failed 500, w)
  list_of (ok arts, w) = (charts (group_charts arts []), w)

  -- handleList
  unfoldable pub handle_list : World S → Response R × World S
  handle_list w = list_of (all_charts w)

  -- ServeHTTP
  unfoldable pub serve : Request → World S → Response R × World S
  serve req w =
      let p = trim_prefix req.path (codes "/") in
      if p == [] || p == codes "index.yaml"
      then handle_index w
      else if p == codes "healthz"
      then (healthy, w)
      else if p == codes "api/charts" && req.method == codes "POST"
      then handle_upload req w
      else if p == codes "api/charts" && req.method == codes "GET"
      then handle_list w
      else if has_suffix p (codes ".tgz")
      then handle_download p w
      else (failed 404, w)
