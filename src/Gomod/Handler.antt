-- ===== src/Gomod/Handler.antt =====
-- internal/format/gomod/handler.go and proxy.go: the requests of the module proxy.
pub mod Publish
use packrune.Prelude.{
  ℕ, zero, suc, ◌+◌, ◌*◌, ◌^◌, Bool, true, false, not, ◌&&◌, ◌||◌, ◌⊎◌, inl, inr, Option, none,
  some, List, [], ◌∷◌, ◌++◌, Bytes, codes, length, ◌==◌, leb, nat_eq, if◌then◌else◌, has_suffix,
  trim_prefix, trim_suffix, sort_strings, sort_by, less, is_seen,
}
use packrune.Action.{Error, not_found, io, Result, ok, err, Action, ◌>>=◌, ◌>>◌, pure, attempt}
use packrune.Storage.{Backend}
use packrune.Storage.Disk.{take}
use packrune.Storage.Cas
use packrune.Repo.Tables.{Db, Engine, Artifact, kind_proxy}
use packrune.Repo.Store.{upsert_artifact}
use packrune.Repo.Resolve.{resolve_artifact}
use packrune.Repo.Listing.{resolve_artifacts_by_prefix}
use packrune.Format.{World, Upstream, Request, Env, is_read, on_storage, on_db, store_at, fetch_at}
use packrune.Gomod.Route.{
  RouteKind, unknown, list, latest, info, mod_file, zip, ParsedRoute, parse_path,
}

-- What a version's .info file says.
pub record Info : Type 0 where
  pub version : Bytes
  pub time : Option ℕ

-- What a handler is configured with. `fetch` is the HTTP client at the configured upstream; `members`,
-- `json_valid`, `parse_info` and `print_info` are of encoding/json.
pub record Handler : Type 0 where
  pub repo_id : Bytes
  pub repo_kind : Bytes
  pub upstream : Bytes
  pub fetch : Bytes → Result Upstream
  pub members : Bytes → List Bytes
  pub json_valid : Bytes → Bool
  pub parse_info : Bytes → Option Info
  pub print_info : Info → Option Bytes
  pub engine : Engine

-- An answer: `sent` has the status 200, a type, the length if it is stated, and a body unless the
-- method is HEAD.
pub data Response : Type 0 where
  failed : ℕ → Response
  versions : List Bytes → Response
  sent : Bytes → Option ℕ → Option Bytes → Response
  created : Bytes → Bytes → Bytes → Response

-- contentTypeFor
unfoldable pub content_type_for : Bytes → Bytes
content_type_for ext =
    if ext == codes ".info"
    then codes "application/json"
    else if ext == codes ".mod"
    then codes "text/plain; charset=utf-8"
    else if ext == codes ".zip"
    then codes "application/zip"
    else codes "application/octet-stream"

-- extFromPath
unfoldable pub ext_from_path : Bytes → Bytes
ext_from_path p =
    if has_suffix p (codes ".info")
    then codes ".info"
    else if has_suffix p (codes ".mod")
    then codes ".mod"
    else if has_suffix p (codes ".zip")
    then codes ".zip"
    else []

unfoldable pub module_prefix : Bytes → Bytes
module_prefix m = codes "modules/" ++ (m ++ codes "/")

unfoldable pub version_path : Bytes → Bytes → Bytes → Bytes
version_path m v ext = codes "modules/" ++ (m ++ (codes "/" ++ (v ++ ext)))

-- The versions that have a .info file, each once.
unfoldable pub info_versions : Bytes → List Bytes → List Artifact → List Bytes
info_versions prefix seen [] = []
info_versions prefix seen (a ∷ rows) =
    let base = trim_prefix a.path prefix in
    let v = trim_suffix base (codes ".info") in
    let skipped = info_versions prefix seen rows in
    let rest = info_versions prefix (v ∷ seen) rows in
    if not (ext_from_path base == codes ".info")
    then skipped
    else if is_seen v seen
    then skipped
    else v ∷ rest

unfoldable pub infos : List Artifact → List Artifact
infos [] = []
infos (a ∷ rows) =
    let rest = infos rows in if has_suffix a.path (codes ".info") then a ∷ rest else rest

abbrev last_of : List Artifact → Option Artifact
last_of [] = none
last_of (a ∷ []) = some a
last_of (a ∷ b ∷ rows) = last_of (b ∷ rows)

-- The greatest path of an .info file.
unfoldable pub pick_latest : List Artifact → Option Artifact
pick_latest rows = last_of (sort_by (λ a b. less a.path b.path) (infos rows))

abbrev body_for : Bytes → Bytes → Option Bytes
body_for method c = if method == codes "HEAD" then none else some c

abbrev pub version_file : Bytes → Bytes → Bytes → Response
version_file method ext c = sent (content_type_for ext) (some (length c)) (body_for method c)

module _ {S A : Type 0} where
  abbrev answered :
      (Error → ℕ) → (A → World S → Response × World S) → Result A × World S → Response × World S
  answered status go (ok a, w) = go a w
  answered status go (err e, w) = (failed (status e), w)

abbrev internal : Error → ℕ
internal e = 500

abbrev missing : Error → ℕ
missing e = elim e [ not_found ↦ 404 | f ↦ 500 ]

-- The cap on an upload, 200 MiB.
abbrev pub max_bytes : ℕ
max_bytes = 200 * 2 ^ 20

abbrev or_version : Bytes → Bytes → Bytes
or_version [] v = v
or_version (c ∷ s) v = c ∷ s

abbrev or_now : Option ℕ → ℕ → ℕ
or_now none now = now
or_now (some t) now = t

module _ {S : Type 0} (sha256 : Bytes → Bytes) (b : Backend S) (h : Handler) (env : Env) where
  abbrev store_file : Bytes → Bytes → Bytes → Bytes → Action (World S) (Unit {0})
  store_file m v ext body =
      store_at sha256 b env h.repo_id (version_path m v ext) (content_type_for ext) body

  -- proxyFetchVersion
  unfoldable pub proxy_fetch_version : Bytes → Bytes → Bytes → Action (World S) Bytes
  proxy_fetch_version m v ext =
      fetch_at sha256 b env h.upstream (h.fetch (codes "/" ++ (m ++ (codes "/@v/" ++ (v ++ ext)))))
        h.repo_id (version_path m v ext) (content_type_for ext)

  -- handleList
  unfoldable pub handle_list : Request → Bytes → World S → Response × World S
  handle_list req m w =
      if not (is_read req.method)
      then (failed 405, w)
      else answered internal
          (λ rows. λ w'. (versions (sort_strings (info_versions (module_prefix m) [] rows)), w'))
          (on_db (resolve_artifacts_by_prefix h.engine (module_prefix m) h.members h.repo_id) w)

  abbrev send_latest : Option Artifact → World S → Response × World S
  send_latest none w = (failed 404, w)
  send_latest (some a) w =
      answered internal (λ c. λ w'. (sent (codes "application/json") none (some c), w'))
        (on_storage (Cas.get b a.digest) w)

  -- handleLatest; net/http drops the body of an answer to HEAD.
  unfoldable pub handle_latest : Request → Bytes → World S → Response × World S
  handle_latest req m w =
      if not (is_read req.method)
      then (failed 405, w)
      else answered internal (λ rows. send_latest (pick_latest rows))
          (on_db (resolve_artifacts_by_prefix h.engine (module_prefix m) h.members h.repo_id) w)

  abbrev send_fetched : Bytes → Bytes → Result Bytes × World S → Response × World S
  send_fetched method ext (ok c, w) = (version_file method ext c, w)
  send_fetched method ext (err e, w) = (failed 404, w)

  abbrev send_found : Bytes → Bytes → Bytes → Bytes → Result Artifact × World S → Response × World S
  send_found method m v ext (ok a, w) =
      answered missing (λ c. λ w'. (version_file method ext c, w'))
        (on_storage (Cas.get b a.digest) w)
  send_found method m v ext (err e, w) = elim e [
    | not_found ↦
        if h.repo_kind == kind_proxy
        then send_fetched method ext (proxy_fetch_version m v ext w)
        else (failed 404, w)
    | f ↦ (failed 500, w)
  ]

  -- serveVersionFile
  unfoldable pub serve_version_file : Request → Bytes → Bytes → Bytes → World S → Response × World S
  serve_version_file req m v ext w =
      send_found req.method m v ext
        (on_db (resolve_artifact h.members h.repo_id (version_path m v ext)) w)

  abbrev filled : Bytes → Info → Option Bytes
  filled v i =
      h.print_info
        (record { version = or_version i.version v; time = some (or_now i.time env.now) })

  abbrev printed : Option Bytes → ℕ ⊎ Bytes
  printed none = inl 500
  printed (some c) = inr c

  abbrev completed : Bytes → Option Info → ℕ ⊎ Bytes
  completed v none = inl 400
  completed v (some i) = printed (filled v i)

  -- What is stored for an upload, or the status that refuses it.
  unfoldable pub prepared : Bytes → Bytes → Bytes → ℕ ⊎ Bytes
  prepared v ext body =
      if not (ext == codes ".info")
      then inr body
      else if not (h.json_valid body)
      then inl 400
      else completed v (h.parse_info body)

  abbrev store_prepared : Bytes → Bytes → Bytes → ℕ ⊎ Bytes → World S → Response × World S
  store_prepared m v ext (inl status) w = (failed status, w)
  store_prepared m v ext (inr body) w =
      answered internal (λ u. λ w'. (created m v ext, w')) (store_file m v ext body w)

  -- uploadVersionFile
  unfoldable pub upload_version_file :
      Request → Bytes → Bytes → Bytes → World S → Response × World S
  upload_version_file req m v ext w =
      if req.body_fails
      then (failed 400, w)
      else store_prepared m v ext (prepared v ext (take max_bytes req.body)) w

  abbrev version_request : Request → Bytes → Bytes → Bytes → World S → Response × World S
  version_request req m v ext w =
      if is_read req.method
      then serve_version_file req m v ext w
      else if req.method == codes "PUT"
      then upload_version_file req m v ext w
      else (failed 405, w)

  abbrev dispatch : Request → ParsedRoute → World S → Response × World S
  dispatch req p w = elim p.kind [
    | list ↦ handle_list req p.module_path w
    | latest ↦ handle_latest req p.module_path w
    | info ↦ version_request req p.module_path p.version (codes ".info") w
    | mod_file ↦ version_request req p.module_path p.version (codes ".mod") w
    | zip ↦ version_request req p.module_path p.version (codes ".zip") w
    | unknown ↦ (failed 404, w)
  ]

  -- ServeHTTP, with extOf
  unfoldable pub serve : Request → World S → Response × World S
  serve req w = dispatch req (parse_path req.path) w
