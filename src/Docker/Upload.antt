-- ===== src/Docker/Upload.antt =====
-- internal/format/docker/upload.go: the upload sessions and their requests.
pub mod Sessions
use packrune.Prelude.{
  ℕ, zero, suc, ◌+◌, Bool, true, false, not, ◌&&◌, ◌||◌, Option, none, some, List, [], ◌∷◌, ◌++◌,
  Bytes, codes, length, ◌==◌, nat_eq, if◌then◌else◌,
}
use packrune.Action.{
  Error, not_found, digest_mismatch, io, Result, ok, err, Action, ◌>>=◌, ◌>>◌, pure, raise, attempt,
}
use packrune.Storage.{Backend}
use packrune.Storage.Disk.{
  Disk, Copied, plain_call, create_file, read_file, remove_file, copy_to, content,
}
use packrune.Storage.Cas
use packrune.Storage.Cas.{digest_of}
use packrune.Repo.Tables.{Db}
use packrune.Repo.Store.{upsert_artifact}
use packrune.Docker.Route.{validate_name}
use packrune.Docker.World.{
  Session, World, on_storage, on_db, on_staging, ErrorCode, name_invalid, digest_invalid,
  blob_upload_unknown, unsupported, Value, text, number, range, Body, empty, Response, write_error,
  Request, Env, checked,
}

unfoldable pub find_session : Bytes → List Session → Option Session
find_session id [] = none
find_session id (s ∷ ss) = if s.id == id then some s else find_session id ss

unfoldable pub without_session : Bytes → List Session → List Session
without_session id [] = []
without_session id (s ∷ ss) =
    let rest = without_session id ss in if s.id == id then rest else s ∷ rest

abbrev pub octet_stream : Bytes
octet_stream = codes "application/octet-stream"

unfoldable pub created : Bytes → Bytes → Response
created name digest = record {
  status = 201;
  headers =
      (codes "Docker-Content-Digest", text digest)
      ∷ (codes "Location", text (codes "/v2/" ++ (name ++ (codes "/blobs/" ++ digest))))
      ∷ [];
  body = empty;
}

unfoldable pub progress : ℕ → Bytes → Bytes → Value → Response
progress status name id seen = record {
  status = status;
  headers =
      (codes "Location", text (codes "/v2/" ++ (name ++ (codes "/blobs/uploads/" ++ id))))
      ∷ (codes "Docker-Upload-UUID", text id)
      ∷ (codes "Range", seen)
      ∷ [];
  body = empty;
}

-- r.ContentLength != 0
abbrev pub may_have_body : Option ℕ → Bool
may_have_body none = true
may_have_body (some n) = not (nat_eq n 0)

-- r.ContentLength > 0
abbrev pub has_body : Option ℕ → Bool
has_body none = false
has_body (some n) = not (nat_eq n 0)

-- The status of a session has no Location.
unfoldable pub upload_status : Session → Response
upload_status s = record {
  status = 204;
  headers = (codes "Docker-Upload-UUID", text s.id) ∷ (codes "Range", range s.size) ∷ [];
  body = empty;
}

abbrev pub no_content : Response
no_content = record { status = 204; headers = []; body = empty }

module _ {S : Type 0} where
  abbrev keep_session : Session → Action (World S) Session
  keep_session s w = (ok s, record w { sessions = s ∷ without_session s.id w.sessions })

  -- uploadManager.start, below the directory `root`
  unfoldable pub start : Bytes → Bytes → Action (World S) Session
  start root id = do
    on_staging plain_call
    on_staging (create_file (root ++ b'/' ∷ id))
    keep_session (record { id = id; path = root ++ b'/' ∷ id; size = 0 })

  abbrev drop_found : Bytes → Option Session → Action (World S) (Unit {0})
  drop_found id none w = (ok tt, w)
  drop_found id (some s) w = (
    ok tt,
    record w {
      sessions = without_session id w.sessions;
      staging = (remove_file s.path w.staging).1;
    },
  )

  -- uploadManager.drop
  unfoldable pub drop : Bytes → Action (World S) (Unit {0})
  drop id w = drop_found id (find_session id w.sessions) w

  -- The session is shared by its pointer: the map sees the new size.
  abbrev grow : Session → Copied → Action (World S) ℕ
  grow s c w =
      let size = s.size + c.count in
      (
        if c.failed then err io else ok size,
        record w { sessions = record s { size = size } ∷ without_session s.id w.sessions },
      )

  -- uploadSession.append: the file is opened, not created.
  unfoldable pub append : Session → Bytes → Action (World S) ℕ
  append s body = do
    on_staging (read_file s.path)
    copied ← on_staging (copy_to s.path body)
    grow s copied

  abbrev pub reply : Response → Action (World S) Response
  reply r w = (ok r, w)

  abbrev pub fail : ℕ → ErrorCode → Error → Action (World S) Response
  fail status code e = reply (write_error status code)

  abbrev drop_and_fail : Bytes → ℕ → ErrorCode → Error → Action (World S) Response
  drop_and_fail id status code e w = (ok (write_error status code), (drop id w).1)

  module _ (sha256 : Bytes → Bytes) (b : Backend S) (repo : Bytes) (env : Env) where
    abbrev record_blob : Bytes → Bytes → Bytes → ℕ → Action (World S) (Unit {0})
    record_blob row path digest size =
        on_db (upsert_artifact row env.now repo path digest size octet_stream [])

    -- The digest is compared, and the staged bytes go to the storage and into two rows.
    abbrev store_verified : Bytes → Bytes → Bytes → Action (World S) (Unit {0})
    store_verified name path hashed = do
      staged ← on_staging (read_file path)
      on_storage (Cas.put sha256 b env.nonce staged)
      let actual = digest_of sha256 hashed
      record_blob env.row_id (codes "blobs/" ++ actual) actual (length hashed)
      record_blob env.second_row_id (codes "refs/" ++ (name ++ (codes "/blobs/" ++ actual))) actual
          (length hashed)

    abbrev verify : Bytes → Bytes → Bytes → Bytes → Action (World S) (Unit {0})
    verify name path claimed hashed w =
        if digest_of sha256 hashed == claimed
        then store_verified name path hashed w
        else (err digest_mismatch, w)

    -- finalize, with hashFile
    unfoldable pub finalize : Bytes → Session → Bytes → Action (World S) (Unit {0})
    finalize name s claimed = do
      hashed ← on_staging (read_file s.path)
      verify name s.path claimed hashed

    abbrev monolithic : Request → Bytes → Session → Action (World S) Response
    monolithic req name s = checked (append s req.body) (drop_and_fail s.id 500 unsupported) λ n.
        checked (finalize name s req.digest) (drop_and_fail s.id 400 digest_invalid)
          λ u. reply (created name req.digest)

    abbrev started : Request → Bytes → Session → Action (World S) Response
    started req name s w =
        if not (req.digest == []) && may_have_body req.length
        then monolithic req name s w
        else reply (progress 202 name s.id (text (codes "0-0"))) w

    -- handleUploadStart
    unfoldable pub handle_upload_start : Bytes → Request → Bytes → Action (World S) Response
    handle_upload_start root req name w =
        if not (req.method == codes "POST")
        then reply (write_error 405 unsupported) w
        else if not (validate_name name)
        then reply (write_error 400 name_invalid) w
        else checked (start root env.session_id) (fail 500 unsupported) (started req name) w

    abbrev finished : Request → Bytes → Session → Action (World S) Response
    finished req name s w =
        if req.digest == []
        then reply (write_error 400 digest_invalid) w
        else checked (finalize name s req.digest) (fail 400 digest_invalid)
            (λ u. λ w'. (ok (created name req.digest), (drop s.id w').1)) w

    abbrev on_put : Request → Bytes → Session → Action (World S) Response
    on_put req name s w =
        if has_body req.length
        then checked (append s req.body) (fail 500 unsupported) (λ n. finished req name s) w
        else finished req name s w

    abbrev on_patch : Request → Bytes → Session → Action (World S) Response
    on_patch req name s =
        checked (append s req.body) (fail 500 unsupported)
          λ n. reply (progress 202 name s.id (range n))

    abbrev in_session : Request → Bytes → Option Session → Action (World S) Response
    in_session req name none w = (ok (write_error 404 blob_upload_unknown), w)
    in_session req name (some s) w =
        if req.method == codes "GET"
        then reply (upload_status s) w
        else if req.method == codes "PATCH"
        then on_patch req name s w
        else if req.method == codes "PUT"
        then on_put req name s w
        else if req.method == codes "DELETE"
        then (ok no_content, (drop s.id w).1)
        else reply (write_error 405 unsupported) w

    -- handleUploadSession
    unfoldable pub handle_upload_session : Request → Bytes → Bytes → Action (World S) Response
    handle_upload_session req name id w = in_session req name (find_session id w.sessions) w
