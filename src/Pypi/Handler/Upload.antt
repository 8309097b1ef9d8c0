-- ===== src/Pypi/Handler/Upload.antt =====
-- internal/format/pypi/handler.go: a file that is uploaded can be downloaded under the normal form of its
-- package's name.
use packrune.Prelude.{
  ℕ, ◌≡◌, refl, Bool, false, Option, none, some, [], ◌++◌, arith, Bytes, codes, ◌==◌, has_prefix,
  trim_prefix, strip_prefix?, IsField, cut_field,
}
use packrune.Action.{Result, ok, err}
use packrune.Storage.{Backend}
use packrune.Storage.Disk.{take}
use packrune.Storage.Contract.{IsBackend}
use packrune.Storage.Cas.{key_for, temp_key, digest_of}
use packrune.Storage.Cas.Hash.{IsHash}
use packrune.Storage.Cas.Keys.{IsDigest}
use packrune.Repo.Tables.{Engine, kind_proxy}
use packrune.Repo.Resolve.{get_artifact_calm}
use packrune.Format.{World, Env, store_with}
use packrune.Format.Calm.{IsCalm, Holds, store_with-Holds, Holds-row}
use packrune.Pypi.Name.{normalize}
use packrune.Pypi.Handler.{
  FormFile, Form, Request, Handler, uploaded, octet_stream, package_path, max_bytes, file_sent,
  uploaded_or, handle_upload, handle_download, serve,
}

module _ {S : Type 0} (sha256 : Bytes → Bytes) (b : Backend S) (engine : Engine) (h : Handler)
    (envs : ℕ → Env) (hash : IsHash sha256) (object : S → Bytes → Option Bytes)
    (IsKey : Bytes → Type 0) (healthy : S → Bool) (laws : IsBackend b object IsKey healthy)
    (digest_key : (d : Bytes) → IsDigest d → IsKey (key_for d))
    (upload_key : (n : ℕ) → IsKey (temp_key (envs n).nonce)) where
  upload_stored :
      (req : Request) (form : Form) (f : FormFile) (w : World S)
      → req.form ≡ some form
      → (form.name == []) ≡ false
      → form.file ≡ some f
      → f.content_fails ≡ false
      → let stored =
          store_with sha256 b
            (envs 0)
            h.repo_id
            (package_path (normalize h.lower form.name) f.filename)
            octet_stream
            (h.upload_meta form.name form.version)
            (take max_bytes f.content)
            w in
        stored.0 ≡ ok tt → handle_upload sha256 b engine h envs req w ≡ (uploaded, stored.1)
  unfolding handle_upload
  upload_stored req form f w parsed named there readable stored =
      rw (parsed, named, there, readable) (branch _ stored)
    where
      branch :
          (r : Result (Unit {0}) × World S)
          → r.0 ≡ ok tt
          → uploaded_or sha256 b engine h envs r ≡ (uploaded, r.1)
      branch (ok u, w') e = refl
      branch (err x, w') e = absurd (ground (arith, e))

  -- A file of a repository that is no proxy and that holds it is sent.
  download_held :
      (method pkg file media_type metadata body : Bytes) (before : S) (w : World S)
      → (h.repo_kind == kind_proxy) ≡ false
      → IsCalm sha256 b envs hash object IsKey healthy laws digest_key upload_key w
      → (held : Holds sha256 b envs hash object IsKey healthy laws digest_key upload_key h.repo_id
          (package_path pkg file)
          media_type
          metadata
          body
          before
          w)
      → (handle_download sha256 b engine h envs method pkg file w).0 ≡ file_sent method held.bytes
  unfolding handle_download
  download_held method pkg file media_type metadata body before w hosted c held =
      let row =
        Holds-row sha256 b envs hash object IsKey healthy laws digest_key upload_key h.repo_id
          (package_path pkg file) media_type metadata body before w c held in
      rw (get_artifact_calm w.db c.calm h.repo_id (package_path pkg file), row.1, hosted, row.2)
        refl

  -- The requests of an upload and of a download reach their handlers.
  serve_upload :
      (req : Request) (w : World S)
      → req.path ≡ codes "/"
      → req.method ≡ codes "POST"
      → serve sha256 b engine h envs req w ≡ handle_upload sha256 b engine h envs req w
  unfolding serve trim_prefix strip_prefix? ◌==◌
  serve_upload req w root post = rw (root, post) refl

  serve_download :
      (req : Request) (pkg file : Bytes) (w : World S)
      → IsField pkg
      → req.path ≡ codes "/" ++ package_path pkg file
      → serve sha256 b engine h envs req w
        ≡ handle_download sha256 b engine h envs req.method pkg file w
  unfolding serve package_path trim_prefix has_prefix strip_prefix? ◌==◌
  serve_download req pkg file w field at_ = rw (at_, cut_field pkg file field) refl

  -- When no call fails and every blob is stored under its digest, the upload of a form with a name and a
  -- readable file is answered 200, and in a repository that is no proxy a request for the file under the
  -- normal form of the name, if that has no slash, then delivers bytes of the digest of what was
  -- stored, which are those bytes if no blob was there under the digest.
  pub upload-download :
      (req get : Request) (form : Form) (f : FormFile) (w : World S)
      → IsCalm sha256 b envs hash object IsKey healthy laws digest_key upload_key w
      → (h.repo_kind == kind_proxy) ≡ false
      → IsField (normalize h.lower form.name)
      → req.path ≡ codes "/"
      → req.method ≡ codes "POST"
      → req.form ≡ some form
      → (form.name == []) ≡ false
      → form.file ≡ some f
      → f.content_fails ≡ false
      → get.path ≡ codes "/" ++ package_path (normalize h.lower form.name) f.filename
      → let body = take max_bytes f.content in
        let done = serve sha256 b engine h envs req w in
        (done.0 ≡ uploaded)
        × (c : Bytes) × ((serve sha256 b engine h envs get done.1).0 ≡ file_sent get.method c)
        × (digest_of sha256 c ≡ digest_of sha256 body)
        × (object w.storage (key_for (digest_of sha256 body)) ≡ none → c ≡ body)
  upload-download req get form f w c hosted field root post parsed named there readable at_ =
      let pkg = normalize h.lower form.name in
      let meta = h.upload_meta form.name form.version in
      let body = take max_bytes f.content in
      let one =
        store_with-Holds sha256 b envs hash object IsKey healthy laws digest_key upload_key 0
          h.repo_id (package_path pkg f.filename) octet_stream meta body w c in
      let w1 =
        (store_with sha256 b (envs 0) h.repo_id (package_path pkg f.filename) octet_stream meta body
          w).1 in
      rw
        (
          serve_upload req w root post,
          upload_stored req form f w parsed named there readable one.0,
          serve_download get pkg f.filename w1 field at_,
        )
        (
          refl,
          one.1.bytes,
          download_held get.method pkg f.filename octet_stream meta body w.storage w1 hosted one.2
              one.1,
          one.1.same,
          one.1.whole,
        )
