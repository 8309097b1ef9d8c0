-- ===== src/Maven/Handler/Upload.antt =====
-- internal/format/maven/handler.go: what an upload makes available.
use packrune.Prelude.{ℕ, ◌≡◌, refl, Bool, false, Option, none, [], arith, Bytes}
use packrune.Action.{Result, ok, err}
use packrune.Storage.{Backend}
use packrune.Storage.Disk.{take}
use packrune.Storage.Contract.{IsBackend}
use packrune.Storage.Cas.{key_for, temp_key, digest_of}
use packrune.Storage.Cas.Hash.{IsHash}
use packrune.Storage.Cas.Keys.{IsDigest}
use packrune.Repo.Tables.{Engine}
use packrune.Format.{World, Request, Env, store_at}
use packrune.Format.Calm.{store_with-Holds, Holds-found}
use packrune.Maven.Path.{split_artifact_path, content_type_for}
use packrune.Maven.Path.Ends.{is_primary_artifact-last}
use packrune.Maven.Handler.{
  Handler, created, file_path, file_sent, max_bytes, serve_file, after_upload, stored_file,
  upload_file,
}
use packrune.Maven.Handler.Spares.{Ready, Has, after_upload-Spares, metadata_path-ne}

module _ {S : Type 0} (sha256 : Bytes → Bytes) (b : Backend S) (engine : Engine) (h : Handler)
    (envs : ℕ → Env) (hash : IsHash sha256) (object : S → Bytes → Option Bytes)
    (IsKey : Bytes → Type 0) (healthy : S → Bool) (laws : IsBackend b object IsKey healthy)
    (digest_key : (d : Bytes) → IsDigest d → IsKey (key_for d))
    (upload_key : (n : ℕ) → IsKey (temp_key (envs n).nonce)) where
  pub upload_stored :
      (req : Request) (p : Bytes) (w : World S)
      → req.body_fails ≡ false
      → let body = take max_bytes req.body in
        let stored =
          store_at sha256 b (envs 0) h.repo_id (file_path p) (content_type_for p) body w in
        stored.0 ≡ ok tt
        → upload_file sha256 b engine h envs req p w
          ≡ (created, after_upload sha256 b engine h envs p body stored.1)
  unfolding upload_file
  upload_stored req p w readable stored = rw readable (
      branch
        (store_at sha256 b (envs 0) h.repo_id (file_path p) (content_type_for p)
          (take max_bytes req.body) w)
        stored)
    where
      branch :
          (r : Result (Unit {0}) × World S)
          → r.0 ≡ ok tt
          → stored_file sha256 b engine h envs p (take max_bytes req.body) r
            ≡ (created, after_upload sha256 b engine h envs p (take max_bytes req.body) r.1)
      branch (ok u, w') e = refl
      branch (err x, w') e = absurd (ground (arith, e))

  pub serve_held :
      (method p media_type body : Bytes) (before : S) (w : World S)
      → Ready sha256 b engine h envs hash object IsKey healthy laws digest_key upload_key w
      → (held : Has sha256 b engine h envs hash object IsKey healthy laws digest_key upload_key
          (file_path p)
          media_type
          body
          before
          w)
      → (serve_file sha256 b engine h envs method p w).0 ≡ file_sent method p held.bytes
  unfolding serve_file
  serve_held method p media_type body before w ready held =
      let found =
        Holds-found sha256 b envs hash object IsKey healthy laws digest_key upload_key h.members
          h.repo_id (file_path p) media_type [] body before w ready held in
      rw (found.1, found.2) refl

  -- When no call fails and every blob is stored under its digest, an upload is answered 201, and a
  -- download of the path then delivers bytes of the digest of what was stored, which are those bytes
  -- if no blob was there under the digest: neither the checksums nor the document of versions that a
  -- primary artifact brings about take its place.
  pub upload_file-serve_file :
      (req : Request) (method p : Bytes) (w : World S)
      → Ready sha256 b engine h envs hash object IsKey healthy laws digest_key upload_key w
      → req.body_fails ≡ false
      → let body = take max_bytes req.body in
        let done = upload_file sha256 b engine h envs req p w in
        (done.0 ≡ created)
        × (c : Bytes) × ((serve_file sha256 b engine h envs method p done.1).0
            ≡ file_sent method p c)
        × (digest_of sha256 c ≡ digest_of sha256 body)
        × (object w.storage (key_for (digest_of sha256 body)) ≡ none → c ≡ body)
  upload_file-serve_file req method p w ready readable =
      let body = take max_bytes req.body in
      let media_type = content_type_for p in
      let one =
        store_with-Holds sha256 b envs hash object IsKey healthy laws digest_key upload_key 0
          h.repo_id (file_path p) media_type [] body w ready in
      let w1 = (store_at sha256 b (envs 0) h.repo_id (file_path p) media_type body w).1 in
      let done =
        after_upload-Spares sha256 b engine h envs hash object IsKey healthy laws digest_key
          upload_key p body (file_path p) media_type body w.storage w1
          (λ e.
            let ended = is_primary_artifact-last p e in
            metadata_path-ne (split_artifact_path p) p ended.0 ended.1)
          one.2 in
      let held = done.1 one.1 in
      rw (upload_stored req p w readable one.0) (
        refl,
        held.bytes,
        serve_held method p media_type body w.storage
            (after_upload sha256 b engine h envs p body w1) done.0 held,
        held.same,
        held.whole,
      )
