-- ===== src/Gomod/Handler/Publish.antt =====
-- internal/format/gomod/handler.go: a file of a version that was published can be downloaded.
use packrune.Prelude.{
  ℕ, ◌≡◌, ◌≢◌, ◌⊎◌, inl, inr, refl, ◌∙◌, Bool, true, false, Option, none, some, [], ◌∷◌, arith,
  Bytes, codes, ◌==◌, eq_iff, or_else, if◌then◌else◌, Bool-cases, eq_of_==,
}
use mathlib.Core.Path.{ap₂}
use packrune.Action.{ok}
use packrune.Storage.{Backend}
use packrune.Storage.Contract.{IsBackend}
use packrune.Storage.Disk.{take}
use packrune.Storage.Cas
use packrune.Storage.Cas.{key_for, temp_key, digest_of}
use packrune.Storage.Cas.Hash.{IsHash}
use packrune.Storage.Cas.Keys.{IsDigest}
use packrune.Storage.Cas.Addressed.{IsAddressed}
use packrune.Repo.Resolve.{resolve_artifact}
use packrune.Repo.Tables.{Artifact}
use packrune.Format.Stored.{store_at-IsStored}
use packrune.Format.{World, Request, Env}
use packrune.Gomod.Handler.{
  Info, or_version, or_now, filled, Handler, created, version_path, content_type_for, version_file,
  max_bytes, store_file, prepared, upload_version_file, serve_version_file,
}

-- What is kept of the body of an upload: all of it, or for an .info file what it says, with the version of
-- the path and the time of the upload where it says none, as encoding/json prints it.
abbrev pub IsKept : Handler → ℕ → Bytes → Bytes → Bytes → Bytes → Type 0
IsKept h now v ext body kept =
    ((ext ≢ codes ".info") × (kept ≡ body))
    ⊎ ((i : Info) × (ext ≡ codes ".info")
        × (h.json_valid body ≡ true)
        × (h.parse_info body ≡ some i)
        × (h.print_info (record {
          version = if i.version == [] then v else i.version;
          time = some (or_else i.time now);
        })
            ≡ some kept))

or_version-== : (s v : Bytes) → or_version s v ≡ (if s == [] then v else s)
unfolding ◌==◌
or_version-== [] v = refl
or_version-== (c ∷ s) v = refl

or_now-or_else : (t : Option ℕ) (now : ℕ) → or_now t now ≡ or_else t now
or_now-or_else none now = refl
or_now-or_else (some t) now = refl

module _ {S : Type 0} (sha256 : Bytes → Bytes) (b : Backend S) (h : Handler) (env : Env) where
  prepared-IsKept :
      (v ext body kept : Bytes)
      → IsKept h env.now v ext body kept
      → prepared sha256 b h env v ext body ≡ inr kept
  unfolding prepared
  prepared-IsKept v ext body kept (inl (other, same)) =
      let not_info : (ext == codes ".info") ≡ false = elim (Bool-cases (ext == codes ".info")) [
        | inl e ↦ absurd (other (eq_of_== ext (codes ".info") e))
        | inr e ↦ e
      ] in
      rw (not_info, same) refl
  prepared-IsKept v ext body kept (inr (i, at_, valid, parsed, printed)) =
      let filled_in : filled sha256 b h env v i ≡ some kept =
        ap₂ (λ (s : Bytes) (t : ℕ). h.print_info (record { version = s; time = some t }))
          (or_version-== i.version v) (or_now-or_else i.time env.now)
        ∙ printed in
      rw ((eq_iff ext (codes ".info")).1 at_, valid, parsed, filled, filled_in) refl

  upload_branch :
      (req : Request) (m v ext body : Bytes) (w : World S)
      → req.body_fails ≡ false
      → prepared sha256 b h env v ext (take max_bytes req.body) ≡ inr body
      → (store_file sha256 b h env m v ext body w).0 ≡ ok tt
      → upload_version_file sha256 b h env req m v ext w
        ≡ (created m v ext, (store_file sha256 b h env m v ext body w).1)
  unfolding upload_version_file
  upload_branch req m v ext body w readable ready stored =
      rw (readable, ready) (ground (arith, stored))

  serve_stored :
      (req : Request) (m v ext c : Bytes) (a : Artifact) (w : World S)
      → resolve_artifact h.members h.repo_id (version_path m v ext) w.db ≡ (ok a, w.db)
      → (Cas.get b a.digest w.storage).0 ≡ ok c
      → (serve_version_file sha256 b h env req m v ext w).0 ≡ version_file req.method ext c
  unfolding serve_version_file
  serve_stored req m v ext c a w found got = rw (found, got) refl

  module _ (hash : IsHash sha256) (object : S → Bytes → Option Bytes) (IsKey : Bytes → Type 0)
      (healthy : S → Bool) (laws : IsBackend b object IsKey healthy)
      (digest_key : (d : Bytes) → IsDigest d → IsKey (key_for d))
      (upload_key : IsKey (temp_key env.nonce)) where
    -- When no call fails and every blob is stored under its digest, the upload of a file of a
    -- version is answered 201, and a download of the file then delivers bytes of the digest of what
    -- is kept: the uploaded bytes up to the limit, or for an .info file its text with the version and
    -- the time filled in, if it is valid. They are these bytes themselves, if no blob was there under
    -- the digest.
    pub publish-serve :
        (req get : Request) (m v ext body : Bytes) (w : World S)
        → healthy w.storage ≡ true
        → IsAddressed sha256 hash b object IsKey healthy laws digest_key env.nonce upload_key
            w.storage
        → w.db.faults ≡ []
        → req.body_fails ≡ false
        → IsKept h env.now v ext (take max_bytes req.body) body
        → let done = upload_version_file sha256 b h env req m v ext w in
          (done.0 ≡ created m v ext)
          × (c : Bytes) × ((serve_version_file sha256 b h env get m v ext done.1).0
              ≡ version_file get.method ext c)
          × (digest_of sha256 c ≡ digest_of sha256 body)
          × (object w.storage (key_for (digest_of sha256 body)) ≡ none → c ≡ body)
    publish-serve req get m v ext body w well inv calm readable kept =
        let ready = prepared-IsKept v ext (take max_bytes req.body) body kept in
        let done =
          store_at-IsStored sha256 b env hash object IsKey healthy laws digest_key upload_key
            h.members h.repo_id (version_path m v ext) (content_type_for ext) body w well inv
            calm in
        let w1 = (store_file sha256 b h env m v ext body w).1 in
        let file = done.1 in
        rw (upload_branch req m v ext body w readable ready done.0) (
          refl,
          file.bytes,
          serve_stored get m v ext file.bytes file.row w1 file.resolved file.got,
          file.same,
          file.whole,
        )
