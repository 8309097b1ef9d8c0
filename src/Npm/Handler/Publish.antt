-- ===== src/Npm/Handler/Publish.antt =====
-- internal/format/npm/handler.go: what a publish does to the document of a package.
use packrune.Prelude.{
  ℕ, ◌+◌, ◌≡◌, inl, inr, refl, ◌∙◌, Bool, true, false, ◌&&◌, Option, none, some, [], ◌∷◌, arith,
  Bytes, ◌==◌, ==_refl, is_some, or_else, All, Option-cases,
}
use packrune.Storage.{Backend}
use packrune.Storage.Contract.{IsBackend}
use packrune.Storage.Cas
use packrune.Storage.Cas.{key_for, temp_key, validate_digest}
use packrune.Storage.Cas.Hash.{IsHash}
use packrune.Storage.Cas.Keys.{IsDigest}
use packrune.Repo.Store.{get_artifact}
use packrune.Repo.Rows.{content_at, Content}
use packrune.Format.{World, Env}
use packrune.Format.Stored.{store_at_elsewhere}
use packrune.Format.Calm.{IsCalm}
use packrune.Npm.Packument.{Map, Attachment, Packument}
use packrune.Npm.Packument.Merged.{is_map, shares, merge_into-versions}
use packrune.Npm.Handler.{
  Handler, Response, failed, sent, created, octet_stream, packument_path, tarball_path, load_stored,
  store_tarball, store_attachments, merge_stored, publish,
}

tarball-ne :
    (repo pkg file pkg' : Bytes)
    → (repo == repo && tarball_path pkg file == packument_path pkg') ≡ false
unfolding tarball_path packument_path ◌==◌
tarball-ne repo pkg file pkg' = ground (arith, ==_refl repo)

module _ {S : Type 0} (sha256 : Bytes → Bytes) (b : Backend S) (h : Handler) (envs : ℕ → Env) where
  abbrev document_row : Bytes → World S → Option Content
  document_row pkg w = content_at w.db h.repo_id (packument_path pkg)

  load_stored-row :
      (pkg : Bytes) (w : World S)
      → document_row pkg (load_stored sha256 b h envs pkg w).1 ≡ document_row pkg w
  unfolding load_stored get_artifact
  load_stored-row pkg w = ground arith

  store_tarball-row :
      (n : ℕ) (pkg pkg' file : Bytes) (raw : Option Bytes) (w : World S)
      → document_row pkg' (store_tarball sha256 b h envs n pkg file raw w).1 ≡ document_row pkg' w
  store_tarball-row n pkg pkg' file none w = refl
  store_tarball-row n pkg pkg' file (some raw) w = ground (
    arith,
    store_at_elsewhere sha256 b (envs n) h.repo_id (tarball_path pkg file) octet_stream raw
        h.repo_id (packument_path pkg') w (tarball-ne h.repo_id pkg file pkg'),
  )

  -- The tarballs of a publish leave the documents alone.
  store_attachments-row :
      (n : ℕ) (pkg pkg' : Bytes) (as_ : Map Attachment) (w : World S)
      → document_row pkg' (store_attachments sha256 b h envs n pkg as_ w).1 ≡ document_row pkg' w
  unfolding store_attachments
  store_attachments-row n pkg pkg' [] w = refl
  store_attachments-row n pkg pkg' ((file, a) ∷ as_) w =
      let one = store_tarball sha256 b h envs n pkg file (h.decode a.data_) w in
      let kept = store_tarball-row n pkg pkg' file (h.decode a.data_) w in
      elim (Option-cases one.0) [
        | inl e ↦
            rw (store_attachments, e) (store_attachments-row (n + 1) pkg pkg' as_ one.1 ∙ kept)
        | inr (s, e) ↦ rw (store_attachments, e) kept
      ]

  abbrev is_failed : Response → Bool
  is_failed (failed s) = true
  is_failed (sent t n e c) = false
  is_failed (created p) = false

  publish_merged :
      (pkg : Bytes) (incoming : Packument) (w : World S)
      → let loaded = load_stored sha256 b h envs pkg w in
        publish sha256 b h envs pkg incoming w
        ≡ merge_stored sha256 b h envs pkg incoming loaded.0
            (store_attachments sha256 b h envs 1 pkg incoming.attachments loaded.1)
  unfolding publish
  publish_merged pkg incoming w = refl

  -- A publish of a version that the document has which loadStored answers is refused, with 409 unless an
  -- attachment was refused before, and the row of the document stays as it was. That document is empty
  -- when the lookup or the read of the stored one fails, and then nothing is claimed; whatever other calls
  -- fail. The versions of the publish are a map: each occurs once.
  pub publish-conflict :
      (pkg : Bytes) (incoming : Packument) (w : World S)
      → is_map incoming.versions ≡ true
      → shares (load_stored sha256 b h envs pkg w).0.versions incoming.versions ≡ true
      → let loaded = load_stored sha256 b h envs pkg w in
        let status = (store_attachments sha256 b h envs 1 pkg incoming.attachments loaded.1).0 in
        ((publish sha256 b h envs pkg incoming w).0 ≡ failed (or_else status 409))
        × (document_row pkg (publish sha256 b h envs pkg incoming w).1 ≡ document_row pkg w)
  publish-conflict pkg incoming w map_ shared =
      let loaded = load_stored sha256 b h envs pkg w in
      let stored = store_attachments sha256 b h envs 1 pkg incoming.attachments loaded.1 in
      let kept =
        store_attachments-row 1 pkg pkg incoming.attachments loaded.1 ∙ load_stored-row pkg w in
      elim (merge_into-versions [] [] incoming loaded.0 map_) [
        | inr m ↦ absurd (ground (arith, m.1, shared))
        | inl (s, refused) ↦ elim (Option-cases stored.0) [
          | inl e ↦ rw (publish_merged pkg incoming w, e, refused) (refl, kept)
          | inr (status, e) ↦ rw (publish_merged pkg incoming w, e) (refl, kept)
        ]
      ]

  module _ (hash : IsHash sha256) (object : S → Bytes → Option Bytes) (IsKey : Bytes → Type 0)
      (healthy : S → Bool) (laws : IsBackend b object IsKey healthy)
      (digest_key : (d : Bytes) → IsDigest d → IsKey (key_for d))
      (upload_key : (n : ℕ) → IsKey (temp_key (envs n).nonce)) where
    -- No call fails, and every blob is stored under its digest.
    abbrev pub Ready : World S → Type 0
    Ready = IsCalm sha256 b envs hash object IsKey healthy laws digest_key upload_key

    -- Every attachment is base64.
    abbrev pub Decodes : Map Attachment → Type 0
    Decodes as_ = All (λ (x : Bytes × Attachment). is_some (h.decode x.1.data_) ≡ true) as_
