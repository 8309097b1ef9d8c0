-- ===== src/Docker/Handler/Push.antt =====
-- internal/format/docker/manifest.go: a manifest that was pushed can be pulled.
use packrune.Prelude.{
  ℕ, ◌≡◌, inl, inr, refl, ap, ◌∙◌, Bool, true, false, not, ◌&&◌, ◌||◌, Option, none, some, [], ◌∷◌,
  arith, Bytes, codes, length, ◌==◌, eq_iff, ==_refl, if◌then◌else◌, has_prefix, Option-cases,
  Bool-cases,
}
use packrune.Action.{Result, ok}
use packrune.Storage.{Backend}
use packrune.Storage.Contract.{IsBackend}
use packrune.Storage.Disk.{take}
use packrune.Storage.Cas
use packrune.Storage.Cas.{key_for, temp_key, digest_of}
use packrune.Storage.Cas.Hash.{IsHash}
use packrune.Storage.Cas.Keys.{IsDigest}
use packrune.Storage.Cas.Addressed.{IsAddressed, get-put}
use packrune.Repo.Store.{upsert_artifact}
use packrune.Repo.Rows.{Content, content_at, find_in, upsert_artifact-content}
use packrune.Repo.Resolve.{resolve_artifact, resolve_artifact-visible, visible}
use packrune.Docker.Route.{validate_name}
use packrune.Docker.World.{World, Response, Request, Env, content}
use packrune.Docker.Proxy.{Handler, manifest_path, manifest_type, or_default, bind_row}
use packrune.Docker.Handler.{
  manifest_limit, manifest_created, answer, store_manifest, upload_manifest, serve_manifest,
  handle_manifest,
}

-- The row that a manifest is bound by.
abbrev pub manifest_row : Bytes → ℕ → Bytes → Content
manifest_row digest size media_type = record {
  digest = digest;
  size = size;
  media_type = media_type;
  metadata = codes "{}";
}

-- The references that a push binds.
abbrev pub is_bound : Bytes → Bytes → Bytes → Bool
is_bound digest reference r =
    r == digest || not (has_prefix reference (codes "sha256:")) && r == reference

or_default_twice :
    (m : Bytes) → or_default (or_default m manifest_type) manifest_type ≡ or_default m manifest_type
or_default_twice [] = refl
or_default_twice (c ∷ m) = refl

module _ {S : Type 0} (sha256 : Bytes → Bytes) (b : Backend S) (h : Handler) (env : Env) where
  abbrev digest : Bytes → Bytes
  digest body = digest_of sha256 body

  bind_row_calm :
      (id path d : Bytes) (n : ℕ) (media_type path' : Bytes) (w : World S)
      → w.db.faults ≡ []
      → let done = bind_row sha256 b h env id path d n media_type w in
        (done.0 ≡ ok tt)
        × (done.1.db.faults ≡ [])
        × (done.1.storage ≡ w.storage)
        × (content_at done.1.db h.repo_id path' ≡ (
            if path == path'
            then some (manifest_row d n media_type)
            else content_at w.db h.repo_id path'))
  unfolding upsert_artifact
  bind_row_calm id path d n media_type path' w calm = (
    ground arith,
    ground arith,
    ground arith,
    ground (
      arith,
      upsert_artifact-content id env.now h.repo_id path d n media_type [] h.repo_id path' w.db,
      ==_refl h.repo_id,
    ),
  )

  store_manifest_calm :
      (name reference content_type body r : Bytes) (w : World S) (n : ℕ)
      → w.db.faults ≡ []
      → (Cas.put sha256 b env.nonce body w.storage).0 ≡ ok (digest body, n)
      → is_bound (digest body) reference r ≡ true
      → let done = store_manifest sha256 b h env name reference content_type body w in
        (done.0 ≡ ok (manifest_created name (digest body)))
        × (done.1.db.faults ≡ [])
        × (done.1.storage ≡ (Cas.put sha256 b env.nonce body w.storage).1)
        × (content_at done.1.db h.repo_id (manifest_path name r)
            ≡ some
                (manifest_row (digest body) (length body) (or_default content_type manifest_type)))
  unfolding store_manifest
  store_manifest_calm name reference content_type body r w n calm stored bound =
      let d = digest body in
      let m = or_default content_type manifest_type in
      let path = manifest_path name r in
      let w1 : World S = record w { storage = (Cas.put sha256 b env.nonce body w.storage).1 } in
      let tag =
        bind_row_calm env.row_id (manifest_path name reference) d (length body) m path w1 calm in
      let w2 =
        (bind_row sha256 b h env env.row_id (manifest_path name reference) d (length body) m
          w1).1 in
      let tagged =
        bind_row_calm env.second_row_id (manifest_path name d) d (length body) m path w2 tag.1 in
      let untagged =
        bind_row_calm env.second_row_id (manifest_path name d) d (length body) m path w1 calm in
      elim (Bool-cases (has_prefix reference (codes "sha256:"))) [
        | inl e ↦ rw (stored, e) (ground (arith, e, untagged, eq_iff r d, ==_refl path))
        | inr e ↦
            rw (stored, e)
              (ground (arith, e, tag, tagged, eq_iff r d, eq_iff r reference, ==_refl path))
      ]

  put_branch :
      (req : Request) (name reference : Bytes) (w : World S)
      → validate_name name ≡ true
      → req.method ≡ codes "PUT"
      → req.body_fails ≡ false
      → h.json_valid (take manifest_limit req.body) ≡ true
      → handle_manifest sha256 b h env req name reference w
        ≡ store_manifest sha256 b h env name reference req.content_type
            (take manifest_limit req.body)
            w
  unfolding handle_manifest upload_manifest ◌==◌
  put_branch req name reference w valid put readable json = rw (valid, put, readable, json)

  get_branch :
      (req : Request) (name r : Bytes) (w : World S)
      → validate_name name ≡ true
      → req.method ≡ codes "GET"
      → handle_manifest sha256 b h env req name r w ≡ serve_manifest sha256 b h env name r false w
  unfolding handle_manifest ◌==◌
  get_branch req name r w valid get = rw (valid, get)

  serve_manifest_calm :
      (name r d c m : Bytes) (n : ℕ) (w : World S)
      → w.db.faults ≡ []
      → content_at w.db h.repo_id (manifest_path name r) ≡ some (manifest_row d n m)
      → (Cas.get b d w.storage).0 ≡ ok c
      → (serve_manifest sha256 b h env name r false w).0
        ≡ ok (answer 200 (or_default m manifest_type) d (length c) (content c))
  unfolding serve_manifest visible
  serve_manifest_calm name r d c m n w calm bound got =
      let path = manifest_path name r in
      elim (Option-cases (find_in w.db h.repo_id path)) [
        | inl e ↦ absurd (ground arith)
        | inr (a, e) ↦
            let found : resolve_artifact h.members h.repo_id path w.db ≡ (ok a, w.db) =
              resolve_artifact-visible h.members h.repo_id path w.db calm ∙ rw e in
            let same : a.digest ≡ d = ground arith in rw found (rw (same, got) (ground arith))
      ]

  module _ (hash : IsHash sha256) (object : S → Bytes → Option Bytes) (IsKey : Bytes → Type 0)
      (healthy : S → Bool) (laws : IsBackend b object IsKey healthy)
      (digest_key : (d : Bytes) → IsDigest d → IsKey (key_for d))
      (upload_key : IsKey (temp_key env.nonce)) where
    abbrev handle : Request → Bytes → Bytes → World S → Result Response × World S
    handle req name r w = handle_manifest sha256 b h env req name r w

    abbrev pushed : Request → Bytes
    pushed req = take manifest_limit req.body

    -- When no call fails and every blob is stored under its digest, the PUT of a manifest, under a
    -- valid image name and with a body that is valid JSON, is answered 201 with the digest of its
    -- bytes, and a GET of any reference that it binds then answers 200 with that digest, the media
    -- type that was pushed and bytes of that digest: the pushed bytes themselves, if no blob was
    -- there under the digest.
    pub push-pull :
        (req pull : Request) (name reference r : Bytes) (w : World S)
        → healthy w.storage ≡ true
        → IsAddressed sha256 hash b object IsKey healthy laws digest_key env.nonce upload_key
            w.storage
        → w.db.faults ≡ []
        → validate_name name ≡ true
        → req.method ≡ codes "PUT"
        → req.body_fails ≡ false
        → h.json_valid (pushed req) ≡ true
        → pull.method ≡ codes "GET"
        → is_bound (digest (pushed req)) reference r ≡ true
        → ((handle req name reference w).0 ≡ ok (manifest_created name (digest (pushed req))))
          × (c : Bytes) × ((handle pull name r (handle req name reference w).1).0
              ≡ ok (
                  answer 200
                    (or_default req.content_type manifest_type)
                    (digest (pushed req))
                    (length c)
                    (content c)))
          × (digest c ≡ digest (pushed req))
          × (object w.storage (key_for (digest (pushed req))) ≡ none → c ≡ pushed req)
    push-pull req pull name reference r w well inv calm valid put readable json get bound =
        let body = pushed req in
        let d = digest body in
        let kept =
          get-put sha256 hash b object IsKey healthy laws digest_key env.nonce upload_key body
            w.storage well inv in
        let stored =
          store_manifest_calm name reference req.content_type body r w (length body) calm kept.0
            bound in
        let w1 = (store_manifest sha256 b h env name reference req.content_type body w).1 in
        let c = kept.1 in
        let got : (Cas.get b d w1.storage).0 ≡ ok c = rw stored.2 kept.2 in
        let pulled =
          serve_manifest_calm name r d c (or_default req.content_type manifest_type) (length body)
            w1 stored.1 stored.3 got in
        rw (put_branch req name reference w valid put readable json) (
          stored.0,
          c,
          ap (λ (x : Result Response × World S). x.0) (get_branch pull name r w1 valid get)
              ∙ pulled
              ∙ ap (λ (m : Bytes). ok (answer 200 m d (length c) (content c)))
                  (or_default_twice req.content_type),
          kept.3,
          kept.4,
        )
