-- ===== src/Format/Stored.antt =====
-- internal/format: what is stored at a path is found there.
use packrune.Prelude.{
  ℕ, ◌≡◌, inl, inr, refl, ◌∙◌, Bool, true, false, ◌&&◌, ◌==◌, Option, none, some, List, [], arith,
  Bytes, length, ==_refl, Option-cases,
}
use packrune.Action.{ok, Result-cases}
use packrune.Storage.{Backend}
use packrune.Storage.Contract.{IsBackend}
use packrune.Storage.Cas
use packrune.Storage.Cas.{key_for, temp_key, digest_of}
use packrune.Storage.Cas.Hash.{IsHash}
use packrune.Storage.Cas.Keys.{IsDigest}
use packrune.Storage.Cas.Addressed.{IsAddressed, get-put, put-IsAddressed, put_ok}
use packrune.Repo.Tables.{Artifact, Db}
use packrune.Repo.Store.{upsert_artifact, default_metadata}
use packrune.Repo.Rows.{content_at, find_in, upsert_artifact-content, Content}
use packrune.Repo.Resolve.{resolve_artifact, resolve_artifact-visible, visible}
use packrune.Format.{World, Env, store_at, store_with}

-- The row of a body.
abbrev pub row_of : Bytes → Bytes → Bytes → Bytes → Content
row_of d media_type metadata body = record {
  digest = d;
  size = length body;
  media_type = media_type;
  metadata = default_metadata metadata;
}

-- A row that is there is resolved to.
pub resolve-content :
    (members : Bytes → List Bytes) (repo path : Bytes) (row : Content) (db : Db)
    → db.faults ≡ []
    → content_at db repo path ≡ some row
    → (a : Artifact) × (resolve_artifact members repo path db ≡ (ok a, db))
      × (a.digest ≡ row.digest)
unfolding visible
resolve-content members repo path row db calm bound = elim (Option-cases (find_in db repo path)) [
  | inl e ↦ absurd (ground arith)
  | inr (a, e) ↦ (a, resolve_artifact-visible members repo path db calm ∙ rw e refl, ground arith)
]

-- What a client finds at a path: a row, and bytes of the digest of what was stored, which are the
-- stored bytes themselves if nothing was there under the digest.
pub record IsStored {S : Type 0} (sha256 : Bytes → Bytes) (b : Backend S)
    (object : S → Bytes → Option Bytes) (members : Bytes → List Bytes) (repo path body : Bytes)
    (before : S) (w : World S) : Type 0 where
  pub row : Artifact
  pub bytes : Bytes
  pub resolved : resolve_artifact members repo path w.db ≡ (ok row, w.db)
  pub got : (Cas.get b row.digest w.storage).0 ≡ ok bytes
  pub same : digest_of sha256 bytes ≡ digest_of sha256 body
  pub whole : object before (key_for (digest_of sha256 body)) ≡ none → bytes ≡ body

module _ {S : Type 0} (sha256 : Bytes → Bytes) (b : Backend S) (env : Env) where
  pub store_with_calm :
      (repo path media_type metadata body d : Bytes) (n : ℕ) (w : World S)
      → w.db.faults ≡ []
      → (Cas.put sha256 b env.nonce body w.storage).0 ≡ ok (d, n)
      → let done = store_with sha256 b env repo path media_type metadata body w in
        (done.0 ≡ ok tt)
        × (done.1.db.faults ≡ [])
        × (done.1.storage ≡ (Cas.put sha256 b env.nonce body w.storage).1)
        × (content_at done.1.db repo path ≡ some (row_of d media_type metadata body))
  unfolding upsert_artifact
  store_with_calm repo path media_type metadata body d n w calm stored = (
    rw stored (ground (arith, calm)),
    rw stored (ground (arith, calm)),
    rw stored (ground (arith, calm)),
    rw stored (
        ground (
          arith,
          calm,
          upsert_artifact-content env.row_id env.now repo path d (length body) media_type metadata
              repo path w.db,
          ==_refl repo,
          ==_refl path,
        )),
  )

  -- A store at a path leaves the rows at the others, whatever fails.
  pub store_with_elsewhere :
      (repo path media_type metadata body repo' path' : Bytes) (w : World S)
      → (repo == repo' && path == path') ≡ false
      → content_at (store_with sha256 b env repo path media_type metadata body w).1.db repo' path'
        ≡ content_at w.db repo' path'
  store_with_elsewhere repo path media_type metadata body repo' path' w other =
      elim (Result-cases (Cas.put sha256 b env.nonce body w.storage).0) [
        | inr (e, failed) ↦ rw failed refl
        | inl ((d, n), stored) ↦ rw stored (
            ground (
              arith,
              other,
              upsert_artifact-content env.row_id env.now repo path d (length body) media_type
                  metadata repo' path' w.db,
            ))
      ]

  pub store_at_elsewhere :
      (repo path media_type body repo' path' : Bytes) (w : World S)
      → (repo == repo' && path == path') ≡ false
      → content_at (store_at sha256 b env repo path media_type body w).1.db repo' path'
        ≡ content_at w.db repo' path'
  store_at_elsewhere repo path media_type body = store_with_elsewhere repo path media_type [] body

  module _ (hash : IsHash sha256) (object : S → Bytes → Option Bytes) (IsKey : Bytes → Type 0)
      (healthy : S → Bool) (laws : IsBackend b object IsKey healthy)
      (digest_key : (d : Bytes) → IsDigest d → IsKey (key_for d))
      (upload_key : IsKey (temp_key env.nonce)) where
    -- When no call fails, what is stored at a path is found there.
    pub store_at-IsStored :
        (members : Bytes → List Bytes) (repo path media_type body : Bytes) (w : World S)
        → healthy w.storage ≡ true
        → IsAddressed sha256 hash b object IsKey healthy laws digest_key env.nonce upload_key
            w.storage
        → w.db.faults ≡ []
        → let done = store_at sha256 b env repo path media_type body w in
          (done.0 ≡ ok tt)
          × IsStored sha256 b object members repo path body w.storage done.1
          × (done.1.db.faults ≡ [])
          × (healthy done.1.storage ≡ true)
          × IsAddressed sha256 hash b object IsKey healthy laws digest_key env.nonce upload_key
              done.1.storage
    store_at-IsStored members repo path media_type body w well inv calm =
        let d = digest_of sha256 body in
        let kept =
          get-put sha256 hash b object IsKey healthy laws digest_key env.nonce upload_key body
            w.storage well inv in
        let done = store_with_calm repo path media_type [] body d (length body) w calm kept.0 in
        let w1 = (store_at sha256 b env repo path media_type body w).1 in
        let row =
          resolve-content members repo path (row_of d media_type [] body) w1.db done.1 done.3 in
        (
          done.0,
          record {
            row = row.0;
            bytes = kept.1;
            resolved = row.1;
            got = rw (row.2, done.2) kept.2;
            same = kept.3;
            whole = kept.4;
          },
          done.1,
          rw done.2
              (put_ok sha256 hash b object IsKey healthy laws digest_key env.nonce upload_key body
                w.storage well).1,
          rw done.2 (
              put-IsAddressed sha256 hash b object IsKey healthy laws digest_key env.nonce
                upload_key body w.storage inv),
        )
