-- ===== src/Format/Calm.antt =====
-- internal/format: a state in which no call fails, and what stays readable there while a handler stores
-- other things.
use packrune.Prelude.{
  ℕ, ◌≡◌, inl, inr, sym, ◌∙◌, Bool, true, false, Option, none, some, List, [], arith, Bytes, ◌==◌,
  eq_iff, Bool-cases, Option-cases,
}
use packrune.Action.{ok}
use packrune.Storage.{Backend}
use packrune.Storage.Contract.{IsBackend}
use packrune.Storage.Cas
use packrune.Storage.Cas.{key_for, temp_key, digest_of, validate_digest}
use packrune.Storage.Cas.Hash.{IsHash}
use packrune.Storage.Cas.Keys.{IsDigest, digest_of-IsDigest}
use packrune.Storage.Cas.Addressed.{
  IsAddressed, put_ok, put-IsAddressed, get-put, put_known, put_elsewhere,
}
use packrune.Repo.Tables.{Artifact}
use packrune.Repo.Rows.{content_at, find_in}
use packrune.Repo.Resolve.{resolve_artifact}
use packrune.Format.{World, Env, on_storage, store_at, store_with}
use packrune.Format.Stored.{
  IsStored, store_with_calm, store_with_elsewhere, store_at-IsStored, row_of, resolve-content,
}

module _ {S : Type 0} (sha256 : Bytes → Bytes) (b : Backend S) (envs : ℕ → Env)
    (hash : IsHash sha256) (object : S → Bytes → Option Bytes) (IsKey : Bytes → Type 0)
    (healthy : S → Bool) (laws : IsBackend b object IsKey healthy)
    (digest_key : (d : Bytes) → IsDigest d → IsKey (key_for d))
    (upload_key : (n : ℕ) → IsKey (temp_key (envs n).nonce)) where
  -- No call fails, and every blob is stored under its digest.
  pub record IsCalm (w : World S) : Type 0 where
    pub well : healthy w.storage ≡ true
    pub addressed :
        IsAddressed sha256 hash b object IsKey healthy laws digest_key
          (envs 0).nonce
          (upload_key 0)
          w.storage
    pub calm : w.db.faults ≡ []

  any_nonce :
      (m n : ℕ) (s : S)
      → IsAddressed sha256 hash b object IsKey healthy laws digest_key
          (envs m).nonce
          (upload_key m)
          s
      → IsAddressed sha256 hash b object IsKey healthy laws digest_key
          (envs n).nonce
          (upload_key n)
          s
  unfolding IsAddressed
  any_nonce m n s h = h

  -- A store then answers no error, and the body is found at its path.
  pub store_at-IsCalm :
      (n : ℕ) (members : Bytes → List Bytes) (repo path media_type body : Bytes) (w : World S)
      → IsCalm w
      → let done = store_at sha256 b (envs n) repo path media_type body w in
        (done.0 ≡ ok tt)
        × IsStored sha256 b object members repo path body w.storage done.1
        × IsCalm done.1
  store_at-IsCalm n members repo path media_type body w c =
      let done =
        store_at-IsStored sha256 b (envs n) hash object IsKey healthy laws digest_key (upload_key n)
          members repo path media_type body w c.well (any_nonce 0 n w.storage c.addressed) c.calm in
      (done.0, done.1, record { well = done.3; addressed = any_nonce n 0 _ done.4; calm = done.2 })

  pub get-IsCalm : (d : Bytes) (w : World S) → IsCalm w → IsCalm (on_storage (Cas.get b d) w).1
  unfolding Cas.get IsAddressed
  get-IsCalm d w c = elim (Bool-cases (validate_digest d)) [
    | inr e ↦ rw e c
    | inl e ↦ rw e (record {
      well = laws.get_healthy (key_for d) w.storage c.well;
      addressed =
          λ d' x k m. c.addressed d' x k (sym (laws.get_at (key_for d) (key_for d') w.storage) ∙ m);
      calm = c.calm;
    })
  ]

  -- A path is bound to a body whose digest has a blob, of the very body where no blob was there before.
  pub record Holds (repo path media_type metadata body : Bytes) (before : S) (w : World S)
      : Type 0 where
    pub bytes : Bytes
    pub bound :
        content_at w.db repo path ≡ some (row_of (digest_of sha256 body) media_type metadata body)
    pub there : object w.storage (key_for (digest_of sha256 body)) ≡ some bytes
    pub same : digest_of sha256 bytes ≡ digest_of sha256 body
    pub whole : object before (key_for (digest_of sha256 body)) ≡ none → bytes ≡ body

  got_there :
      (d c : Bytes) (s : S) → IsDigest d → (Cas.get b d s).0 ≡ ok c → object s (key_for d) ≡ some c
  unfolding Cas.get
  got_there d c s h got = ground (arith, h, laws.get_ok (key_for d) c s)

  there_got :
      (d c : Bytes) (s : S)
      → IsDigest d
      → healthy s ≡ true
      → object s (key_for d) ≡ some c
      → (Cas.get b d s).0 ≡ ok c
  unfolding Cas.get
  there_got d c s h well there = ground (arith, h, laws.get_total (key_for d) c s)

  -- What is stored is held.
  pub store_with-Holds :
      (n : ℕ) (repo path media_type metadata body : Bytes) (w : World S)
      → IsCalm w
      → let done = store_with sha256 b (envs n) repo path media_type metadata body w in
        (done.0 ≡ ok tt) × Holds repo path media_type metadata body w.storage done.1 × IsCalm done.1
  store_with-Holds n repo path media_type metadata body w c =
      let put =
        get-put sha256 hash b object IsKey healthy laws digest_key (envs n).nonce (upload_key n)
          body w.storage c.well (any_nonce 0 n w.storage c.addressed) in
      let done =
        store_with_calm sha256 b (envs n) repo path media_type metadata body _ _ w c.calm put.0 in
      let kept =
        put_ok sha256 hash b object IsKey healthy laws digest_key (envs n).nonce (upload_key n) body
          w.storage c.well in
      (
        done.0,
        record {
          bytes = put.1;
          bound = done.3;
          there = rw done.2 (
              got_there (digest_of sha256 body) put.1
                (Cas.put sha256 b (envs n).nonce body w.storage).1 (digest_of-IsDigest hash body)
                put.2);
          same = put.3;
          whole = put.4;
        },
        record {
          well = rw done.2 kept.1;
          addressed = rw done.2 (
              any_nonce n 0 (Cas.put sha256 b (envs n).nonce body w.storage).1 (
                put-IsAddressed sha256 hash b object IsKey healthy laws digest_key (envs n).nonce
                  (upload_key n) body w.storage (any_nonce 0 n w.storage c.addressed)));
          calm = done.1;
        },
      )

  -- A blob that is there stays, when no call fails.
  put_present :
      (n : ℕ) (body d bytes : Bytes) (s : S)
      → IsDigest d
      → healthy s ≡ true
      → object s (key_for d) ≡ some bytes
      → object (Cas.put sha256 b (envs n).nonce body s).1 (key_for d) ≡ some bytes
  put_present n body d bytes s h well there = elim (Bool-cases (digest_of sha256 body == d)) [
    | inr e ↦
        put_elsewhere sha256 hash b object IsKey healthy laws digest_key (envs n).nonce
          (upload_key n) body d s h e
        ∙ there
    | inl e ↦ ground (
      arith,
      eq_iff (digest_of sha256 body) d,
      put_known sha256 hash b object IsKey healthy laws digest_key (envs n).nonce (upload_key n)
          body bytes d s well,
    )
  ]

  -- A store at another path leaves a held one held.
  pub store_with_elsewhere-Holds :
      (n : ℕ) (repo path media_type metadata body path' media_type' metadata' body' : Bytes)
      (before : S) (w : World S)
      → IsCalm w
      → (path == path') ≡ false
      → Holds repo path' media_type' metadata' body' before w
      → Holds repo path' media_type' metadata' body' before
          (store_with sha256 b (envs n) repo path media_type metadata body w).1
  store_with_elsewhere-Holds n repo path media_type metadata body path' media_type' metadata' body'
        before w c other h =
      let put =
        get-put sha256 hash b object IsKey healthy laws digest_key (envs n).nonce (upload_key n)
          body w.storage c.well (any_nonce 0 n w.storage c.addressed) in
      let done =
        store_with_calm sha256 b (envs n) repo path media_type metadata body _ _ w c.calm put.0 in
      record {
        bytes = h.bytes;
        bound =
            store_with_elsewhere sha256 b (envs n) repo path media_type metadata body repo path' w
              (ground (arith, other))
            ∙ h.bound;
        there = rw done.2 (
            put_present n body (digest_of sha256 body') h.bytes w.storage
              (digest_of-IsDigest hash body') c.well h.there);
        same = h.same;
        whole = h.whole;
      }

  -- What is held is resolved to and read.
  pub Holds-found :
      (members : Bytes → List Bytes) (repo path media_type metadata body : Bytes) (before : S)
      (w : World S)
      → IsCalm w
      → (h : Holds repo path media_type metadata body before w)
      → (a : Artifact) × (resolve_artifact members repo path w.db ≡ (ok a, w.db))
        × ((Cas.get b a.digest w.storage).0 ≡ ok h.bytes)
  Holds-found members repo path media_type metadata body before w c h =
      let row = resolve-content members repo path _ w.db c.calm h.bound in
      (
        row.0,
        row.1,
        rw row.2 (
            there_got (digest_of sha256 body) h.bytes w.storage (digest_of-IsDigest hash body)
              c.well h.there),
      )

  -- What is held has a row, whose digest is read.
  pub Holds-row :
      (repo path media_type metadata body : Bytes) (before : S) (w : World S)
      → IsCalm w
      → (h : Holds repo path media_type metadata body before w)
      → (a : Artifact) × (find_in w.db repo path ≡ some a)
        × ((Cas.get b a.digest w.storage).0 ≡ ok h.bytes)
  Holds-row repo path media_type metadata body before w c h =
      elim (Option-cases (find_in w.db repo path)) [
        | inl e ↦ absurd (ground (arith, h.bound, e))
        | inr (a, e) ↦
            let named : a.digest ≡ digest_of sha256 body = ground (arith, h.bound, e) in
            (
              a,
              e,
              rw named (
                  there_got (digest_of sha256 body) h.bytes w.storage (digest_of-IsDigest hash body)
                    c.well h.there),
            )
      ]
