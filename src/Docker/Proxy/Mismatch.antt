-- ===== src/Docker/Proxy/Mismatch.antt =====
-- internal/format/docker/proxy.go: a blob that comes from the upstream, and one that is not what was
-- asked for.
use packrune.Prelude.{
  ℕ, ◌≡◌, ◌≢◌, inl, inr, Bool, true, false, Option, none, [], ◌++◌, arith, Bytes, codes, length,
  ◌==◌, eq_iff, leb, if◌then◌else◌,
}
use packrune.Action.{digest_mismatch, ok, err, Result-cases}
use packrune.Storage.{Backend}
use packrune.Storage.Contract.{IsBackend}
use packrune.Storage.Cas
use packrune.Storage.Cas.{key_for, temp_key, digest_of}
use packrune.Storage.Cas.Hash.{IsHash}
use packrune.Storage.Cas.Keys.{IsDigest, digest_of-IsDigest, key_for-eq}
use packrune.Storage.Cas.Addressed.{put_answer, put_ok, put_elsewhere}
use packrune.Docker.World.{World, Env}
use packrune.Docker.Proxy.{Handler, Upstream, proxy_fetch, proxy_fetch_blob}

abbrev pub blob_url : Bytes → Bytes → Bytes
blob_url name d = codes "/v2/" ++ (name ++ (codes "/blobs/" ++ d))

module _ {S : Type 0} (sha256 : Bytes → Bytes) (b : Backend S) (h : Handler) (env : Env) where
  module _ (hash : IsHash sha256) (object : S → Bytes → Option Bytes) (IsKey : Bytes → Type 0)
      (healthy : S → Bool) (laws : IsBackend b object IsKey healthy)
      (digest_key : (d : Bytes) → IsDigest d → IsKey (key_for d))
      (upload_key : IsKey (temp_key env.nonce)) where
    -- A blob that the upstream delivers is taken only if its bytes have the digest that was asked
    -- for, whatever fails on the way, and its size is that of the bytes.
    pub fetch_verified :
        (name d media_type : Bytes) (n : ℕ) (w : World S)
        → (proxy_fetch_blob sha256 b h env name d w).0 ≡ ok (n, media_type)
        → (u : Upstream) × (h.fetch (blob_url name d) ≡ ok u)
          × (digest_of sha256 u.body ≡ d)
          × (n ≡ length u.body)
    unfolding proxy_fetch_blob proxy_fetch
    fetch_verified name d media_type n w done = elim (Result-cases (h.fetch (blob_url name d))) [
      | inr (e, p) ↦ absurd (ground arith)
      | inl (u, p) ↦ elim (Result-cases (Cas.put sha256 b env.nonce u.body w.storage).0) [
        | inr (e, q) ↦ absurd (ground arith)
        | inl ((stored, m), q) ↦
            let answer =
              put_answer sha256 hash b object IsKey healthy laws digest_key env.nonce upload_key
                u.body stored m w.storage q in
            (u, p, ground (arith, answer, eq_iff stored d), ground (arith, answer))
      ]
    ]

    -- When the configured upstream delivers other bytes than those that were asked for and no call
    -- fails, the fetch fails, and the blob of the digest that the bytes have is gone, also if it
    -- was there before; the blob of every other valid digest stays.
    pub mismatch-blob :
        (name d e : Bytes) (u : Upstream) (w : World S)
        → healthy w.storage ≡ true
        → h.upstream ≢ []
        → h.fetch (blob_url name d) ≡ ok u
        → leb 400 u.status ≡ false
        → u.body_fails ≡ false
        → digest_of sha256 u.body ≢ d
        → IsDigest e
        → let done = proxy_fetch_blob sha256 b h env name d w in
          (done.0 ≡ err digest_mismatch)
          × (object done.1.storage (key_for e)
              ≡ (if digest_of sha256 u.body == e then none else object w.storage (key_for e)))
    unfolding proxy_fetch_blob proxy_fetch Cas.delete
    mismatch-blob name d e u w well configured fetched status read other he =
        let s = w.storage in
        let put =
          put_ok sha256 hash b object IsKey healthy laws digest_key env.nonce upload_key u.body s
            well in
        let a = digest_of sha256 u.body in
        let t = (Cas.put sha256 b env.nonce u.body s).1 in
        let ha : IsDigest a = digest_of-IsDigest hash u.body in
        let dropped =
          laws.delete_at (key_for a) (key_for e) t (digest_key a ha) (digest_key e he) in
        ground (
          arith,
          put,
          configured,
          eq_iff h.upstream [],
          eq_iff a d,
          other,
          ha,
          key_for-eq a e ha he,
          dropped,
          laws.delete_total (key_for a) t (digest_key a ha),
          put_elsewhere sha256 hash b object IsKey healthy laws digest_key env.nonce upload_key
              u.body e s he,
        )
