-- ===== src/Storage/Cas/Addressed.antt =====
-- What the content-addressable layer keeps, over any backend that meets the contract.
use packrune.Prelude.{
  ℕ, ◌≡◌, inl, inr, ap, ◌∙◌, Bool, true, false, not, ◌&&◌, Option, none, some, arith, Bytes, length,
  ◌==◌, eq_iff, ==_refl, if◌then◌else◌, Option-cases,
}
use packrune.Action.{ok, is_ok, Result-cases}
use packrune.Storage.{Backend}
use packrune.Storage.Contract.{IsBackend}
use packrune.Storage.Cas.{key_for, temp_key, digest_of, put, get}
use packrune.Storage.Cas.Hash.{IsHash}
use packrune.Storage.Cas.Keys.{IsDigest, digest_of-IsDigest, key_for-eq, temp_key-ne}

module _ {S : Type 0} (sha256 : Bytes → Bytes) (hash : IsHash sha256) (b : Backend S)
    (object : S → Bytes → Option Bytes) (IsKey : Bytes → Type 0) (healthy : S → Bool)
    (laws : IsBackend b object IsKey healthy)
    (digest_key : (d : Bytes) → IsDigest d → IsKey (key_for d)) (nonce : Bytes)
    (upload_key : IsKey (temp_key nonce)) where
  -- The content of a digest's object.
  abbrev pub blob : S → Bytes → Option Bytes
  blob s d = object s (key_for d)

  module _ (body : Bytes) (s : S) where
    abbrev temp : Bytes
    temp = temp_key nonce

    abbrev digest : Bytes
    digest = digest_of sha256 body

    abbrev s1 : S
    s1 = (b.put temp body s).1

    abbrev s2 : S
    s2 = (b.stat (key_for digest) s1).1

    abbrev s3 : S
    s3 = (b.get temp s2).1

    -- What the first write leaves under a digest's key.
    staged_first : (d : Bytes) → IsDigest d → blob s1 d ≡ blob s d
    staged_first d h = ground (
      arith,
      laws.put_at temp body (key_for d) s upload_key (digest_key d h),
      temp_key-ne nonce d h,
    )

    staged : (d : Bytes) → IsDigest d → blob s2 d ≡ blob s d
    staged d h = ground (arith, staged_first d h, laws.stat_at (key_for digest) (key_for d) s1)

    -- The second write stores what the first one was given.
    reread :
        (n : ℕ) (c : Bytes) → (b.put temp body s).0 ≡ ok n → (b.get temp s2).0 ≡ ok c → c ≡ body
    reread n c put_ok got = ground (
      arith,
      laws.put_at temp body temp s upload_key upload_key,
      laws.stat_at (key_for digest) temp s1,
      laws.get_ok temp c s2,
      ==_refl temp,
    )

    drop_temp : (d : Bytes) (t : S) → IsDigest d → blob (b.delete temp t).1 d ≡ blob t d
    drop_temp d t h = ground (
      arith,
      laws.delete_at temp (key_for d) t upload_key (digest_key d h),
      temp_key-ne nonce d h,
    )

    final_at :
        (d : Bytes)
        → IsDigest d
        → blob (b.put (key_for digest) body s3).1 d ≡ (
            if is_ok (b.put (key_for digest) body s3).0 && digest == d then some body else blob s d)
    final_at d h = ground (
      arith,
      laws.put_at (key_for digest) body (key_for d) s3
          (digest_key digest (digest_of-IsDigest hash body)) (digest_key d h),
      key_for-eq digest d (digest_of-IsDigest hash body) h,
      laws.get_at temp (key_for d) s2,
      staged d h,
    )

  -- What Put leaves under each digest, on success and on failure: `found` tells whether the content
  -- was there.
  module _ (body d : Bytes) (s : S) (h : IsDigest d) where
    fresh : Bool
    fresh =
        is_ok (put sha256 b nonce body s).0
        && not (is_ok (b.stat (key_for (digest body s)) (s1 body s)).0)

    put-blob :
        blob (put sha256 b nonce body s).1 d
        ≡ (if fresh && digest body s == d then some body else blob s d)
    unfolding put fresh
    put-blob = elim (Result-cases (b.put (temp body s) body s).0) [
      | inr (e, p) ↦ ground (arith, staged_first body s d h)
      | inl (n, p) ↦ elim (Result-cases (b.get (temp body s) (s2 body s)).0) [
        | inr (e, q) ↦ ground (
          arith,
          staged body s d h,
          drop_temp body s d (s2 body s) h,
          laws.get_at (temp body s) (key_for d) (s2 body s),
        )
        | inl (c, q) ↦
            let read_back : (b.get (temp body s) (s2 body s)).0 ≡ ok body =
              q ∙ ap (λ (x : Bytes). ok x) (reread body s n c p q) in
            ground (
              arith,
              read_back,
              staged body s d h,
              drop_temp body s d (s2 body s) h,
              final_at body s d h,
              drop_temp body s d (b.put (key_for (digest body s)) body (s3 body s)).1 h,
            )
      ]
    ]

  -- Put touches no other digest.
  pub put_elsewhere :
      (body d : Bytes) (s : S)
      → IsDigest d
      → (digest_of sha256 body == d) ≡ false
      → blob (put sha256 b nonce body s).1 d ≡ blob s d
  put_elsewhere body d s h other = ground (arith, put-blob body d s h)

  -- Every blob hashes to its own digest.
  unfoldable pub IsAddressed : S → Type 0
  IsAddressed s = (d c : Bytes) → IsDigest d → blob s d ≡ some c → digest_of sha256 c ≡ d

  -- If every blob is stored under the digest of its content, this is so after Put, also when Put
  -- fails half way.
  pub put-IsAddressed :
      (body : Bytes) (s : S) → IsAddressed s → IsAddressed (put sha256 b nonce body s).1
  unfolding IsAddressed
  put-IsAddressed body s inv d c h e =
      ground (arith, put-blob body d s h, inv d c h, eq_iff (digest body s) d)

  -- When no call fails, Put of a content whose digest has a blob changes the blob of no digest.
  pub put_known :
      (body c d : Bytes) (s : S)
      → healthy s ≡ true
      → blob s (digest_of sha256 body) ≡ some c
      → IsDigest d
      → blob (put sha256 b nonce body s).1 d ≡ blob s d
  unfolding fresh
  put_known body c d s well known h = ground (
    arith,
    put-blob body d s h,
    staged_first body s (digest_of sha256 body) (digest_of-IsDigest hash body),
    laws.put_healthy (temp_key nonce) body s well,
    laws.stat_total (key_for (digest_of sha256 body)) c (s1 body s),
  )

  -- What Put answers is the digest and the size of the body.
  pub put_answer :
      (body d : Bytes) (n : ℕ) (s : S)
      → (put sha256 b nonce body s).0 ≡ ok (d, n)
      → (d ≡ digest_of sha256 body) × (n ≡ length body)
  unfolding put
  put_answer body d n s h = elim (Result-cases (b.put (temp_key nonce) body s).0) [
    | inr (e, p) ↦ absurd (ground arith)
    | inl (m, p) ↦ ground (arith, laws.put_ok (temp_key nonce) body m s p)
  ]

  pub put_ok :
      (body : Bytes) (s : S)
      → healthy s ≡ true
      → ((put sha256 b nonce body s).0 ≡ ok (digest_of sha256 body, length body))
        × (healthy (put sha256 b nonce body s).1 ≡ true)
  unfolding put
  put_ok body s well =
      let t = temp_key nonce in
      let k = key_for (digest_of sha256 body) in
      let t1 = (b.put t body s).1 in
      let t2 = (b.stat k t1).1 in
      let t3 = (b.get t t2).1 in
      let t4 = (b.put k body t3).1 in
      let here : object t2 t ≡ some body = ground (
        arith,
        laws.put_at t body t s upload_key upload_key,
        laws.stat_at k t t1,
        ==_refl t,
        laws.put_total t body s upload_key well,
      ) in
      ground (
        arith,
        laws.put_total t body s upload_key well,
        laws.put_healthy t body s well,
        laws.stat_healthy k t1,
        laws.get_total t body t2,
        here,
        laws.get_healthy t t2,
        laws.put_total k body t3 (digest_key _ (digest_of-IsDigest hash body)),
        laws.put_healthy k body t3,
        laws.delete_healthy t t2,
        laws.delete_healthy t t4,
      )

  -- With no call failing, the content is there behind Put.
  put_lost :
      (body : Bytes) (s : S)
      → healthy s ≡ true
      → blob (put sha256 b nonce body s).1 (digest_of sha256 body) ≡ none
      → ⊥
  unfolding fresh
  put_lost body s well gone =
      let d = digest_of sha256 body in
      let h : IsDigest d = digest_of-IsDigest hash body in
      let done = put_ok body s well in
      let after = put-blob body d s h in
      elim (Result-cases (b.stat (key_for d) (s1 body s)).0) [
        | inr (e, p) ↦ ground (arith, after, done, ==_refl d)
        | inl (n, p) ↦
            let (c, there) = laws.stat_ok (key_for d) n (s1 body s) p in
            ground (arith, after, there, staged_first body s d h)
      ]

  -- When no call fails and every blob is stored under its digest, Put answers the SHA-256 digest
  -- and the size of the body, and Get of that digest then delivers a content of that digest: the
  -- body itself, if no blob was there under it.
  pub get-put :
      (body : Bytes) (s : S)
      → healthy s ≡ true
      → IsAddressed s
      → ((put sha256 b nonce body s).0 ≡ ok (digest_of sha256 body, length body))
        × (c : Bytes) × ((get b (digest_of sha256 body) (put sha256 b nonce body s).1).0 ≡ ok c)
        × (digest_of sha256 c ≡ digest_of sha256 body)
        × ((blob s (digest_of sha256 body) ≡ none) → c ≡ body)
  unfolding get IsAddressed
  get-put body s well inv =
      let d = digest_of sha256 body in
      let h : IsDigest d = digest_of-IsDigest hash body in
      let done = put_ok body s well in
      let after = put-blob body d s h in
      elim (Option-cases (blob (put sha256 b nonce body s).1 d)) [
        | inl gone ↦ absurd (put_lost body s well gone)
        | inr (c, there) ↦ (
          done.0,
          c,
          ground (arith, laws.get_total (key_for d) c (put sha256 b nonce body s).1, done.1, h),
          put-IsAddressed body s inv d c h there,
          λ absent. ground (arith, after),
        )
      ]
