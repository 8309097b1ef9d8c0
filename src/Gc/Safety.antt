-- ===== src/Gc/Safety.antt =====
-- No blob that a row refers to is swept, whatever calls fail.
use packrune.Prelude.{
  ℕ, zero, suc, ◌≡◌, inl, inr, refl, ◌∙◌, Bool, true, false, Option, some, List, [], ◌∷◌, ◌++◌,
  arith, Bytes, codes, ◌==◌, eq_iff, ==_refl, split-append, split_last, All, Option-cases,
  Bool-cases, is_seen,
}
use packrune.Action.{ok, Result-cases}
use packrune.Storage.{Backend, ListResult}
use packrune.Storage.Contract.{IsBackend}
use packrune.Storage.Cas.{key_for}
use packrune.Storage.Cas.Hash.{all-lacks}
use packrune.Storage.Cas.Keys.{IsDigest, parts, key_for-parts}
use packrune.Repo.Tables.{Artifact, Db}
use packrune.Repo.Store.{find_artifact}
use packrune.Repo.Rows.{find_in}
use packrune.Gc.{Sweep, digests, key_digest, referenced, sweep_key, sweep_keys, sweep_pages, run_gc}

-- What the sweep relies on beyond the contract: in a clean state every key that is listed names an
-- object of its own, and the calls of the sweep keep the state clean.
pub record IsListing {S : Type 0} (b : Backend S) (object : S → Bytes → Option Bytes)
    (IsKey : Bytes → Type 0) (IsClean : S → Type 0) : Type 0 where
  pub keys :
      (prefix token : Bytes) (n : ℕ) (s : S) (r : ListResult)
      → IsClean s
      → (b.list prefix token n s).0 ≡ ok r
      → All IsKey r.keys
  pub list_at :
      (prefix token : Bytes) (n : ℕ) (j : Bytes) (s : S)
      → object (b.list prefix token n s).1 j ≡ object s j
  pub list_clean :
      (prefix token : Bytes) (n : ℕ) (s : S) → IsClean s → IsClean (b.list prefix token n s).1
  pub stat_clean : (k : Bytes) (s : S) → IsClean s → IsClean (b.stat k s).1
  pub delete_clean : (k : Bytes) (s : S) → IsClean s → IsClean (b.delete k s).1

-- The key of a digest is read as that digest.
pub key_digest-key_for : (d : Bytes) → IsDigest d → key_digest (key_for d) ≡ some d
unfolding key_digest
key_digest-key_for d h =
    let p = parts d h in
    let hex = p.a ∷ p.b ∷ p.rest in
    let slash = all-lacks hex b'/' refl p.hex in
    rw
      (
        p.spelled,
        key_for-parts p.a p.b p.rest,
        split-append (codes "blobs") (codes "sha256/" ++ p.a ∷ p.b ∷ b'/' ∷ hex) b'/' (omega arith),
        split-append (codes "sha256") (p.a ∷ p.b ∷ b'/' ∷ hex) b'/' (omega arith),
        split-append (p.a ∷ p.b ∷ []) hex b'/' (slash.0, (slash.1.0, tt)),
        split_last hex b'/' slash,
      )
      refl

is_seen-digests :
    (repo path : Bytes) (rows : List Artifact) (a : Artifact)
    → find_artifact repo path rows ≡ some a
    → is_seen a.digest (digests rows) ≡ true
unfolding find_artifact is_seen
is_seen-digests repo path [] a h = cc
is_seen-digests repo path (r ∷ rows) a h =
    ground (arith, is_seen-digests repo path rows a, ==_refl a.digest)

module _ {S : Type 0} (b : Backend S) (object : S → Bytes → Option Bytes) (IsKey : Bytes → Type 0)
    (healthy : S → Bool) (laws : IsBackend b object IsKey healthy)
    (digest_key : (d : Bytes) → IsDigest d → IsKey (key_for d)) (IsClean : S → Type 0)
    (listing : IsListing b object IsKey IsClean) (dry_run : Bool) where
  module _ (live : List Bytes) (d : Bytes) (h : IsDigest d) (referred : is_seen d live ≡ true) where
    sweep_key-at :
        (key : Bytes) (t : Sweep) (s : S)
        → IsKey key
        → object (sweep_key b dry_run live key t s).1 (key_for d) ≡ object s (key_for d)
    unfolding sweep_key
    sweep_key-at key t s hk = elim (Option-cases (key_digest key)) [
      | inl e ↦ rw e
      | inr (e, p) ↦ elim (Bool-cases (is_seen e live)) [
        | inl seen ↦ rw (p, seen)
        | inr orphan ↦
            let s1 = (b.stat key s).1 in
            let other : (key == key_for d) ≡ false =
              ground (arith, eq_iff key (key_for d), key_digest-key_for d h) in
            ground (
              arith,
              orphan,
              p,
              other,
              laws.stat_at key (key_for d) s,
              laws.delete_at key (key_for d) s1 hk (digest_key d h),
            )
      ]
    ]

    sweep_key-IsClean :
        (key : Bytes) (t : Sweep) (s : S) → IsClean s → IsClean (sweep_key b dry_run live key t s).1
    unfolding sweep_key
    sweep_key-IsClean key t s c = elim (Option-cases (key_digest key)) [
      | inl e ↦ rw e c
      | inr (e, p) ↦ elim (Bool-cases (is_seen e live)) [
        | inl seen ↦ rw (p, seen) c
        | inr orphan ↦
            let c1 = listing.stat_clean key s c in
            rw (p, orphan)
              (elim (Bool-cases dry_run) [
                | inl dry ↦ rw dry c1
                | inr wet ↦ rw wet (listing.delete_clean key (b.stat key s).1 c1)
              ])
      ]
    ]

    sweep_keys-at :
        (keys : List Bytes) (t : Sweep) (s : S)
        → All IsKey keys
        → IsClean s
        → (object (sweep_keys b dry_run live keys t s).1 (key_for d) ≡ object s (key_for d))
          × IsClean (sweep_keys b dry_run live keys t s).1
    unfolding sweep_keys
    sweep_keys-at [] t s hk c = (refl, c)
    sweep_keys-at (k ∷ keys) t s hk c =
        let one = sweep_key b dry_run live k t s in
        let rest = sweep_keys-at keys one.0 one.1 hk.1 (sweep_key-IsClean k t s c) in
        (rest.0 ∙ sweep_key-at k t s hk.0, rest.1)

    sweep_pages-at :
        (n : ℕ) (token : Bytes) (t : Sweep) (s : S)
        → IsClean s
        → object (sweep_pages b dry_run live n token t s).1 (key_for d) ≡ object s (key_for d)
    unfolding sweep_pages
    sweep_pages-at zero token t s c = refl
    sweep_pages-at (suc n) token t s c =
        let listed = b.list (codes "blobs/") token 1000 s in
        let c1 = listing.list_clean (codes "blobs/") token 1000 s c in
        let at1 = listing.list_at (codes "blobs/") token 1000 (key_for d) s in
        elim (Result-cases listed.0) [
          | inr (e, p) ↦ ground (arith, p, at1)
          | inl (r, p) ↦
              let swept = sweep_keys b dry_run live r.keys t listed.1 in
              let kept =
                sweep_keys-at r.keys t listed.1 (listing.keys (codes "blobs/") token 1000 s r c p)
                  c1 in
              let rest = sweep_pages-at n r.next_token swept.0 swept.1 kept.1 in
              elim (Bool-cases (r.next_token == [])) [
                | inl last ↦ ground (arith, p, last, kept.0, at1)
                | inr more ↦ ground (arith, p, more, rest, kept.0, at1)
              ]
        ]

  -- From a state whose listed keys are clean, however many pages are swept and whatever calls
  -- fail, the blob of every valid digest that a row of the database refers to stays as it was.
  pub run_gc-blob :
      (n : ℕ) (repo path : Bytes) (a : Artifact) (db : Db) (s : S)
      → find_in db repo path ≡ some a
      → IsDigest a.digest
      → IsClean s
      → object (run_gc b dry_run n db s).1 (key_for a.digest) ≡ object s (key_for a.digest)
  unfolding run_gc referenced
  run_gc-blob n repo path a db s found h c = ground (
    arith,
    sweep_pages-at (digests db.artifacts) a.digest h
        (is_seen-digests repo path db.artifacts a found) n []
        (record { scanned = 0; orphans = 0; freed = 0 }) s c,
  )
