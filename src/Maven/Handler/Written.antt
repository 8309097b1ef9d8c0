-- ===== src/Maven/Handler/Written.antt =====
-- internal/format/maven/handler.go: the checksums that an upload writes.
use packrune.Prelude.{
  ℕ, ◌+◌, ◌≡◌, ◌⊎◌, inl, inr, refl, sym, Bool, false, Option, none, List, [], ◌∷◌, ◌++◌, arith,
  Bytes, codes, ◌==◌, ==_append, Option-cases,
}
use mathlib.Core.List.{Memᴰ}
use packrune.Storage.{Backend}
use packrune.Storage.Contract.{IsBackend}
use packrune.Storage.Cas.{key_for, temp_key}
use packrune.Storage.Cas.Hash.{IsHash}
use packrune.Storage.Cas.Keys.{IsDigest}
use packrune.Repo.Tables.{Engine}
use packrune.Repo.Rows.{find_in}
use packrune.Format.{World, Env}
use packrune.Format.Stored.{store_at_elsewhere}
use packrune.Format.Calm.{store_with-Holds}
use packrune.Maven.Handler.{
  Checksum, sha1_sum, sha256_sum, md5_sum, Handler, file_path, extension, checksum, write_checksum,
  ensure_checksums,
}
use packrune.Maven.Handler.Spares.{
  Ready, Has, write_checksum_free, write_checksum_there, write_checksum-Spares,
  ensure_checksums-Spares,
}

-- The files of two checksums of one artifact are two.
checksum_path-ne :
    (p : Bytes) (j k : Checksum)
    → (j ≡ k) ⊎ ((file_path (p ++ extension j) == file_path (p ++ extension k)) ≡ false)
unfolding file_path ◌==◌
checksum_path-ne p sha1_sum sha1_sum = inl refl
checksum_path-ne p sha1_sum sha256_sum = inr (==_append p _ _)
checksum_path-ne p sha1_sum md5_sum = inr (==_append p _ _)
checksum_path-ne p sha256_sum sha1_sum = inr (==_append p _ _)
checksum_path-ne p sha256_sum sha256_sum = inl refl
checksum_path-ne p sha256_sum md5_sum = inr (==_append p _ _)
checksum_path-ne p md5_sum sha1_sum = inr (==_append p _ _)
checksum_path-ne p md5_sum sha256_sum = inr (==_append p _ _)
checksum_path-ne p md5_sum md5_sum = inl refl

module _ {S : Type 0} (sha256 : Bytes → Bytes) (b : Backend S) (engine : Engine) (h : Handler)
    (envs : ℕ → Env) (hash : IsHash sha256) (object : S → Bytes → Option Bytes)
    (IsKey : Bytes → Type 0) (healthy : S → Bool) (laws : IsBackend b object IsKey healthy)
    (digest_key : (d : Bytes) → IsDigest d → IsKey (key_for d))
    (upload_key : (n : ℕ) → IsKey (temp_key (envs n).nonce)) where
  -- The checksum of an upload is readable at its path.
  abbrev pub HasChecksum : Bytes → Bytes → Checksum → World S → Type 0
  HasChecksum p body k w =
      (before : S) × Has sha256 b engine h envs hash object IsKey healthy laws digest_key upload_key
        (file_path (p ++ extension k)) (codes "text/plain") (checksum sha256 b engine h envs k body)
        before w

  write_checksum-Has :
      (n : ℕ) (p body : Bytes) (k : Checksum) (w : World S)
      → Ready sha256 b engine h envs hash object IsKey healthy laws digest_key upload_key w
      → find_in w.db h.repo_id (file_path (p ++ extension k)) ≡ none
      → HasChecksum p body k (write_checksum sha256 b engine h envs n p body k w).1
  write_checksum-Has n p body k w c free =
      rw
        (write_checksum_free sha256 b engine h envs hash object IsKey healthy laws digest_key
          upload_key n p body k w c.calm free)
        (
          w.storage,
          (store_with-Holds sha256 b envs hash object IsKey healthy laws digest_key upload_key n
              h.repo_id (file_path (p ++ extension k)) (codes "text/plain") []
              (checksum sha256 b engine h envs k body) w c).1,
        )

  write_checksum-row :
      (n : ℕ) (p body : Bytes) (j k : Checksum) (w : World S)
      → w.db.faults ≡ []
      → (file_path (p ++ extension j) == file_path (p ++ extension k)) ≡ false
      → find_in w.db h.repo_id (file_path (p ++ extension k)) ≡ none
      → find_in
          (write_checksum sha256 b engine h envs n p body j w).1.db
          h.repo_id
          (file_path (p ++ extension k))
        ≡ none
  write_checksum-row n p body j k w calm other free =
      elim (Option-cases (find_in w.db h.repo_id (file_path (p ++ extension j)))) [
        | inr (a, e) ↦
            rw
              (write_checksum_there sha256 b engine h envs hash object IsKey healthy laws digest_key
                upload_key n p body j a w calm e)
              free
        | inl e ↦
            rw
              (write_checksum_free sha256 b engine h envs hash object IsKey healthy laws digest_key
                upload_key n p body j w calm e)
              (ground (
                arith,
                free,
                store_at_elsewhere sha256 b (envs n) h.repo_id (file_path (p ++ extension j))
                    (codes "text/plain") (checksum sha256 b engine h envs j body) h.repo_id
                    (file_path (p ++ extension k)) w (ground (arith, other)),
              ))
      ]

  ensure_head-Has :
      (n : ℕ) (p body : Bytes) (j k : Checksum) (js : List Checksum) (w : World S)
      → Ready sha256 b engine h envs hash object IsKey healthy laws digest_key upload_key w
      → j ≡ k
      → find_in w.db h.repo_id (file_path (p ++ extension k)) ≡ none
      → HasChecksum p body k (ensure_checksums sha256 b engine h envs n p body (j ∷ js) w).1
  unfolding ensure_checksums
  ensure_head-Has n p body j k js w c same free =
      let q = file_path (p ++ extension k) in
      let text = checksum sha256 b engine h envs k body in
      let plain = codes "text/plain" in
      let one =
        write_checksum-Spares sha256 b engine h envs hash object IsKey healthy laws digest_key
          upload_key n p body q k plain text w.storage w c in
      let (before, held) = write_checksum-Has n p body k w c free in
      let rest =
        ensure_checksums-Spares sha256 b engine h envs hash object IsKey healthy laws digest_key
          upload_key (n + 1) p body q js plain text before
          (write_checksum sha256 b engine h envs n p body k w).1 one.0 in
      rw (same, one.1) (before, rest.2 held)

  -- Each checksum of the list is written, unless there was a file at its path.
  pub ensure_checksums-Has :
      (n : ℕ) (p body : Bytes) (k : Checksum) (ks : List Checksum) (w : World S)
      → Ready sha256 b engine h envs hash object IsKey healthy laws digest_key upload_key w
      → Memᴰ k ks
      → find_in w.db h.repo_id (file_path (p ++ extension k)) ≡ none
      → HasChecksum p body k (ensure_checksums sha256 b engine h envs n p body ks w).1
  unfolding ensure_checksums
  ensure_checksums-Has n p body k [] w c m free = elim m [ ]
  ensure_checksums-Has n p body k (j ∷ js) w c (Memᴰ.head e) free =
      ensure_head-Has n p body j k js w c (sym e) free
  ensure_checksums-Has n p body k (j ∷ js) w c (Memᴰ.tail m) free =
      let q = file_path (p ++ extension k) in
      let one =
        write_checksum-Spares sha256 b engine h envs hash object IsKey healthy laws digest_key
          upload_key n p body q j (codes "text/plain") (checksum sha256 b engine h envs k body)
          w.storage w c in
      elim (checksum_path-ne p j k) [
        | inl same ↦ ensure_head-Has n p body j k js w c same free
        | inr other ↦ rw (one.1) (
            ensure_checksums-Has (n + 1) p body k js
              (write_checksum sha256 b engine h envs n p body j w).1 one.0 m
              (write_checksum-row n p body j k w c.calm other free))
      ]
