-- ===== src/Maven/Handler/Checksums.antt =====
-- internal/format/maven/handler.go: the checksums and the document of versions that an upload brings about.
use packrune.Prelude.{
  ℕ, ◌≡◌, refl, ap, Bool, true, false, ◌||◌, Option, none, some, [], ◌∷◌, ◌++◌, arith, Bytes, codes,
  ◌==◌, nat_eq,
}
use mathlib.Core.List.{Memᴰ}
use packrune.Repo.Listing.Shadowing.{rows_of, list_calm}
use packrune.Maven.Path.Ends.{last, last-append}
use packrune.Maven.Handler.{
  sha1_sum, sha256_sum, md5_sum, Checksum, Handler, file_path, file_sent, extension,
  artifact_prefix, xml_header, metadata_path, max_bytes, checksum, serve_file, ensure_checksums,
  regenerate_metadata, after_upload, upload_file,
}
use packrune.Storage.{Backend}
use packrune.Storage.Disk.{take}
use packrune.Storage.Contract.{IsBackend}
use packrune.Storage.Cas.{key_for, temp_key, digest_of}
use packrune.Storage.Cas.Hash.{IsHash, encode_hex}
use packrune.Storage.Cas.Keys.{IsDigest}
use packrune.Repo.Tables.{Engine}
use packrune.Repo.Rows.{find_in}
use packrune.Format.{World, Request, Env, store_at}
use packrune.Format.Stored.{store_at_elsewhere}
use packrune.Format.Calm.{store_with-Holds}
use packrune.Maven.Path.{Coordinates, split_artifact_path, is_primary_artifact, content_type_for}
use packrune.Maven.Metadata.Versions.{Lists, IsUnder, metadata_for-Lists}
use packrune.Maven.Metadata.{Metadata, metadata_for}
use packrune.Maven.Handler.Upload.{upload_stored, serve_held}
use packrune.Maven.Handler.Spares.{
  Ready, ensure_checksums-Spares, regenerate_metadata-Spares, metadata_path-ne,
}
use packrune.Maven.Handler.Written.{ensure_checksums-Has}

extended :
    (c : Coordinates) (p : Bytes) (d : ℕ) (t : Bytes)
    → (nat_eq (last (d ∷ t)) b'l' || nat_eq (last (d ∷ t)) 0) ≡ false
    → (metadata_path c == file_path (p ++ d ∷ t)) ≡ false
extended c p d t h =
    metadata_path-ne c (p ++ d ∷ t) (λ e. ground (arith, h, last-append p d t, ap last e))
      (λ e. ground (arith, h, last-append p d t, e))

checksum_path-metadata :
    (c : Coordinates) (p : Bytes) (k : Checksum)
    → (metadata_path c == file_path (p ++ extension k)) ≡ false
checksum_path-metadata c p sha1_sum = extended c p b'.' (codes "sha1") refl
checksum_path-metadata c p sha256_sum = extended c p b'.' (codes "sha256") refl
checksum_path-metadata c p md5_sum = extended c p b'.' (codes "md5") refl

longer : (p : Bytes) (d : ℕ) (t : Bytes) → (p == p ++ d ∷ t) ≡ false
unfolding ◌==◌
longer [] d t = refl
longer (c ∷ p) d t = ground (arith, longer p d t)

checksum_path-file :
    (p : Bytes) (k : Checksum) → (file_path p == file_path (p ++ extension k)) ≡ false
unfolding file_path ◌==◌
checksum_path-file p sha1_sum = longer p b'.' (codes "sha1")
checksum_path-file p sha256_sum = longer p b'.' (codes "sha256")
checksum_path-file p md5_sum = longer p b'.' (codes "md5")

module _ {S : Type 0} (sha256 : Bytes → Bytes) (b : Backend S) (engine : Engine) (h : Handler)
    (envs : ℕ → Env) (hash : IsHash sha256) (object : S → Bytes → Option Bytes)
    (IsKey : Bytes → Type 0) (healthy : S → Bool) (laws : IsBackend b object IsKey healthy)
    (digest_key : (d : Bytes) → IsDigest d → IsKey (key_for d))
    (upload_key : (n : ℕ) → IsKey (temp_key (envs n).nonce)) where
  -- The name of a checksum's file and its text.
  abbrev pub IsSum : Checksum → Bytes → Bytes → Bytes → Type 0
  IsSum sha1_sum body suffix text = (suffix ≡ codes ".sha1") × (text ≡ encode_hex (h.sha1 body))
  IsSum sha256_sum body suffix text = (suffix ≡ codes ".sha256") × (text ≡ encode_hex (sha256 body))
  IsSum md5_sum body suffix text = (suffix ≡ codes ".md5") × (text ≡ encode_hex (h.md5 body))

  IsSum-checksum :
      (k : Checksum) (body suffix text : Bytes)
      → IsSum k body suffix text
      → (suffix ≡ extension k) × (text ≡ checksum sha256 b engine h envs k body)
  unfolding checksum
  IsSum-checksum sha1_sum body suffix text h = h
  IsSum-checksum sha256_sum body suffix text h = h
  IsSum-checksum md5_sum body suffix text h = h

  free_behind :
      (req : Request) (p body : Bytes) (k : Checksum) (w : World S)
      → find_in w.db h.repo_id (file_path (p ++ extension k)) ≡ none
      → find_in
          (store_at sha256 b (envs 0) h.repo_id (file_path p) (content_type_for p) body w).1.db
          h.repo_id
          (file_path (p ++ extension k))
        ≡ none
  free_behind req p body k w free = ground (
    arith,
    free,
    store_at_elsewhere sha256 b (envs 0) h.repo_id (file_path p) (content_type_for p) body h.repo_id
        (file_path (p ++ extension k)) w (ground (arith, checksum_path-file p k)),
  )

  upload_file-extension :
      (req : Request) (method p : Bytes) (k : Checksum) (w : World S)
      → Ready sha256 b engine h envs hash object IsKey healthy laws digest_key upload_key w
      → req.body_fails ≡ false
      → is_primary_artifact p ≡ true
      → Memᴰ k h.checks
      → find_in w.db h.repo_id (file_path (p ++ extension k)) ≡ none
      → let body = take max_bytes req.body in
        let done = upload_file sha256 b engine h envs req p w in
        (c : Bytes) × ((serve_file sha256 b engine h envs method (p ++ extension k) done.1).0
          ≡ file_sent method (p ++ extension k) c)
        × (digest_of sha256 c ≡ digest_of sha256 (checksum sha256 b engine h envs k body))
  unfolding after_upload
  upload_file-extension req method p k w ready readable primary listed free =
      let body = take max_bytes req.body in
      let q = p ++ extension k in
      let text = checksum sha256 b engine h envs k body in
      let one =
        store_with-Holds sha256 b envs hash object IsKey healthy laws digest_key upload_key 0
          h.repo_id (file_path p) (content_type_for p) [] body w ready in
      let w1 = (store_at sha256 b (envs 0) h.repo_id (file_path p) (content_type_for p) body w).1 in
      let sums =
        ensure_checksums-Has sha256 b engine h envs hash object IsKey healthy laws digest_key
          upload_key 1 p body k h.checks w1 one.2 listed (free_behind req p body k w free) in
      let w2 = (ensure_checksums sha256 b engine h envs 1 p body h.checks w1).1 in
      let calm =
        ensure_checksums-Spares sha256 b engine h envs hash object IsKey healthy laws digest_key
          upload_key 1 p body (file_path q) h.checks (codes "text/plain") text sums.0 w1 one.2 in
      let done =
        regenerate_metadata-Spares sha256 b engine h envs hash object IsKey healthy laws digest_key
          upload_key 4 p (file_path q) (codes "text/plain") text sums.0 w2
          (checksum_path-metadata (split_artifact_path p) p k) calm.0 in
      let held = done.1 sums.1 in
      rw
        (
          upload_stored sha256 b engine h envs hash object IsKey healthy laws digest_key upload_key
              req p w readable one.0,
          primary,
        )
        (
          held.bytes,
          serve_held sha256 b engine h envs hash object IsKey healthy laws digest_key upload_key
              method q (codes "text/plain") text sums.0
              (regenerate_metadata sha256 b engine h envs 4 p w2).1 done.0 held,
          held.same,
        )

  -- The upload of a primary artifact also writes its checksums: when no call fails and every blob is
  -- stored under its digest, the path of the artifact with .sha1, .sha256 or .md5 then delivers bytes of
  -- the digest of the hex text of the checksum of that name of what was uploaded, up to the limit, unless a
  -- file was there.
  pub upload_file-checksum :
      (req : Request) (method p suffix text : Bytes) (k : Checksum) (w : World S)
      → IsSum k (take max_bytes req.body) suffix text
      → Ready sha256 b engine h envs hash object IsKey healthy laws digest_key upload_key w
      → req.body_fails ≡ false
      → is_primary_artifact p ≡ true
      → Memᴰ k h.checks
      → find_in w.db h.repo_id (file_path (p ++ suffix)) ≡ none
      → let done = upload_file sha256 b engine h envs req p w in
        (c : Bytes) × ((serve_file sha256 b engine h envs method (p ++ suffix) done.1).0
          ≡ file_sent method (p ++ suffix) c)
        × (digest_of sha256 c ≡ digest_of sha256 text)
  upload_file-checksum req method p suffix text k w sum ready readable primary listed =
      let (at_, hex) = IsSum-checksum k (take max_bytes req.body) suffix text sum in
      rw (at_, hex) (upload_file-extension req method p k w ready readable primary listed)

  -- The upload of a primary artifact whose path has a group also writes the document of its versions:
  -- when no call fails, every blob is stored under its digest, and the rows that the database lists
  -- under the prefix of the artifact begin with that prefix, the document, if it can be printed, lists
  -- the versions that these rows spell, and its path delivers bytes of the digest of its text.
  pub upload_file-metadata :
      (req : Request) (method p out : Bytes) (m : Metadata) (w : World S)
      → Ready sha256 b engine h envs hash object IsKey healthy laws digest_key upload_key w
      → req.body_fails ≡ false
      → is_primary_artifact p ≡ true
      → let c = split_artifact_path p in
        let body = take max_bytes req.body in
        let w1 =
          (store_at sha256 b (envs 0) h.repo_id (file_path p) (content_type_for p) body w).1 in
        let w2 = (ensure_checksums sha256 b engine h envs 1 p body h.checks w1).1 in
        let rows = rows_of engine (artifact_prefix c) w2.db h.repo_id in
        (c.group_path == [] || c.artifact_id == []) ≡ false
        → IsUnder (artifact_prefix c) rows
        → metadata_for c (h.date (envs 4).now) (artifact_prefix c) rows ≡ some m
        → h.print m ≡ some out
        → let done = upload_file sha256 b engine h envs req p w in
          let q = c.group_path ++ (codes "/" ++ (c.artifact_id ++ codes "/maven-metadata.xml")) in
          Lists (artifact_prefix c) rows m
          × (got : Bytes) × ((serve_file sha256 b engine h envs method q done.1).0
              ≡ file_sent method q got)
          × (digest_of sha256 got ≡ digest_of sha256 (xml_header ++ out))
  unfolding after_upload regenerate_metadata metadata_path file_path
  upload_file-metadata req method p out m w ready readable primary some_ under document printed =
      let c = split_artifact_path p in
      let body = take max_bytes req.body in
      let one =
        store_with-Holds sha256 b envs hash object IsKey healthy laws digest_key upload_key 0
          h.repo_id (file_path p) (content_type_for p) [] body w ready in
      let w1 = (store_at sha256 b (envs 0) h.repo_id (file_path p) (content_type_for p) body w).1 in
      let sums =
        ensure_checksums-Spares sha256 b engine h envs hash object IsKey healthy laws digest_key
          upload_key 1 p body (file_path p) h.checks [] [] w.storage w1 one.2 in
      let w2 = (ensure_checksums sha256 b engine h envs 1 p body h.checks w1).1 in
      let done =
        store_with-Holds sha256 b envs hash object IsKey healthy laws digest_key upload_key 4
          h.repo_id (metadata_path c) (codes "application/xml") [] (xml_header ++ out) w2 sums.0 in
      let w3 =
        (store_at sha256 b (envs 4) h.repo_id (metadata_path c) (codes "application/xml")
          (xml_header ++ out) w2).1 in
      let q = c.group_path ++ (codes "/" ++ (c.artifact_id ++ codes "/maven-metadata.xml")) in
      rw
        (
          upload_stored sha256 b engine h envs hash object IsKey healthy laws digest_key upload_key
              req p w readable one.0,
          primary,
          some_,
          list_calm engine (artifact_prefix c) h.repo_id w2.db sums.0.calm,
          document,
          printed,
        )
        (
          metadata_for-Lists c (h.date (envs 4).now) (artifact_prefix c)
              (rows_of engine (artifact_prefix c) w2.db h.repo_id) m under document,
          done.1.bytes,
          serve_held sha256 b engine h envs hash object IsKey healthy laws digest_key upload_key
              method q (codes "application/xml") (xml_header ++ out) w2.storage w3 done.2 done.1,
          done.1.same,
        )
