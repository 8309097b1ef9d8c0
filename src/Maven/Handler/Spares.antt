-- ===== src/Maven/Handler/Spares.antt =====
-- internal/format/maven/handler.go: the calls behind an upload leave what is stored readable.
use packrune.Prelude.{
  ℕ, ◌+◌, ◌≡◌, ◌≢◌, inl, inr, refl, sym, ◌∙◌, Bool, true, false, ◌||◌, Option, none, some, List, [],
  ◌∷◌, ◌++◌, arith, Bytes, codes, ◌==◌, eq_of_==, Bool-cases, Option-cases,
}
use packrune.Repo.Listing.Shadowing.{rows_of, list_calm}
use packrune.Action.{Result, ok, next}
use packrune.Storage.{Backend}
use packrune.Storage.Contract.{IsBackend}
use packrune.Storage.Cas.{key_for, temp_key}
use packrune.Storage.Cas.Hash.{IsHash}
use packrune.Storage.Cas.Keys.{IsDigest}
use packrune.Repo.Tables.{Artifact, Engine}
use packrune.Repo.Rows.{find_in}
use packrune.Repo.Resolve.{get_artifact_calm}
use packrune.Format.{World, Env, store_at}
use packrune.Format.Calm.{IsCalm, Holds, store_with-Holds, store_with_elsewhere-Holds}
use packrune.Maven.Path.{Coordinates, split_artifact_path, is_primary_artifact}
use packrune.Maven.Path.Ends.{last, last-append, last-append_l, last-ne}
use packrune.Maven.Metadata.{Metadata, metadata_for}
use packrune.Maven.Handler.{
  Checksum, Handler, file_path, extension, artifact_prefix, xml_header, metadata_path, checksum,
  write_checksum, ensure_checksums, write_metadata, regenerate_metadata, after_upload,
}

-- No artifact and no checksum stands at the path of a metadata document.
pub metadata_path-ne :
    (c : Coordinates) (p : Bytes)
    → p ≢ []
    → last p ≢ b'l'
    → (metadata_path c == file_path p) ≡ false
unfolding metadata_path file_path
metadata_path-ne c [] n l = absurd (n refl)
metadata_path-ne c (x ∷ s) n l =
    last-ne (metadata_path c) (file_path (x ∷ s))
      (λ e. l (sym (last-append (codes "files/") x s) ∙ sym e ∙ ends))
  where
    ends : last (metadata_path c) ≡ b'l'
    ends =
        let file = codes "/maven-metadata.xml" in
        let tail_ = c.artifact_id ++ file in
        last-append_l (codes "files/") (c.group_path ++ (codes "/" ++ tail_)) (
          last-append_l c.group_path (codes "/" ++ tail_)
            (last-append_l (codes "/") tail_ (last-append_l c.artifact_id file refl)))

module _ {S : Type 0} (sha256 : Bytes → Bytes) (b : Backend S) (engine : Engine) (h : Handler)
    (envs : ℕ → Env) (hash : IsHash sha256) (object : S → Bytes → Option Bytes)
    (IsKey : Bytes → Type 0) (healthy : S → Bool) (laws : IsBackend b object IsKey healthy)
    (digest_key : (d : Bytes) → IsDigest d → IsKey (key_for d))
    (upload_key : (n : ℕ) → IsKey (temp_key (envs n).nonce)) where
  -- No call fails, and every blob is stored under its digest.
  abbrev pub Ready : World S → Type 0
  Ready = IsCalm sha256 b envs hash object IsKey healthy laws digest_key upload_key

  -- A path of the repository is bound to a body that can be read.
  abbrev pub Has : Bytes → Bytes → Bytes → S → World S → Type 0
  Has path media_type body before w =
      Holds sha256 b envs hash object IsKey healthy laws digest_key upload_key h.repo_id path
        media_type [] body before w

  -- A call that leaves all that is bound at a path readable, and works.
  abbrev pub Spares : Bytes → (World S → Result (Unit {0}) × World S) → Type 0
  Spares path f =
      (media_type body : Bytes) (before : S) (w : World S)
      → Ready w
      → (Ready (f w).1)
        × ((f w).0 ≡ ok tt)
        × (Has path media_type body before w → Has path media_type body before (f w).1)

  pub store-Spares :
      (n : ℕ) (path media_type body path' : Bytes)
      → (path == path') ≡ false
      → Spares path' (store_at sha256 b (envs n) h.repo_id path media_type body)
  store-Spares n path media_type body path' other media_type' body' before w c =
      let done =
        store_with-Holds sha256 b envs hash object IsKey healthy laws digest_key upload_key n
          h.repo_id path media_type [] body w c in
      (
        done.2,
        done.0,
        store_with_elsewhere-Holds sha256 b envs hash object IsKey healthy laws digest_key
            upload_key n h.repo_id path media_type [] body path' media_type' [] body' before w c
            other,
      )

  pub write_checksum_free :
      (n : ℕ) (p body : Bytes) (k : Checksum) (w : World S)
      → w.db.faults ≡ []
      → find_in w.db h.repo_id (file_path (p ++ extension k)) ≡ none
      → write_checksum sha256 b engine h envs n p body k w
        ≡ store_at sha256 b
            (envs n)
            h.repo_id
            (file_path (p ++ extension k))
            (codes "text/plain")
            (checksum sha256 b engine h envs k body)
            w
  unfolding write_checksum
  write_checksum_free n p body k w calm free =
      rw (get_artifact_calm w.db calm h.repo_id (file_path (p ++ extension k)), free) refl

  pub write_checksum_there :
      (n : ℕ) (p body : Bytes) (k : Checksum) (a : Artifact) (w : World S)
      → w.db.faults ≡ []
      → find_in w.db h.repo_id (file_path (p ++ extension k)) ≡ some a
      → write_checksum sha256 b engine h envs n p body k w ≡ (ok tt, w)
  unfolding write_checksum
  write_checksum_there n p body k a w calm there =
      rw (get_artifact_calm w.db calm h.repo_id (file_path (p ++ extension k)), there) refl

  -- A checksum spares every path: it is written only where nothing is.
  pub write_checksum-Spares :
      (n : ℕ) (p body path : Bytes) (k : Checksum)
      → Spares path (write_checksum sha256 b engine h envs n p body k)
  write_checksum-Spares n p body path k media_type content before w c =
      let q = file_path (p ++ extension k) in
      elim (Option-cases (find_in w.db h.repo_id q)) [
        | inr (a, e) ↦ rw (write_checksum_there n p body k a w c.calm e) (c, refl, λ x. x)
        | inl e ↦ elim (Bool-cases (q == path)) [
          | inr other ↦
              rw (write_checksum_free n p body k w c.calm e)
                (store-Spares n q _ _ path other media_type content before w c)
          | inl same ↦
              let done =
                store_with-Holds sha256 b envs hash object IsKey healthy laws digest_key upload_key
                  n h.repo_id q (codes "text/plain") [] (checksum sha256 b engine h envs k body) w
                  c in
              rw (write_checksum_free n p body k w c.calm e)
                (done.2, done.0, λ x. absurd (ground (arith, x.bound, e, eq_of_== q path same)))
        ]
      ]

  -- Two such calls, one after the other.
  then-Spares :
      (path : Bytes) (f g : World S → Result (Unit {0}) × World S)
      → Spares path f
      → Spares path g
      → Spares path (λ w. next (f w) (λ u. g))
  then-Spares path f g sf sg media_type body before w c =
      let one = sf media_type body before w c in
      let two = sg media_type body before (f w).1 one.0 in
      rw (one.1) (two.0, two.1, λ x. two.2 (one.2 x))

  pub ensure_checksums-Spares :
      (n : ℕ) (p body path : Bytes) (ks : List Checksum)
      → Spares path (ensure_checksums sha256 b engine h envs n p body ks)
  unfolding ensure_checksums
  ensure_checksums-Spares n p body path [] = λ media_type content before w c. (c, refl, λ x. x)
  ensure_checksums-Spares n p body path (k ∷ ks) =
      then-Spares path (write_checksum sha256 b engine h envs n p body k)
        (ensure_checksums sha256 b engine h envs (n + 1) p body ks)
        (write_checksum-Spares n p body path k) (ensure_checksums-Spares (n + 1) p body path ks)

  write_metadata-Spares :
      (n : ℕ) (c : Coordinates) (m : Option Metadata) (path media_type body : Bytes) (before : S)
      (w : World S)
      → (metadata_path c == path) ≡ false
      → Ready w
      → let done = write_metadata sha256 b engine h envs n c m w in
        Ready done.1 × (Has path media_type body before w → Has path media_type body before done.1)
  write_metadata-Spares n c none path media_type body before w other ready = (ready, λ x. x)
  write_metadata-Spares n c (some m) path media_type body before w other ready =
      elim (Option-cases (h.print m)) [
        | inl e ↦ rw e (ready, λ x. x)
        | inr (out, e) ↦
            let done =
              store-Spares n (metadata_path c) (codes "application/xml") (xml_header ++ out) path
                other media_type body before w ready in
            rw e (done.0, done.2)
      ]

  -- A document of versions spares the files whose names do not end as it does.
  pub regenerate_metadata-Spares :
      (n : ℕ) (p path media_type body : Bytes) (before : S) (w : World S)
      → (metadata_path (split_artifact_path p) == path) ≡ false
      → Ready w
      → let done = regenerate_metadata sha256 b engine h envs n p w in
        Ready done.1 × (Has path media_type body before w → Has path media_type body before done.1)
  unfolding regenerate_metadata
  regenerate_metadata-Spares n p path media_type body before w other ready =
      let c = split_artifact_path p in
      elim (Bool-cases (c.group_path == [] || c.artifact_id == [])) [
        | inl e ↦ rw e (ready, λ x. x)
        | inr e ↦
            rw (e, list_calm engine (artifact_prefix c) h.repo_id w.db ready.calm)
              (write_metadata-Spares n c
                (metadata_for c (h.date (envs n).now) (artifact_prefix c)
                  (rows_of engine (artifact_prefix c) w.db h.repo_id))
                path media_type body before w other ready)
      ]

  pub after_upload-Spares :
      (p sent_ path media_type body : Bytes) (before : S) (w : World S)
      → (is_primary_artifact p ≡ true → (metadata_path (split_artifact_path p) == path) ≡ false)
      → Ready w
      → let done = after_upload sha256 b engine h envs p sent_ w in
        Ready done × (Has path media_type body before w → Has path media_type body before done)
  unfolding after_upload
  after_upload-Spares p sent_ path media_type body before w other ready =
      elim (Bool-cases (is_primary_artifact p)) [
        | inr e ↦ rw e (ready, λ x. x)
        | inl e ↦
            let sums =
              ensure_checksums-Spares 1 p sent_ path h.checks media_type body before w ready in
            let done =
              regenerate_metadata-Spares 4 p path media_type body before
                (ensure_checksums sha256 b engine h envs 1 p sent_ h.checks w).1 (other e) sums.0 in
            rw e (done.0, λ x. done.1 (sums.2 x))
      ]
