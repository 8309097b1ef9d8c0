-- ===== src/Helm/Handler/Download.antt =====
-- internal/format/helm/handler.go: which chart a download delivers.
use packrune.Prelude.{
  ℕ, ◌≡◌, refl, ap, sym, ◌∙◌, Bool, true, false, Option, none, some, List, [], ◌∷◌, ◌++◌, arith,
  Bytes, codes, length, ◌==◌, has_suffix, inl, inr, Bool-cases,
}
use mathlib.Core.List.{Memᴰ}
use packrune.Action.{
  not_found, invalid_key, bad_digest, digest_mismatch, bad_name, bad_kind, unauthorized, io, Result,
  ok, err,
}
use packrune.Storage.{Backend}
use packrune.Storage.Contract.{IsBackend}
use packrune.Storage.Cas
use packrune.Storage.Cas.{key_for, temp_key, digest_of, validate_digest}
use packrune.Storage.Cas.Hash.{IsHash}
use packrune.Storage.Cas.Keys.{IsDigest}
use packrune.Storage.Cas.Addressed.{IsAddressed}
use packrune.Repo.Tables.{Artifact, Engine, kind_proxy}
use packrune.Format.{World, Env, on_storage}
use packrune.Helm.Handler.{
  Handler, sent, octet_stream, find_file, all_charts, send_chart, send_match, found_charts,
  handle_download,
}

find_file_sound :
    (file : Bytes) (arts : List Artifact) (a : Artifact)
    → find_file file arts ≡ some a
    → Memᴰ a arts × (has_suffix a.path (codes "/" ++ file) ≡ true)
unfolding find_file
find_file_sound file [] a h = cc
find_file_sound file (x ∷ arts) a h = elim (Bool-cases (has_suffix x.path (codes "/" ++ file))) [
  | inl e ↦
      let same : x ≡ a = ground (arith, h, e) in
      (
        Memᴰ.head (sym same),
        ap (λ (y : Artifact). has_suffix y.path (codes "/" ++ file)) (sym same) ∙ e,
      )
  | inr e ↦
      let rest = find_file_sound file arts a (ground (arith, h, e)) in (Memᴰ.tail rest.0, rest.1)
]

module _ {R S : Type 0} (sha256 : Bytes → Bytes) (b : Backend S) (engine : Engine) (h : Handler R)
    (env : Env) (hash : IsHash sha256) (object : S → Bytes → Option Bytes) (IsKey : Bytes → Type 0)
    (healthy : S → Bool) (laws : IsBackend b object IsKey healthy)
    (digest_key : (d : Bytes) → IsDigest d → IsKey (key_for d))
    (upload_key : IsKey (temp_key env.nonce)) where
  got_digest :
      (d c : Bytes) (s : S)
      → IsAddressed sha256 hash b object IsKey healthy laws digest_key env.nonce upload_key s
      → (Cas.get b d s).0 ≡ ok c
      → digest_of sha256 c ≡ d
  unfolding Cas.get IsAddressed
  got_digest d c s addressed got = elim (Bool-cases (validate_digest d)) [
    | inr e ↦ absurd (ground (arith, e, got))
    | inl e ↦ addressed d c e (laws.get_ok (key_for d) c s (ground (arith, e, got)))
  ]

  sent-ok :
      (r : Result Bytes × World S) (c : Bytes) (n : ℕ)
      → (send_chart sha256 b engine h env r).0 ≡ sent octet_stream n c
      → (r.0 ≡ ok c) × (n ≡ length c)
  sent-ok (ok x, w) c n e =
      let same : x ≡ c = ground (arith, e) in
      (ap (λ (y : Bytes). ok y) same, ground (arith, e, ap (λ (y : Bytes). length y) same))
  sent-ok (err not_found, w) c n e = absurd (ground (arith, e))
  sent-ok (err invalid_key, w) c n e = absurd (ground (arith, e))
  sent-ok (err bad_digest, w) c n e = absurd (ground (arith, e))
  sent-ok (err digest_mismatch, w) c n e = absurd (ground (arith, e))
  sent-ok (err bad_name, w) c n e = absurd (ground (arith, e))
  sent-ok (err bad_kind, w) c n e = absurd (ground (arith, e))
  sent-ok (err unauthorized, w) c n e = absurd (ground (arith, e))
  sent-ok (err io, w) c n e = absurd (ground (arith, e))

  matched :
      (o : Option Artifact) (file c : Bytes) (n : ℕ) (w : World S)
      → (h.repo_kind == kind_proxy) ≡ false
      → IsAddressed sha256 hash b object IsKey healthy laws digest_key env.nonce upload_key
          w.storage
      → (send_match sha256 b engine h env file o w).0 ≡ sent octet_stream n c
      → (a : Artifact) × (o ≡ some a) × (digest_of sha256 c ≡ a.digest) × (n ≡ length c)
  matched none file c n w hosted addressed e = absurd (ground (arith, e, hosted))
  matched (some a) file c n w hosted addressed e =
      let got = sent-ok (on_storage (Cas.get b a.digest) w) c n e in
      (a, refl, got_digest a.digest c w.storage addressed got.0, got.1)

  -- What a download of a repository that is no proxy delivers is the content of a chart that the
  -- repository shows, whose path ends in the file's name: while every blob is stored under its digest, it
  -- has the digest of that chart's row, and its length is stated, whatever calls fail.
  pub handle_download-digest :
      (file c : Bytes) (n : ℕ) (w : World S)
      → (h.repo_kind == kind_proxy) ≡ false
      → IsAddressed sha256 hash b object IsKey healthy laws digest_key env.nonce upload_key
          w.storage
      → (handle_download sha256 b engine h env file w).0 ≡ sent octet_stream n c
      → (arts : List Artifact) × (a : Artifact) × ((all_charts sha256 b engine h env w).0 ≡ ok arts)
        × Memᴰ a arts
        × (has_suffix a.path (codes "/" ++ file) ≡ true)
        × (digest_of sha256 c ≡ a.digest)
        × (n ≡ length c)
  unfolding handle_download all_charts
  handle_download-digest file c n w hosted addressed answered =
      shown (all_charts sha256 b engine h env w) refl addressed answered
    where
      shown :
          (r : Result (List Artifact) × World S)
          → (all_charts sha256 b engine h env w).0 ≡ r.0
          → IsAddressed sha256 hash b object IsKey healthy laws digest_key env.nonce upload_key
              r.1.storage
          → (found_charts sha256 b engine h env file r).0 ≡ sent octet_stream n c
          → (arts : List Artifact) × (a : Artifact) × ((all_charts sha256 b engine h env w).0
              ≡ ok arts)
            × Memᴰ a arts
            × (has_suffix a.path (codes "/" ++ file) ≡ true)
            × (digest_of sha256 c ≡ a.digest)
            × (n ≡ length c)
      shown (err x, w') e k m = absurd (ground (arith, m))
      shown (ok arts, w') e k m =
          let (a, at_, digest, size) = matched (find_file file arts) file c n w' hosted k m in
          let found = find_file_sound file arts a at_ in
          (arts, a, e, found.0, found.1, digest, size)
